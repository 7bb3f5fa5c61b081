-- ===== src/Fat/File/Run.antt =====
-- The inner loop of `fatRead`: a run of clusters that stand side by side.
use loom_bootloader.Base.{
  ℕ, zero, suc, ◌+◌, ◌-◌, ◌*◌, ◌/◌, ◌^◌, ◌≤◌, ◌<◌, ◌≡◌, ◌≢◌, arith, refl, sym, ap, ◌∙◌, u32, usize,
  Exec, ok, not, ◌==◌, ltb, leb, true, false, Bool-cases, inl, inr,
}
use mathlib.Core.Path.{subst}
use loom_bootloader.Error.{LoomError}
use loom_bootloader.BlockDev.Read.Bytes.{LoomError-discrete}
use loom_bootloader.Fat.{FatFs, get_cluster_size, get_cluster_limit}
use loom_bootloader.Fat.Cluster.{Disk, next_cluster}
use loom_bootloader.Fat.Cluster.Entry.{Reads}
use loom_bootloader.Fat.File.{read_run, advance}
use loom_bootloader.Fat.File.Chain.{
  cell, byte_of, ChainOf, place-div, byte_of-cell, limit_fits, next-links,
}

advance_error :
    (e : LoomError) (next c r : ℕ) (rest : ℕ → Exec (LoomError × ℕ × ℕ))
    → e ≢ LoomError.none
    → advance (e, next) c r rest ≡ ok (e, r, next)
unfolding advance
advance_error LoomError.none next c r rest h = absurd (h refl)
advance_error _ next c r rest h = refl

one_more : (u n : ℕ) → 2 ≤ u → (u + 1 - 2) * n ≡ (u - 2) * n + n
one_more u n h = ap (λ v. v * n) {x = u + 1 - 2} {y = suc (u - 2)} (omega arith) ∙ omega arith

-- The bytes from `r` to `r'` of a run from the file's position `p` on stand side by side on the disk,
-- from `base + r` on, and `c` is the cluster of the byte behind them, if the file goes on.
pub record Ran (fs : FatFs) (d cl : ℕ → ℕ) (size p base r r' c : ℕ) : Type 0 where
  pub bytes : (k : ℕ) → r ≤ k → k < r' → d (base + k) ≡ byte_of fs d cl (p + k)
  pub fits : base + r' < 2 ^ 32
  pub behind : p + r' < size → c ≡ cl ((p + r') / get_cluster_size fs)

module _ (fs : FatFs) (d : ℕ → ℕ) (size : ℕ) (cl : ℕ → ℕ)
    (h : ChainOf (get_cluster_size fs) (get_cluster_limit fs.type) fs d size cl) (disk : Disk)
    (reads : Reads disk d) (p n base : ℕ) (inside : p + n ≤ size) where
  -- The run is at the byte `o` of the `j`th cluster, which is `c`.
  pub record At (r j o c : ℕ) : Type 0 where
    pub place : p + r ≡ j * get_cluster_size fs + o
    pub room : o < get_cluster_size fs
    pub cluster : c ≡ cl j
    pub cell_eq : cell fs cl j o ≡ base + r
    pub more : r < n

  stretch :
      (r j o c t : ℕ)
      → At r j o c
      → o + t ≤ get_cluster_size fs
      → (k : ℕ) → r ≤ k
      → k < r + t
      → d (base + k) ≡ byte_of fs d cl (p + k)
  stretch r j o c t a fit k lo hi =
      let place = a.place in
      let eq = a.cell_eq in
      ap d {x = base + k} {y = cell fs cl j (o + (k - r))} (omega arith)
      ∙ sym (byte_of-cell fs d cl (p + k) j (o + (k - r)) (omega arith) (omega arith))

  index_of :
      (x j o : ℕ)
      → x ≡ j * get_cluster_size fs + o
      → o < get_cluster_size fs
      → cl j ≡ cl (x / get_cluster_size fs)
  index_of x j o e lt = ap cl (sym (place-div x j o (get_cluster_size fs) e lt))

  join :
      (r m r' c : ℕ)
      → r ≤ m
      → ((k : ℕ) → r ≤ k → k < m → d (base + k) ≡ byte_of fs d cl (p + k))
      → Ran fs d cl size p base m r' c
      → Ran fs d cl size p base r r' c
  join r m r' c le first k = record {
    bytes = λ i lo hi. elim (Bool-cases (ltb i m)) [
      | inl lt ↦ first i lo (ground arith)
      | inr ge ↦ k.bytes i (ground arith) hi
    ];
    fits = k.fits;
    behind = k.behind;
  }

  -- The next cluster, told after a whole one.
  next_index :
      (r j o c next : ℕ)
      → At r j o c
      → next_cluster disk c fs ≡ (LoomError.none, next)
      → p + (r + (get_cluster_size fs - o)) < size
      → next ≡ cl (suc j)
  next_index r j o c next a e lt =
      let place = a.place in
      let room = a.room in
      let more = a.more in
      next-links fs d size cl h disk j next reads (omega arith)
        (ap (λ x. next_cluster disk x fs) (sym a.cluster) ∙ e)

  read_run-done :
      (k r c off : ℕ) → n ≤ r → read_run (suc k) disk fs n r c off ≡ ok (LoomError.none, r, c)
  unfolding read_run
  read_run-done k r c off le = let stop : not (ltb r n) ≡ true = ground arith in rw stop refl

  -- A run from `r` on: what it returns, and what stands on the disk if it reports no error.
  unfoldable pub Ends : (r : ℕ) → Exec (LoomError × ℕ × ℕ) → Type 0
  Ends r run =
      (x : LoomError × ℕ × ℕ) × ((run ≡ ok x)
        × (x.0 ≡ LoomError.none → (r < x.1) × (x.1 ≤ n) × Ran fs d cl size p base r x.1 x.2))

  -- The rest of the request is inside the cluster.
  within-Ends :
      (k r j o c : ℕ)
      → At r j o c
      → n - r < get_cluster_size fs - o
      → Ends r (read_run (suc k) disk fs n (usize (r + (n - r))) c 0)
  unfolding Ends
  within-Ends k r j o c a lt =
      let more = a.more in
      let fits = h.fits in
      let place = a.place in
      let all : usize (r + (n - r)) ≡ n = omega arith in
      (
        (LoomError.none, n, c),
        (
          rw all (read_run-done k n c 0 (omega arith)),
          λ e. (
            more,
            omega arith,
            record {
              bytes = λ i lo hi. stretch r j o c (n - r) a (omega arith) i lo (omega arith);
              fits = let eq = a.cell_eq in let placed = h.placed j (omega arith) in omega arith;
              behind = λ beyond.
                  a.cluster ∙ index_of (p + n) j (o + (n - r)) (omega arith) (omega arith);
            },
          ),
        ),
      )

  -- A whole cluster, with the next one.
  whole-Ends :
      (k r j o c next : ℕ)
      → n - r < suc k
      → At r j o c
      → get_cluster_size fs - o ≤ n - r
      → next_cluster disk c fs ≡ (LoomError.none, next)
      → ((r' j' : ℕ)
          → n - r' < k
          → At r' j' 0 next
          → Ends r' (read_run (suc k) disk fs n r' next 0))
      → Ends r (
          advance
            (LoomError.none, next)
            c
            (usize (r + (get_cluster_size fs - o)))
            (λ next. read_run (suc k) disk fs n (usize (r + (get_cluster_size fs - o))) next 0))
  unfolding Ends advance
  whole-Ends k r j o c next fuel a le e again =
      let more = a.more in
      let fits = h.fits in
      let place = a.place in
      let room = a.room in
      let r1 : ℕ = r + (get_cluster_size fs - o) in
      let wrap : usize r1 ≡ r1 = omega arith in
      let step : p + r1 ≡ suc j * get_cluster_size fs + 0 = omega arith in
      let first : (i : ℕ) → r ≤ i → i < r1 → d (base + i) ≡ byte_of fs d cl (p + i) =
        λ i lo hi. stretch r j o c (get_cluster_size fs - o) a (omega arith) i lo hi in
      let there : p + r1 < size → next ≡ cl (suc j) = next_index r j o c next a e in
      let here : Ran fs d cl size p base r r1 next = record {
        bytes = first;
        fits = let eq = a.cell_eq in let placed = h.placed j (omega arith) in omega arith;
        behind = λ lt. there lt ∙ index_of (p + r1) (suc j) 0 step (omega arith);
      } in
      elim (Bool-cases (u32 (c + 1) == next)) [
        | inr apart ↦
            rw wrap rw apart
              ((LoomError.none, r1, next), (refl, λ g. (omega arith, omega arith, here)))
        | inl beside ↦ elim (Bool-cases (ltb r1 n)) [
          | inr done ↦ rw wrap rw beside (
            (LoomError.none, r1, next),
            (read_run-done k r1 next 0 (ground arith), λ g. (omega arith, omega arith, here)),
          )
          | inl go ↦
              let r1_lt : r1 < n = ground arith in
              let is_next : next ≡ cl (suc j) = there (omega arith) in
              let low = h.low j (omega arith) in
              let high = h.high j (omega arith) in
              let most = limit_fits fs.type in
              let same = a.cluster in
              let succ : cl (suc j) ≡ cl j + 1 = ground arith in
              let eq = a.cell_eq in
              let grow : (cl (suc j) - 2) * get_cluster_size fs
                  ≡ (cl j - 2) * get_cluster_size fs + get_cluster_size fs =
                ap (λ u. (u - 2) * get_cluster_size fs) succ
                ∙ one_more (cl j) (get_cluster_size fs) low in
              let at : At r1 (suc j) 0 next = record {
                place = step;
                room = omega arith;
                cluster = is_next;
                cell_eq = omega (arith, grow);
                more = r1_lt;
              } in
              let (x, (run, good)) = again r1 (suc j) (omega arith) at in
              rw wrap rw beside (
                x,
                (
                  run,
                  λ g.
                      let (q1, q2, q3) = good g in
                      (omega arith, q2, join r r1 x.1 x.2 (omega arith) first q3),
                ),
              )
        ]
      ]

  pub read_run-Ends :
      (k r j o c : ℕ) → n - r < suc k → At r j o c → Ends r (read_run (suc (suc k)) disk fs n r c o)
  unfolding Ends read_run
  read_run-Ends zero r j o c fuel a = let more = a.more in absurd (omega arith)
  read_run-Ends (suc k) r j o c fuel a =
      let more = a.more in
      let go : not (ltb r n) ≡ false = ground arith in
      elim (Bool-cases (leb (get_cluster_size fs - o) (n - r))) [
        | inr small ↦ rw go rw small (within-Ends (suc k) r j o c a (ground arith))
        | inl whole ↦ elim (LoomError-discrete (next_cluster disk c fs).0 LoomError.none) [
          | yes good ↦
              let eq : next_cluster disk c fs ≡ (LoomError.none, (next_cluster disk c fs).1) =
                λ i. (good i, (next_cluster disk c fs).1) in
              rw go rw whole (
                subst
                  (λ t. Ends r (
                    advance t c (usize (r + (get_cluster_size fs - o))) (λ next.
                      read_run (suc (suc k)) disk fs n (usize (r + (get_cluster_size fs - o))) next
                        0)))
                  (sym eq)
                  (whole-Ends (suc k) r j o c (next_cluster disk c fs).1 fuel a (ground arith) eq
                    (λ r' j' f a'. read_run-Ends k r' j' 0 (next_cluster disk c fs).1 f a')))
          | no bad ↦ rw go rw whole (
            (
              (next_cluster disk c fs).0,
              usize (r + (get_cluster_size fs - o)),
              (next_cluster disk c fs).1,
            ),
            (
              advance_error (next_cluster disk c fs).0 (next_cluster disk c fs).1 c
                  (usize (r + (get_cluster_size fs - o)))
                  (λ next.
                    read_run (suc (suc k)) disk fs n (usize (r + (get_cluster_size fs - o))) next 0)
                  bad,
              λ good. absurd (bad good),
            ),
          )
        ]
      ]

-- ===== src/Fat/File/Rounds.antt =====
-- The rounds of the loop of `fatRead`.
use loom_bootloader.Base.{
  ℕ, zero, suc, ◌+◌, ◌-◌, ◌/◌, ◌%◌, ◌^◌, ◌≤◌, ◌<◌, ◌≡◌, ◌≢◌, min, arith, refl, sym, ap, ◌∙◌, usize,
  Exec, ok, ◌==◌, ◌||◌, leb, true, false, Bool-cases, inl, inr,
}
use mathlib.Core.Path.{subst}
use native.Mathlib.Nat.{div-add-mod', mod-lt}
use loom_bootloader.Error.{LoomError}
use loom_bootloader.Memory.{Memory, null}
use loom_bootloader.BlockDev.{BlockDev}
use loom_bootloader.BlockDev.Driver.{Serves}
use loom_bootloader.BlockDev.Read.Stages.{Disjoint, Away}
use loom_bootloader.BlockDev.Read.Bytes.{IsRead, LoomError-discrete}
use loom_bootloader.BlockDev.Read.Confined.{Confined, block_dev_read-outside}
use loom_bootloader.Fat.{FatFs, get_cluster_limit, get_cluster_size, get_cluster_offset}
use loom_bootloader.Fat.Cluster.{Disk}
use loom_bootloader.Fat.Cluster.Entry.{Reads}
use loom_bootloader.Fat.File.{
  FatFile, read_run, Reading, after_read, after_run, read_loop, read_file,
}
use loom_bootloader.Fat.File.Chain.{cell, ChainOf, cluster_offset-cell}
use loom_bootloader.Fat.File.Run.{Ran, At, Ends, read_run-Ends}
use loom_bootloader.Fat.File.Outcome.{
  Delivered-more, DeliveredOf, IsPlaced, after_read_error, after_run_error, nothing_read,
}

module _ (fs : FatFs) (d : ℕ → ℕ) (size : ℕ) (cl : ℕ → ℕ)
    (h : ChainOf (get_cluster_size fs) (get_cluster_limit fs.type) fs d size cl) (disk : Disk)
    (reads : Reads disk d) (dev : BlockDev) (serves : Serves dev.readv d dev.block_size)
    (confined : Confined dev.readv d dev.block_size) (has_blocks : 0 < dev.block_size)
    (has_scratch : dev.scratch ≢ null) where
  -- The loop's rest behind a run that was read, on each outcome of the read.
  read_part :
      (f : FatFile) (nbytes buf nread read base c : ℕ) (m m1 : Memory) (e : LoomError)
      (rest : FatFile → ℕ → Memory → Exec Reading)
      → f.size ≡ size
      → 0 < read
      → read ≤ min (f.size - f.position) nbytes
      → Disjoint dev nbytes buf
      → nread + nbytes < 2 ^ 32
      → (e ≡ LoomError.none → IsRead d dev base read buf m m1)
      → ((a : ℕ) → Away dev read buf a → m1 a ≡ m a)
      → Ran fs d cl size f.position base 0 read c
      → IsPlaced (get_cluster_size fs) cl f
      → ((f1 : FatFile)
          → f1.size ≡ size
          → f1.position ≡ f.position + read
          → IsPlaced (get_cluster_size fs) cl f1
          → (y : Reading) × ((rest f1 (nread + read) m1 ≡ ok y)
              × DeliveredOf
                  (get_cluster_size fs)
                  fs
                  d
                  cl
                  dev
                  f1
                  (nbytes - read)
                  (buf + read)
                  (nread + read)
                  m1
                  y))
      → (y : Reading) × ((after_read (e, m1) f read c nread rest ≡ ok y)
          × DeliveredOf (get_cluster_size fs) fs d cl dev f nbytes buf nread m y)
  unfolding after_read
  read_part f nbytes buf nread read base c m m1 e rest same pos le apart counts got out ran placed
        again =
      elim (LoomError-discrete e LoomError.none) [
        | no bad ↦ (
          record { error = e; file = f; nread = nread; memory = m1 },
          (
            after_read_error e m1 f read c nread rest bad,
            nothing_read fs d cl dev f nbytes buf nread m m1 e placed (λ g. absurd (bad g))
                (λ a away. out a (ground arith)),
          ),
        )
        | yes good ↦
            let fits = h.fits in
            let moved : usize (f.position + read) ≡ f.position + read = omega arith in
            let counted : usize (nread + read) ≡ nread + read = omega arith in
            let f1 : FatFile = record f { position = f.position + read; pos = c } in
            let k = got good in
            let step : after_read (e, m1) f read c nread rest ≡ rest f1 (nread + read) m1 =
              rw good rw (moved, counted) refl in
            let (y, (run, done)) = again f1 same refl (λ lt. ran.behind (omega arith)) in
            (
              y,
              (
                step ∙ run,
                Delivered-more fs d cl dev f f1 nbytes buf nread read m m1 y apart refl refl le
                    (λ i lt. k.bytes i lt ∙ ran.bytes i (omega arith) lt) out done,
              ),
            )
      ]

  -- One round of the loop, from the end of the run on.
  round_read :
      (f : FatFile) (nbytes buf nread n : ℕ) (m : Memory) (e : LoomError) (read c : ℕ)
      (rest : ℕ → FatFile → ℕ → Memory → Exec Reading)
      → f.size ≡ size
      → f.position < f.size
      → n ≡ min (f.size - f.position) nbytes
      → buf ≢ null
      → Disjoint dev nbytes buf
      → nread + nbytes < 2 ^ 32
      → (e ≡ LoomError.none
          → (0 < read)
            × (read ≤ n)
            × Ran fs d cl size f.position
                (cell fs cl (f.position / get_cluster_size fs) (f.position % get_cluster_size fs))
                0
                read
                c)
      → IsPlaced (get_cluster_size fs) cl f
      → ((f1 : FatFile) (m1 : Memory)
          → 0 < read
          → read ≤ nbytes
          → f1.size ≡ size
          → f1.position ≡ f.position + read
          → IsPlaced (get_cluster_size fs) cl f1
          → (y : Reading) × ((rest read f1 (nread + read) m1 ≡ ok y)
              × DeliveredOf
                  (get_cluster_size fs)
                  fs
                  d
                  cl
                  dev
                  f1
                  (nbytes - read)
                  (buf + read)
                  (nread + read)
                  m1
                  y))
      → (y : Reading) × ((after_run (e, read, c) dev fs f n buf nread m rest ≡ ok y)
          × DeliveredOf (get_cluster_size fs) fs d cl dev f nbytes buf nread m y)
  unfolding after_run
  round_read f nbytes buf nread n m e read c rest same lt ne has_buf apart counts ran placed again =
      elim (LoomError-discrete e LoomError.none) [
        | no bad ↦ (
          record { error = e; file = f; nread = nread; memory = m },
          (
            after_run_error e read c dev fs f n buf nread m rest bad,
            nothing_read fs d cl dev f nbytes buf nread m m e placed (λ g. absurd (bad g))
                (λ a away. refl),
          ),
        )
        | yes good ↦
            let j : ℕ = f.position / get_cluster_size fs in
            let o : ℕ = f.position % get_cluster_size fs in
            let (pos, le, k) = ran good in
            let fits = k.fits in
            let whole = div-add-mod' f.position (get_cluster_size fs) in
            let first = cluster_offset-cell fs d size cl h j (omega arith) in
            let at : get_cluster_offset f.pos fs ≡ cell fs cl j 0 =
              ap (λ x. get_cluster_offset x fs) (placed lt) ∙ first in
            let offset : usize (get_cluster_offset f.pos fs + o) ≡ cell fs cl j o =
              rw at (omega arith) in
            let clamp : min read n ≡ read = omega arith in
            let ((e2, m1), (done, got, out)) =
              block_dev_read-outside d dev serves confined (cell fs cl j o) read buf (ground arith)
                has_scratch has_buf has_blocks fits m in
            let step : after_run (e, read, c) dev fs f n buf nread m rest
                ≡ after_read (e2, m1) f read c nread (rest read) =
              rw good rw clamp rw offset rw done refl in
            let (y, (run, delivered)) =
              read_part f nbytes buf nread read (cell fs cl j o) c m m1 e2 (rest read) same pos
                (omega arith) apart counts got out k placed (λ f1. again f1 m1 pos (omega arith)) in
            (y, (step ∙ run, delivered))
      ]

  -- The loop stops before a round only if nothing is left to read.
  stop_empty :
      (f : FatFile) (nbytes : ℕ)
      → f.size ≡ size
      → IsPlaced (get_cluster_size fs) cl f
      → (nbytes == 0 || (leb f.size f.position || leb (get_cluster_limit fs.type) f.pos)) ≡ true
      → min (f.size - f.position) nbytes ≡ 0
  stop_empty f nbytes same placed stop = elim (Bool-cases (leb f.size f.position)) [
    | inl past ↦ ground arith
    | inr inside ↦
        let lt : f.position < f.size = ground arith in
        let whole = div-add-mod' f.position (get_cluster_size fs) in
        let high = h.high (f.position / get_cluster_size fs) (omega arith) in
        let at = placed lt in ground arith
  ]

  -- A round of the loop up to the end of its run.
  read_loop-step :
      (l k : ℕ) (f : FatFile) (nbytes buf nread : ℕ) (m : Memory) (x : LoomError × ℕ × ℕ)
      → (nbytes == 0 || (leb f.size f.position || leb (get_cluster_limit fs.type) f.pos)) ≡ false
      → read_run k disk fs
          (min (f.size - f.position) nbytes)
          0
          f.pos
          (f.position % get_cluster_size fs)
        ≡ ok x
      → read_loop (suc l) k disk dev fs f nbytes buf nread m
        ≡ after_run x dev fs f (min (f.size - f.position) nbytes) buf nread m (λ read f1 nread1 m1.
          read_loop l k disk dev fs f1 (nbytes - read) (buf + read) nread1 m1)
  unfolding read_loop
  read_loop-step l k f nbytes buf nread m x go run = rw go rw run refl

  read_loop-Delivered :
      (l k : ℕ) (f : FatFile) (nbytes buf nread : ℕ) (m : Memory)
      → nbytes < l
      → nbytes < suc k
      → f.size ≡ size
      → IsPlaced (get_cluster_size fs) cl f
      → buf ≢ null
      → Disjoint dev nbytes buf
      → nread + nbytes < 2 ^ 32
      → (y : Reading) × ((read_loop l (suc (suc k)) disk dev fs f nbytes buf nread m ≡ ok y)
          × DeliveredOf (get_cluster_size fs) fs d cl dev f nbytes buf nread m y)
  unfolding read_loop Ends
  read_loop-Delivered zero k f nbytes buf nread m fuel run_fuel same placed has_buf apart counts =
      absurd (omega arith)
  read_loop-Delivered (suc l) k f nbytes buf nread m fuel run_fuel same placed has_buf apart
        counts =
      elim (Bool-cases
        (nbytes == 0 || (leb f.size f.position || leb (get_cluster_limit fs.type) f.pos))) [
          | inl stop ↦ (
            record { error = LoomError.none; file = f; nread = nread; memory = m },
            (
              rw stop refl,
              nothing_read fs d cl dev f nbytes buf nread m m LoomError.none placed
                  (λ g. stop_empty f nbytes same placed stop) (λ a away. refl),
            ),
          )
          | inr go ↦
              let lt : f.position < f.size = ground arith in
              let some : 0 < nbytes = ground arith in
              let n : ℕ = min (f.size - f.position) nbytes in
              let j : ℕ = f.position / get_cluster_size fs in
              let o : ℕ = f.position % get_cluster_size fs in
              let at : At fs d size cl h disk reads f.position n (cell fs cl j o) (omega arith) 0 j
                  o f.pos =
                record {
                  place = omega (arith, div-add-mod' f.position (get_cluster_size fs));
                  room = mod-lt f.position h.positive;
                  cluster = placed lt;
                  cell_eq = omega arith;
                  more = omega arith;
                } in
              let ((e, read, c), (run, good)) =
                read_run-Ends fs d size cl h disk reads f.position n (cell fs cl j o) (omega arith)
                  k 0 j o f.pos (omega arith) at in
              subst
                (λ t.
                  (y : Reading) × ((t ≡ ok y)
                    × DeliveredOf (get_cluster_size fs) fs d cl dev f nbytes buf nread m y))
                (sym (read_loop-step l (suc (suc k)) f nbytes buf nread m (e, read, c) go run))
                (round_read f nbytes buf nread n m e read c
                  (λ read f1 nread1 m1.
                    read_loop l (suc (suc k)) disk dev fs f1 (nbytes - read) (buf + read) nread1 m1)
                  same lt refl has_buf apart counts good placed
                  (λ f1 m1 pos le same1 moved placed1.
                    read_loop-Delivered l k f1 (nbytes - read) (buf + read) (nread + read) m1
                      (omega arith) (omega arith) same1 placed1 (λ z. has_buf (omega arith))
                      (ground arith) (omega arith)))
        ]

  pub read_file-lem :
      (f : FatFile) (nbytes buf nread : ℕ) (m : Memory)
      → f.size ≡ size
      → IsPlaced (get_cluster_size fs) cl f
      → buf ≢ null
      → Disjoint dev nbytes buf
      → nread + nbytes < 2 ^ 32
      → (y : Reading) × ((read_file disk dev fs f nbytes buf nread m ≡ ok y)
          × DeliveredOf (get_cluster_size fs) fs d cl dev f nbytes buf nread m y)
  unfolding read_file
  read_file-lem f nbytes buf nread m same placed has_buf apart counts =
      read_loop-Delivered (suc nbytes) nbytes f nbytes buf nread m (omega arith) (omega arith) same
        placed has_buf apart counts

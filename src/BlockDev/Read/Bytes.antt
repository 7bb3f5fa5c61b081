-- ===== src/BlockDev/Read/Bytes.antt =====
-- The bytes that `loomBlockDevRead` brings into the caller's buffer.
use loom_bootloader.Base.{
  ℕ, ◌+◌, ◌-◌, ◌%◌, ◌^◌, ◌≤◌, ◌<◌, ◌≡◌, ◌≢◌, List, [], ◌∷◌, ok, refl, arith, ◌==◌, ap, true, false,
  Bool, ◌||◌,
}
use native.Mathlib.Decide.{dec_lt}
use loom_bootloader.Error.{LoomError}
use loom_bootloader.Memory.{Memory, null}
use loom_bootloader.Memory.Copy.{copied}
use loom_bootloader.BlockDev.{
  IoReq, BlockDev, Plan, start, plan_first, plan_middle, issue, finish, block_dev_read,
}
use loom_bootloader.BlockDev.Driver.{fill, AllPositive, Serves}
use loom_bootloader.BlockDev.Read.Stages.{Disjoint, Away, plan_first-Planned}
use loom_bootloader.BlockDev.Read.Middle.{plan_middle-Planned}
use loom_bootloader.BlockDev.Read.Last.{copy_if-copied, Ready, plan_last-Ready}

pub or_true : (b : Bool) → (b || true) ≡ true
or_true true = refl
or_true false = refl

pub LoomError-discrete : Discrete LoomError
LoomError-discrete = hlevel

-- The store `m'` holds the bytes from `offset` on in the buffer, and is `m` outside the buffers.
pub record IsRead (disk : ℕ → ℕ) (dev : BlockDev) (offset size buf : ℕ) (m m' : Memory)
    : Type 0 where
  pub bytes : (i : ℕ) → i < size → m' (buf + i) ≡ disk (offset + i)
  pub outside : (a : ℕ) → Away dev size buf a → m' a ≡ m a

pub finish_error :
    (dev : BlockDev) (offset buf : ℕ) (p : Plan) (e : LoomError) (m : Memory)
    → e ≢ LoomError.none
    → finish dev offset buf p (e, m) ≡ ok (e, m)
unfolding finish
finish_error dev offset buf p LoomError.none m h = absurd (h refl)
finish_error dev offset buf p _ m h = refl

-- The two copies bring every byte of the scratch buffer to its place.
module _ (disk : ℕ → ℕ) (dev : BlockDev) (offset size buf : ℕ) (apart : Disjoint dev size buf)
    (p : Plan) (v : Ready disk dev offset size buf p) (m m1 m2 m3 : Memory)
    (filled : (a : ℕ) → m1 a ≡ fill disk dev.block_size p.reqs m a)
    (first : (a : ℕ) → m2 a ≡ copied buf (dev.scratch + offset % dev.block_size) p.copy_first m1 a)
    (second : (a : ℕ) → m3 a ≡ copied p.mbuf (dev.scratch + dev.block_size) p.copy_last m2 a) where
  byte_first : (i : ℕ) → i < p.copy_first → m3 (buf + i) ≡ disk (offset + i)
  byte_first i h =
      let from = dev.scratch + offset % dev.block_size in
      let same : m1 (from + (buf + i - buf)) ≡ m1 (from + i) = ap m1 (omega arith) in
      ground
        (arith, first (buf + i), second (buf + i), filled (from + i), v.through m i, v.first_in)

  byte_direct : (i : ℕ) → p.copy_first ≤ i → buf + i < p.mbuf → m3 (buf + i) ≡ disk (offset + i)
  byte_direct i h k =
      let same : disk (offset + (buf + i - buf)) ≡ disk (offset + i) = ap disk (omega arith) in
      ground (arith, first (buf + i), second (buf + i), filled (buf + i), v.direct m (buf + i))

  byte_last : (i : ℕ) → p.mbuf ≤ buf + i → i < size → m3 (buf + i) ≡ disk (offset + i)
  byte_last i h k =
      let j : ℕ = buf + i - p.mbuf in
      let from : ℕ = dev.scratch + dev.block_size + j in
      let same : disk (offset + (p.mbuf - buf) + j) ≡ disk (offset + i) =
        ap disk (omega (arith, v.first_in)) in
      ground (
        arith,
        second (buf + i),
        first from,
        filled from,
        v.at_end m j,
        v.parts,
        v.first_in,
        v.first_block,
        v.last_block,
      )

  landed-IsRead : IsRead disk dev offset size buf m m3
  landed-IsRead = record {
    bytes = λ i h. elim (dec_lt i p.copy_first) [
      | yes k ↦ byte_first i k
      | no k ↦ elim (dec_lt (buf + i) p.mbuf) [
        | yes l ↦ byte_direct i (omega arith) l
        | no l ↦ byte_last i (omega arith) h
      ]
    ];
    outside =
        λ a i. ground (arith, second a, first a, filled a, v.outside m a i, v.parts, v.first_in);
  }

module _ (disk : ℕ → ℕ) (dev : BlockDev) (serves : Serves dev.readv disk dev.block_size) where
  pub issue-fill :
      (reqs : List IoReq) (m : Memory)
      → AllPositive reqs
      → (r : LoomError × Memory) × (issue dev reqs m ≡ ok r)
        × (r.0 ≡ LoomError.none → (a : ℕ) → r.1 a ≡ fill disk dev.block_size reqs m a)
  unfolding issue
  issue-fill [] m h = ((LoomError.none, m), refl, λ e a. refl)
  issue-fill (q ∷ rs) m h = serves.returns (q ∷ rs) m h

  module _ (offset size buf : ℕ) (apart : Disjoint dev size buf) (has_scratch : dev.scratch ≢ null)
      (has_buf : buf ≢ null) where
    pub finish-IsRead :
        (p : Plan) (m m1 : Memory)
        → Ready disk dev offset size buf p
        → ((a : ℕ) → m1 a ≡ fill disk dev.block_size p.reqs m a)
        → (m' : Memory) × (finish dev offset buf p (LoomError.none, m1) ≡ ok (LoomError.none, m'))
          × IsRead disk dev offset size buf m m'
    unfolding finish
    finish-IsRead p m m1 v filled =
        let bs : ℕ = dev.block_size in
        let bo : ℕ = offset % bs in
        let (m2, e2, c2) =
          copy_if-copied buf (dev.scratch + bo) p.copy_first m1 has_buf
            (λ e. has_scratch (omega arith)) (ground (arith, v.first_block, v.parts, v.first_in)) in
        let (m3, e3, c3) =
          copy_if-copied p.mbuf (dev.scratch + bs) p.copy_last m2
            (λ e. has_buf (omega (arith, v.first_in))) (λ e. has_scratch (omega arith))
            (ground (arith, v.last_block, v.parts, v.first_in)) in
        (m3, rw (e2, e3), landed-IsRead disk dev offset size buf apart p v m m1 m2 m3 filled c2 c3)

    finish-returns :
        (p : Plan) (m m1 : Memory) (err : LoomError)
        → Ready disk dev offset size buf p
        → (err ≡ LoomError.none → (a : ℕ) → m1 a ≡ fill disk dev.block_size p.reqs m a)
        → (r : LoomError × Memory) × (finish dev offset buf p (err, m1) ≡ ok r)
          × (r.0 ≡ LoomError.none → IsRead disk dev offset size buf m r.1)
    finish-returns p m m1 err v filled = elim (LoomError-discrete err LoomError.none) [
      | yes good ↦
          let (m', done, read) = finish-IsRead p m m1 v (filled good) in
          ((LoomError.none, m'), rw good done, λ i. read)
      | no bad ↦ ((err, m1), finish_error dev offset buf p err m1 bad, λ good. absurd (bad good))
    ]

    -- `loomBlockDevRead` always returns, without a failed assertion; if it reports no error, the
    -- caller's buffer holds the `size` bytes of the device from `offset` on, and nothing but that
    -- buffer and the scratch buffer has changed. The driver serves `disk`, the buffers exist and
    -- do not overlap, and `offset + size` fits a `usize`.
    pub block_dev_read-IsRead :
        0 < dev.block_size
        → offset + size < 2 ^ 32
        → (m : Memory)
        → (r : LoomError × Memory) × (block_dev_read dev offset size buf m ≡ ok r)
          × (r.0 ≡ LoomError.none → IsRead disk dev offset size buf m r.1)
    unfolding block_dev_read
    block_dev_read-IsRead pos fits m =
        let b1 : (dev.scratch == null) ≡ false = ground arith in
        let b2 : (dev.block_size == 0) ≡ false = ground arith in
        let b3 : (buf == null) ≡ false = ground arith in
        let (n1, v1) = plan_first-Planned disk dev offset size buf pos fits apart in
        let (n2, v2, small) =
          plan_middle-Planned disk dev offset size buf pos fits apart n1
            (plan_first dev offset (start dev offset size buf)) v1 in
        let (p, e, v) =
          plan_last-Ready disk dev offset size buf pos fits apart n2
            (plan_middle dev (plan_first dev offset (start dev offset size buf))) v2 small in
        let ((err, m1), issued, filled) = issue-fill p.reqs m v.positive in
        let (r, done, read) = finish-returns p m m1 err v filled in
        (r, rw (b1, b2, b3, or_true, e, issued) done, read)

-- ===== src/BlockDev/Read/Confined.antt =====
-- A read writes to the caller's buffer and the scratch buffer alone, also when it fails.
use loom_bootloader.Base.{
  ℕ, ◌+◌, ◌^◌, ◌<◌, ◌≡◌, ◌≢◌, List, [], ◌∷◌, ok, arith, ◌==◌, false, ap, sym, ok_injective,
}
use loom_bootloader.Error.{LoomError}
use loom_bootloader.Memory.{Memory, null}
use loom_bootloader.BlockDev.{
  IoReq, BlockDev, Plan, Readv, start, plan_first, plan_middle, issue, finish, block_dev_read,
}
use loom_bootloader.BlockDev.Driver.{fill, Serves}
use loom_bootloader.BlockDev.Read.Stages.{Disjoint, Away, plan_first-Planned}
use loom_bootloader.BlockDev.Read.Middle.{plan_middle-Planned}
use loom_bootloader.BlockDev.Read.Last.{Ready, plan_last-Ready}
use loom_bootloader.BlockDev.Read.Bytes.{
  IsRead, or_true, LoomError-discrete, finish_error, finish-IsRead, issue-fill,
}

-- A driver writes to the buffers of its requests alone: a byte that no filling of them changes
-- stays as it is.
pub record Confined (readv : Readv) (disk : ℕ → ℕ) (block_size : ℕ) : Type 0 where
  pub outside :
      (reqs : List IoReq) (m : Memory) (r : LoomError × Memory)
      → readv reqs m ≡ ok r
      → (a : ℕ) → ((m' : Memory) → fill disk block_size reqs m' a ≡ m' a)
      → r.1 a ≡ m a

module _ (disk : ℕ → ℕ) (dev : BlockDev) (serves : Serves dev.readv disk dev.block_size)
    (confined : Confined dev.readv disk dev.block_size) where
  issue-outside :
      (reqs : List IoReq) (m : Memory) (r : LoomError × Memory)
      → issue dev reqs m ≡ ok r
      → (a : ℕ) → ((m' : Memory) → fill disk dev.block_size reqs m' a ≡ m' a)
      → r.1 a ≡ m a
  unfolding issue
  issue-outside [] m r e a f = ap (λ q. q.1 a) (sym (ok_injective e))
  issue-outside (q ∷ rs) m r e a f = confined.outside (q ∷ rs) m r e a f

  module _ (offset size buf : ℕ) (apart : Disjoint dev size buf) (has_scratch : dev.scratch ≢ null)
      (has_buf : buf ≢ null) where
    finish-outside :
        (p : Plan) (m m1 : Memory) (err : LoomError)
        → Ready disk dev offset size buf p
        → (err ≡ LoomError.none → (a : ℕ) → m1 a ≡ fill disk dev.block_size p.reqs m a)
        → ((a : ℕ) → Away dev size buf a → m1 a ≡ m a)
        → (r : LoomError × Memory) × ((finish dev offset buf p (err, m1) ≡ ok r)
            × (r.0 ≡ LoomError.none → IsRead disk dev offset size buf m r.1)
            × ((a : ℕ) → Away dev size buf a → r.1 a ≡ m a))
    finish-outside p m m1 err v filled out = elim (LoomError-discrete err LoomError.none) [
      | yes good ↦
          let (m', done, read) =
            finish-IsRead disk dev serves offset size buf apart has_scratch has_buf p m m1 v
              (filled good) in
          ((LoomError.none, m'), (rw good done, λ i. read, read.outside))
      | no bad ↦
          ((err, m1), (finish_error dev offset buf p err m1 bad, λ good. absurd (bad good), out))
    ]

    -- A read as `block_dev_read-IsRead` describes it, which writes nowhere else on any outcome.
    pub block_dev_read-outside :
        0 < dev.block_size
        → offset + size < 2 ^ 32
        → (m : Memory)
        → (r : LoomError × Memory) × ((block_dev_read dev offset size buf m ≡ ok r)
            × (r.0 ≡ LoomError.none → IsRead disk dev offset size buf m r.1)
            × ((a : ℕ) → Away dev size buf a → r.1 a ≡ m a))
    unfolding block_dev_read
    block_dev_read-outside pos fits m =
        let b1 : (dev.scratch == null) ≡ false = ground arith in
        let b2 : (dev.block_size == 0) ≡ false = ground arith in
        let b3 : (buf == null) ≡ false = ground arith in
        let (n1, v1) = plan_first-Planned disk dev offset size buf pos fits apart in
        let (n2, v2, small) =
          plan_middle-Planned disk dev offset size buf pos fits apart n1
            (plan_first dev offset (start dev offset size buf)) v1 in
        let (p, e, v) =
          plan_last-Ready disk dev offset size buf pos fits apart n2
            (plan_middle dev (plan_first dev offset (start dev offset size buf))) v2 small in
        let ((err, m1), issued, filled) = issue-fill disk dev serves p.reqs m v.positive in
        let away : (a : ℕ) → Away dev size buf a → m1 a ≡ m a =
          λ a w. issue-outside p.reqs m (err, m1) issued a (λ m'. v.outside m' a w) in
        let (r, (done, read, out)) = finish-outside p m m1 err v filled away in
        (r, (rw (b1, b2, b3, or_true, e, issued) done, read, out))

-- ===== src/BlockDev/Driver.antt =====
-- What a driver documents of its `readv`: it returns, and on success every request's blocks stand
-- in its buffer.
use loom_bootloader.Base.{
  ℕ, ◌+◌, ◌-◌, ◌*◌, ◌<◌, ◌≡◌, List, [], ◌∷◌, ◌++◌, ◌&&◌, leb, ltb, if◌then◌else◌, ok, refl, arith,
  ap, ◌⊎◌, ◌≤◌,
}
use loom_bootloader.Error.{LoomError}
use loom_bootloader.Memory.{Memory}
use loom_bootloader.BlockDev.{IoReq, Readv}

-- `disk` is the byte at each offset of the device.
abbrev pub fill_one : (disk : ℕ → ℕ) (block_size : ℕ) → IoReq → Memory → Memory
fill_one disk bs r m a =
    if leb r.buf a && ltb a (r.buf + r.count * bs) then disk (r.block * bs + (a - r.buf)) else m a

abbrev pub fill : (disk : ℕ → ℕ) (block_size : ℕ) → List IoReq → Memory → Memory
fill disk bs [] m = m
fill disk bs (r ∷ rs) m = fill disk bs rs (fill_one disk bs r m)

pub fill-snoc :
    (disk : ℕ → ℕ) (bs : ℕ) (rs : List IoReq) (r : IoReq) (m : Memory) (a : ℕ)
    → fill disk bs (rs ++ r ∷ []) m a ≡ fill_one disk bs r (fill disk bs rs m) a
fill-snoc disk bs [] r m a = refl
fill-snoc disk bs (q ∷ rs) r m a = fill-snoc disk bs rs r (fill_one disk bs q m) a

-- Each request is for a block at least.
abbrev pub AllPositive : List IoReq → Type 0
AllPositive [] = Unit {0}
AllPositive (r ∷ rs) = (0 < r.count) × AllPositive rs

pub AllPositive-snoc :
    (rs : List IoReq) (r : IoReq) → AllPositive rs → 0 < r.count → AllPositive (rs ++ r ∷ [])
AllPositive-snoc [] r h k = (k, tt)
AllPositive-snoc (q ∷ rs) r h k = (h.0, AllPositive-snoc rs r h.1 k)

-- A call that reports no error has filled the buffers and written nowhere else.
pub record Serves (readv : Readv) (disk : ℕ → ℕ) (block_size : ℕ) : Type 0 where
  pub returns :
      (reqs : List IoReq) (m : Memory)
      → AllPositive reqs
      → (r : LoomError × Memory) × (readv reqs m ≡ ok r)
        × (r.0 ≡ LoomError.none → (a : ℕ) → r.1 a ≡ fill disk block_size reqs m a)

module _ (disk : ℕ → ℕ) (bs : ℕ) (r : IoReq) (m : Memory) where
  pub fill_one_inside :
      (a k : ℕ)
      → a ≡ r.buf + k
      → k < r.count * bs
      → fill_one disk bs r m a ≡ disk (r.block * bs + k)
  fill_one_inside a k e h =
      let same : disk (r.block * bs + (a - r.buf)) ≡ disk (r.block * bs + k) =
        ap disk (omega arith) in
      ground arith

  pub fill_one_outside :
      (a : ℕ) → (a < r.buf) ⊎ (r.buf + r.count * bs ≤ a) → fill_one disk bs r m a ≡ m a
  fill_one_outside a h = ground arith

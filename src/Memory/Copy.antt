-- ===== src/Memory/Copy.antt =====
-- What the copies and the fill leave at every address.
use loom_bootloader.Base.{
  ℕ, zero, suc, ◌+◌, ◌-◌, ◌≤◌, ◌<◌, ◌≡◌, ◌≢◌, ◌⊎◌, inl, inr, ◌&&◌, arith, ok, leb, ltb,
  if◌then◌else◌, u8, ap,
}
use native.Mathlib.Decide.{dec_lt}
use loom_bootloader.Memory.{
  Memory, null, store, copy_forward, copy_backward, mem_copy, mem_move, set_loop, mem_set,
}

-- `n` bytes from `s` on, as they were, stand from `d` on; every other byte is as it was.
abbrev pub copied : (d s n : ℕ) → Memory → Memory
copied d s n m a = if leb d a && ltb a (d + n) then m (s + (a - d)) else m a

ahead : (d s n : ℕ) → (d ≤ s) ⊎ (s + suc n ≤ d) → (d + 1 ≤ s + 1) ⊎ (s + 1 + n ≤ d + 1)
ahead d s n (inl h) = inl (omega arith)
ahead d s n (inr h) = inr (omega arith)

-- The source of a byte behind the first, told from either end of the step.
same_source : (d s n : ℕ) (m : Memory) (a : ℕ) → d < a → m (s + 1 + (a - (d + 1))) ≡ m (s + (a - d))
same_source d s n m a h = ap m (omega arith)

same_index : (d s n : ℕ) (m : Memory) (a : ℕ) → a ≡ d + n → m (s + n) ≡ m (s + (a - d))
same_index d s n m a h = ap m (omega arith)

pub copy_forward-copied :
    (d s n : ℕ) (m : Memory) (a : ℕ)
    → (d ≤ s) ⊎ (s + n ≤ d)
    → copy_forward d s n m a ≡ copied d s n m a
unfolding copy_forward
copy_forward-copied d s zero m a h = ground arith
copy_forward-copied d s (suc n) m a h = ground (
  arith,
  copy_forward-copied (d + 1) (s + 1) n (store d (m s) m) a (ahead d s n h),
  same_source d s n m a,
)

copy_backward-copied :
    (d s n : ℕ) (m : Memory) (a : ℕ) → s ≤ d → copy_backward d s n m a ≡ copied d s n m a
unfolding copy_backward
copy_backward-copied d s zero m a h = ground arith
copy_backward-copied d s (suc n) m a h =
    ground
      (arith, copy_backward-copied d s n (store (d + n) (m (s + n)) m) a h, same_index d s n m a)

set_loop-filled :
    (d v n : ℕ) (m : Memory) (a : ℕ)
    → set_loop d v n m a ≡ (if leb d a && ltb a (d + n) then v else m a)
unfolding set_loop
set_loop-filled d v zero m a = ground arith
set_loop-filled d v (suc n) m a = ground (arith, set_loop-filled (d + 1) v n (store d v m) a)

-- `loomMemCopy` copies between non-null objects where the destination does not begin inside the
-- source, and changes no other byte.
pub mem_copy-copied :
    (d s n : ℕ) (m : Memory)
    → d ≢ null
    → s ≢ null
    → (d ≤ s) ⊎ (s + n ≤ d)
    → (m' : Memory) × (mem_copy d s n m ≡ ok m') × ((a : ℕ) → m' a ≡ copied d s n m a)
unfolding mem_copy
mem_copy-copied d s n m hd hs h =
    (copy_forward d s n m, ground arith, λ a. copy_forward-copied d s n m a h)

-- `loomMemMove` copies `n` bytes between non-null objects however they overlap, and changes no
-- byte outside the destination.
pub mem_move-copied :
    (d s n : ℕ) (m : Memory)
    → d ≢ null
    → s ≢ null
    → (m' : Memory) × (mem_move d s n m ≡ ok m') × ((a : ℕ) → m' a ≡ copied d s n m a)
unfolding mem_move
mem_move-copied d s n m hd hs = elim (dec_lt s d) [
  | yes h ↦ (copy_backward d s n m, ground arith, λ a. copy_backward-copied d s n m a (omega arith))
  | no h ↦
      (copy_forward d s n m, ground arith, λ a. copy_forward-copied d s n m a (inl (omega arith)))
]

-- `loomMemSet` stores the value, cut to a byte, into `n` bytes and changes no other.
pub mem_set-filled :
    (d v n : ℕ) (m : Memory)
    → d ≢ null
    → (m' : Memory) × (mem_set d v n m ≡ ok m')
      × ((a : ℕ) → m' a ≡ (if leb d a && ltb a (d + n) then u8 v else m a))
unfolding mem_set
mem_set-filled d v n m hd = (set_loop d (u8 v) n m, ground arith, set_loop-filled d (u8 v) n m)

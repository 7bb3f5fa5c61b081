-- ===== src/Memory.antt =====
-- src/core/string.c, the byte routines. The store maps each address to its byte; the addresses of
-- an object do not wrap.
pub mod Copy
pub mod Compare
mod Samples
use loom_bootloader.Base.{
  ℕ, zero, suc, ◌+◌, Bool, ◌||◌, Exec, ok, panic, ◌==◌, ltb, if◌then◌else◌, u8,
}
use loom_bootloader.Base.Int.{ℤ, pos, sub_ℕ}

abbrev pub Memory : Type 0
Memory = ℕ → ℕ

abbrev pub null : ℕ
null = 0

-- `*p = v`
abbrev pub store : ℕ → ℕ → Memory → Memory
store p v m a = if a == p then v else m a

-- `*d++ = *s++`, `n` times
pub copy_forward : (d s n : ℕ) → Memory → Memory
copy_forward d s zero m = m
copy_forward d s (suc n) m = copy_forward (d + 1) (s + 1) n (store d (m s) m)

-- `while (count--) d[count] = s[count];`
pub copy_backward : (d s n : ℕ) → Memory → Memory
copy_backward d s zero m = m
copy_backward d s (suc n) m = copy_backward d s n (store (d + n) (m (s + n)) m)

unfoldable pub mem_copy : (dst src count : ℕ) → Memory → Exec Memory
mem_copy d s n m = if d == null || s == null then panic else ok (copy_forward d s n m)

pub mem_move : (dst src count : ℕ) → Memory → Exec Memory
mem_move d s n m =
    if d == null || s == null
    then panic
    else if ltb s d
    then ok (copy_backward d s n m)
    else ok (copy_forward d s n m)

-- The loop stops at the first difference and returns it.
pub compare_loop : (l r n : ℕ) → Memory → ℤ
compare_loop l r zero m = pos 0
compare_loop l r (suc n) m =
    if m l == m r then compare_loop (l + 1) (r + 1) n m else sub_ℕ (m l) (m r)

pub mem_cmp : (lhs rhs count : ℕ) → Memory → Exec ℤ
mem_cmp l r n m = if l == null || r == null then panic else ok (compare_loop l r n m)

pub set_loop : (d v n : ℕ) → Memory → Memory
set_loop d v zero m = m
set_loop d v (suc n) m = set_loop (d + 1) v n (store d v m)

-- `v` is converted to an `unsigned char`.
pub mem_set : (dst v n : ℕ) → Memory → Exec Memory
mem_set d v n m = if d == null then panic else ok (set_loop d (u8 v) n m)

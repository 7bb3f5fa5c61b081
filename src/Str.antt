-- ===== src/Str.antt =====
-- src/core/string.c: strings that a zero byte ends, on the store of `Memory`. The addresses of a
-- string do not wrap. A loop that runs out of fuel has not ended.
pub mod Strings
mod Samples
use loom_bootloader.Base.{
  ℕ, zero, suc, ◌+◌, Bool, ◌||◌, ◌&&◌, Exec, ok, panic, hang, ◌>>=◌, ◌==◌, leb, if◌then◌else◌,
}
use loom_bootloader.Base.Int.{ℤ, pos, sub_ℕ}
use loom_bootloader.Memory.{Memory, null, store}

-- `for (; s[len]; ++len);`
pub length_loop : (fuel s len : ℕ) → Memory → Exec ℕ
length_loop zero s len m = hang
length_loop (suc n) s len m =
    let rest = length_loop n s (len + 1) m in if m (s + len) == 0 then ok len else rest

pub str_length : (fuel s : ℕ) → Memory → Exec ℕ
str_length fuel s m = if s == null then panic else length_loop fuel s 0 m

-- From the label `read` on.
pub cmp_loop : (fuel s1 s2 : ℕ) → Memory → Exec ℤ
cmp_loop zero s1 s2 m = hang
cmp_loop (suc n) s1 s2 m =
    let rest = cmp_loop n (s1 + 1) (s2 + 1) m in
    if m s1 == m s2 then (if m s1 == 0 then ok (pos 0) else rest) else ok (sub_ℕ (m s1) (m s2))

pub str_cmp : (fuel s1 s2 : ℕ) → Memory → Exec ℤ
str_cmp fuel s1 s2 m = if s1 == null || s2 == null then panic else cmp_loop fuel s1 s2 m

abbrev pub lower_char : ℕ → ℕ
lower_char c = if leb 65 c && leb c 90 then c + 0x20 else c

-- `while (s[0])`
pub lower_loop : (fuel s : ℕ) → Memory → Exec Memory
lower_loop zero s m = hang
lower_loop (suc n) s m =
    let rest = lower_loop n (s + 1) (store s (lower_char (m s)) m) in
    if m s == 0 then ok m else rest

pub str_lower : (fuel s : ℕ) → Memory → Exec Memory
str_lower fuel s m = if s == null then panic else lower_loop fuel s m

-- ===== src/Arith.antt =====
-- src/core/arith.c: the 64-bit division routines that the i686 compiler calls.
-- A round of the loop is given the round's shift, 63 down to 0, and what `n >> i` is there.
pub mod Division
mod Samples
use loom_bootloader.Base.{
  ℕ, zero, suc, ◌-◌, ◌*◌, ◌/◌, ◌^◌, bit_and, bit_or, leb, if◌then◌else◌, u64,
}

pub record Partial : Type 0 where
  pub r : ℕ
  pub q : ℕ

abbrev pub start : Partial
start = record { r = 0; q = 0 }

-- One round: shift a bit of `n` into `r`, and subtract `d` where it fits.
pub round : (shifted d i : ℕ) → Partial → Partial
round shifted d i s =
    let r = bit_or (u64 (s.r * 2)) (bit_and shifted 1) in
    if leb d r then record { r = r - d; q = bit_or s.q (2 ^ i) } else record { r = r; q = s.q }

pub rounds : (shift : ℕ → ℕ) (d : ℕ) → ℕ → Partial → Partial
rounds shift d zero s = s
rounds shift d (suc i) s = rounds shift d i (round (shift i) d i s)

-- `__udivmoddi4` returns the quotient and stores the remainder through `rem`.
pub udivmoddi4 : (n d : ℕ) → record { quotient : ℕ; rem : ℕ }
udivmoddi4 n d = let s = rounds (λ i. n / 2 ^ i) d 64 start in record { quotient = s.q; rem = s.r }

-- The other two take a 32-bit `n`. C leaves `n >> i` undefined from `i` = 32 on, so what the
-- compiled shift gives is the parameter `shr32`.
pub udivdi3 : (shr32 : ℕ → ℕ → ℕ) (n d : ℕ) → ℕ
udivdi3 shr32 n d = (rounds (shr32 n) d 64 start).q

pub umoddi3 : (shr32 : ℕ → ℕ → ℕ) (n d : ℕ) → ℕ
umoddi3 shr32 n d = (rounds (shr32 n) d 64 start).r

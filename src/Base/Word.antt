-- ===== src/Base/Word.antt =====
-- Machine words: the widths of the i686 target, the checked operations of math.h, flag tests.
use Prim.Native.Nat.{ℕ, ◌+◌, ◌-◌, ◌*◌, ◌%◌, ◌^◌, bit_and}
use mathlib.Core.Bool.{Bool, not}
use mathlib.Core.Option.{Option, none, some}
use loom_bootloader.Base.Tests.{ltb, leb, ◌==◌, if◌then◌else◌}

abbrev pub u8 : ℕ → ℕ
u8 n = n % 2 ^ 8

abbrev pub u16 : ℕ → ℕ
u16 n = n % 2 ^ 16

abbrev pub u32 : ℕ → ℕ
u32 n = n % 2 ^ 32

abbrev pub u64 : ℕ → ℕ
u64 n = n % 2 ^ 64

-- `usize` and `address` are 32 bits wide on the i686 target.
abbrev pub usize : ℕ → ℕ
usize n = n % 2 ^ 32

abbrev pub usize_max : ℕ
usize_max = 2 ^ 32 - 1

-- `loomAdd`, `loomSub`, `loomMul` into a 32-bit result: `none` where they report an overflow.
abbrev pub checked_add : ℕ → ℕ → Option ℕ
checked_add a b = if ltb (a + b) (2 ^ 32) then some (a + b) else none

abbrev pub checked_sub : ℕ → ℕ → Option ℕ
checked_sub a b = if leb b a then some (a - b) else none

abbrev pub checked_mul : ℕ → ℕ → Option ℕ
checked_mul a b = if ltb (a * b) (2 ^ 32) then some (a * b) else none

-- `x & mask`, as a truth value.
abbrev pub has_flag : ℕ → ℕ → Bool
has_flag x mask = not (bit_and x mask == 0)

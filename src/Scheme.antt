-- ===== src/Scheme.antt =====
-- src/mods/mbr.c and src/mods/gpt.c: the partitions that a disk's tables name are made devices and
-- given to a hook. `loomPartitionInit` and the hook are arguments, which change a state `S`; an
-- error that `loomError` sets is kept with the result. `Offers` tells a table's partitions apart.
pub mod Offers
pub mod Mbr
pub mod Gpt
mod Samples
use loom_bootloader.Base.{ℕ, zero, suc, ◌+◌, ◌*◌}
use loom_bootloader.Base.Int.{ℤ, pos}
use loom_bootloader.Error.{LoomError}

-- The return value, the error set, if any, and the state.
pub record End {ℓ} (S : Type ℓ) : Type ℓ where
  pub ret : ℤ
  pub error : LoomError
  pub state : S

abbrev pub Init {ℓ} : Type ℓ → Type ℓ
Init S = (offset blocks : ℕ) → S → LoomError × S

abbrev pub Hook {ℓ} : Type ℓ → Type ℓ
Hook S = (offset blocks : ℕ) → S → ℤ × S

-- `loomEndianLoad` of `n` bytes, the lowest first.
pub load_le : (n p : ℕ) → (ℕ → ℕ) → ℕ
load_le zero p b = 0
load_le (suc n) p b = let rest = load_le n (p + 1) b in b p + 256 * rest

-- The end with a return value and an error.
abbrev pub stop_with {ℓ} : {S : Type ℓ} → ℤ → LoomError → S → End S
stop_with r e s = record { ret = r; error = e; state = s }

-- The hook's value: 0 lets the loop go on.
abbrev pub hooked {ℓ} : {S : Type ℓ} → ℤ × S → (S → End S) → End S
hooked (pos zero, s) rest = rest s
hooked (r, s) rest = stop_with r LoomError.hook s

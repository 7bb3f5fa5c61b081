-- ===== src/Partition.antt =====
-- src/core/partition.c: a partition is a block device that moves each request into its parent.
pub mod Range
pub mod Shift
mod Samples
use loom_bootloader.Base.{
  ℕ, ◌+◌, ◌-◌, List, [], ◌∷◌, Option, none, some, Exec, ok, hang, ◌>>=◌, ◌==◌, leb, if◌then◌else◌,
  checked_add, u64,
}
use loom_bootloader.Error.{LoomError}
use loom_bootloader.Memory.{Memory}
use loom_bootloader.BlockDev.{IoReq, Readv, BlockDev}

-- `loom_partition`: `base.parent`, `base.blocks` and `offset`, in blocks of the parent.
pub record Partition : Type 0 where
  pub parent : BlockDev
  pub blocks : ℕ
  pub offset : ℕ

-- Where the loop over the requests ends: with the moved requests, or at an error.
pub data Translated : Type 0 where
  forward : List IoReq → Translated
  fail : LoomError → Translated

-- The tests on one request: its last block fits a `usize`, and lies in the partition and in the
-- parent. `none` is a request that passes.
pub check_range : Partition → IoReq → Option LoomError
check_range part r = elim (checked_add r.block (r.count - 1)) [
  | none ↦ some LoomError.overflow
  | some end ↦
      if leb part.blocks end then some LoomError.range else elim (checked_add end part.offset) [
        | none ↦ some LoomError.overflow
        | some end' ↦ if leb part.parent.blocks end' then some LoomError.range else none
      ]
]

pub cons_request : IoReq → Translated → Translated
cons_request r (forward rs) = forward (r ∷ rs)
cons_request r (fail e) = fail e

-- `continue` on an empty request does not advance, so the loop never ends. The requests are values:
-- those before an erroneous one, which the source has changed in place by then, are given up.
pub translate : Partition → List IoReq → Exec Translated
translate part [] = ok (forward [])
translate part (r ∷ rs) =
    let rest = translate part rs in
    if r.count == 0 then hang else elim (check_range part r) [
      | some e ↦ ok (fail e)
      | none ↦ do t ← rest; ok (cons_request (record r { block = u64 (r.block + part.offset) }) t)
    ]

pub submit : Partition → Memory → Translated → Exec (LoomError × Memory)
submit part m (forward rs) = part.parent.readv rs m
submit part m (fail e) = ok (e, m)

pub partition_readv : Partition → Readv
partition_readv part [] m = ok (LoomError.none, m)
partition_readv part (r ∷ rs) m = do t ← translate part (r ∷ rs); submit part m t

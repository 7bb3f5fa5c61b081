-- ===== src/Partition/Samples.antt =====
-- A partition of two blocks, from block 3 on, of a device of eight blocks of four bytes.
use loom_bootloader.Base.{ℕ, ◌+◌, ◌≡◌, ok, hang, [], ◌∷◌, refl, arith}
use loom_bootloader.Error.{LoomError}
use loom_bootloader.BlockDev.{Readv, request}
use loom_bootloader.BlockDev.Driver.{fill, Serves}
use loom_bootloader.Partition.{
  Partition, translate, partition_readv, check_range, cons_request, submit,
}
use loom_bootloader.Partition.Range.{AllWithin, translate-AllWithin}
use loom_bootloader.Partition.Shift.{part_disk, partition_readv-Serves}

abbrev ramp : ℕ → ℕ
ramp o = o + 100

-- A driver that reads the ramp.
abbrev ramp_readv : Readv
ramp_readv reqs m = ok (LoomError.none, fill ramp 4 reqs m)

abbrev part : Partition
part = record {
  parent = record { readv = ramp_readv; scratch = 5000; block_size = 4; blocks = 8 };
  blocks = 2;
  offset = 3;
}

ramp-Serves : Serves ramp_readv ramp 4
ramp-Serves = record {
  returns = λ reqs m h. ((LoomError.none, fill ramp 4 reqs m), refl, λ e a. refl);
}

translate-AllWithin_example : AllWithin part (request 4 1 1000 ∷ [])
unfolding translate check_range cons_request
translate-AllWithin_example =
    translate-AllWithin part (request 1 1 1000 ∷ []) (request 4 1 1000 ∷ []) (omega arith) refl

partition_readv-Serves_example : Serves (partition_readv part) (part_disk ramp part) 4
partition_readv-Serves_example = partition_readv-Serves ramp part ramp-Serves

-- A request for no block is never left.
empty_request : partition_readv part (request 0 0 1000 ∷ []) (λ a. 0) ≡ hang
unfolding partition_readv translate
empty_request = refl

past_the_end : partition_readv part (request 2 1 1000 ∷ []) (λ a. 0) ≡ ok (LoomError.range, λ a. 0)
unfolding partition_readv translate check_range submit
past_the_end = refl

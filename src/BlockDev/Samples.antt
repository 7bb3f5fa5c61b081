-- ===== src/BlockDev/Samples.antt =====
-- A read of ten bytes that begins and ends inside a block, on a device of four-byte blocks.
use loom_bootloader.Base.{ℕ, ◌+◌, ◌≡◌, ok, refl, arith, inl}
use loom_bootloader.Error.{LoomError}
use loom_bootloader.Memory.{Memory}
use loom_bootloader.BlockDev.{BlockDev, Readv, block_dev_read}
use loom_bootloader.BlockDev.Driver.{fill, Serves}
use loom_bootloader.BlockDev.Read.Bytes.{IsRead, block_dev_read-IsRead}

abbrev ramp : ℕ → ℕ
ramp o = o + 100

abbrev ramp_readv : Readv
ramp_readv reqs m = ok (LoomError.none, fill ramp 4 reqs m)

abbrev dev : BlockDev
dev = record { readv = ramp_readv; scratch = 5000; block_size = 4; blocks = 8 }

abbrev blank : Memory
blank a = 0

ramp-Serves : Serves ramp_readv ramp 4
ramp-Serves = record {
  returns = λ reqs m h. ((LoomError.none, fill ramp 4 reqs m), refl, λ e a. refl);
}

block_dev_read-IsRead_example :
    (r : LoomError × Memory) × (block_dev_read dev 3 10 1000 blank ≡ ok r)
    × (r.0 ≡ LoomError.none → IsRead ramp dev 3 10 1000 blank r.1)
block_dev_read-IsRead_example =
    block_dev_read-IsRead ramp dev ramp-Serves 3 10 1000 (inl (omega arith)) (omega arith)
      (omega arith) (omega arith) (omega arith) blank

-- ===== src/Memory/Samples.antt =====
-- The byte routines on overlapping and on equal sequences.
use loom_bootloader.Base.{ℕ, ◌+◌, ◌≡◌, ◌↔◌, ◌&&◌, arith, ok, inr, refl, u8, leb, ltb, if◌then◌else◌}
use loom_bootloader.Base.Int.{ℤ, pos, negsuc}
use loom_bootloader.Memory.{Memory, mem_copy, mem_move, mem_cmp, mem_set, compare_loop}
use loom_bootloader.Memory.Copy.{copied, mem_copy-copied, mem_move-copied, mem_set-filled}
use loom_bootloader.Memory.Compare.{SameBytes, mem_cmp-zero_iff}

abbrev ramp : Memory
ramp a = a

mem_copy-copied_example :
    (m : Memory) × (mem_copy 100 40 10 ramp ≡ ok m) × ((a : ℕ) → m a ≡ copied 100 40 10 ramp a)
mem_copy-copied_example =
    mem_copy-copied 100 40 10 ramp (omega arith) (omega arith) (inr (omega arith))

-- The destination begins inside the source.
mem_move-copied_example :
    (m : Memory) × (mem_move 44 40 10 ramp ≡ ok m) × ((a : ℕ) → m a ≡ copied 44 40 10 ramp a)
mem_move-copied_example = mem_move-copied 44 40 10 ramp (omega arith) (omega arith)

mem_set-filled_example :
    (m : Memory) × (mem_set 8 257 4 ramp ≡ ok m)
    × ((a : ℕ) → m a ≡ (if leb 8 a && ltb a (8 + 4) then u8 257 else ramp a))
mem_set-filled_example = mem_set-filled 8 257 4 ramp (omega arith)

mem_cmp-zero_iff_example :
    (z : ℤ) × (mem_cmp 8 16 4 ramp ≡ ok z) × ((z ≡ pos 0) ↔ SameBytes 8 16 4 ramp)
mem_cmp-zero_iff_example = mem_cmp-zero_iff 8 16 4 ramp (omega arith) (omega arith)

first_difference : mem_cmp 8 16 4 ramp ≡ ok (negsuc 7)
unfolding mem_cmp compare_loop
first_difference = refl

-- ===== src/Partition/Shift.antt =====
-- A partition serves its own part of the parent's disk.
use loom_bootloader.Base.{
  ℕ, ◌+◌, ◌*◌, ◌≡◌, List, [], ◌∷◌, map, ok, arith, refl, ap, fun_ext, ◌∙◌, leb, ltb, ◌&&◌,
  if◌then◌else◌,
}
use loom_bootloader.Error.{LoomError}
use loom_bootloader.Memory.{Memory}
use loom_bootloader.BlockDev.{IoReq}
use loom_bootloader.BlockDev.Driver.{fill, fill_one, AllPositive, Serves}
use loom_bootloader.Partition.{Partition, submit, partition_readv}
use loom_bootloader.Partition.Range.{moved, forwards, fails, translate-Outcome}

-- The bytes of the partition: the disk from the partition's first block on.
abbrev pub part_disk : (disk : ℕ → ℕ) → Partition → ℕ → ℕ
part_disk disk part o = disk (part.offset * part.parent.block_size + o)

module _ (disk : ℕ → ℕ) (part : Partition) where
  fill_one-moved :
      (r : IoReq) (m : Memory) (a : ℕ)
      → fill_one disk part.parent.block_size (moved part r) m a
        ≡ fill_one (part_disk disk part) part.parent.block_size r m a
  fill_one-moved r m a =
      let bs : ℕ = part.parent.block_size in
      ap (λ (t : ℕ). if leb r.buf a && ltb a (r.buf + r.count * bs) then t else m a)
        (ap disk (omega arith))

  fill-moved :
      (rs : List IoReq) (m : Memory)
      → fill disk part.parent.block_size (map (moved part) rs) m
        ≡ fill (part_disk disk part) part.parent.block_size rs m
  fill-moved [] m = refl
  fill-moved (r ∷ rs) m =
      ap (fill disk part.parent.block_size (map (moved part) rs)) (fun_ext (fill_one-moved r m))
      ∙ fill-moved rs (fill_one (part_disk disk part) part.parent.block_size r m)

  AllPositive-moved : (rs : List IoReq) → AllPositive rs → AllPositive (map (moved part) rs)
  AllPositive-moved [] h = tt
  AllPositive-moved (r ∷ rs) h = (h.0, AllPositive-moved rs h.1)

  -- `loomPartitionRead` serves the partition's part of the disk that its parent serves: it returns
  -- on requests for a block at least, and if it reports no error it has filled their buffers.
  pub partition_readv-Serves :
      Serves part.parent.readv disk part.parent.block_size
      → Serves (partition_readv part) (part_disk disk part) part.parent.block_size
  unfolding partition_readv submit
  partition_readv-Serves parent = record { returns = go }
    where
      go :
          (reqs : List IoReq) (m : Memory)
          → AllPositive reqs
          → (r : LoomError × Memory) × (partition_readv part reqs m ≡ ok r)
            × (r.0 ≡ LoomError.none
                → (a : ℕ) → r.1 a ≡ fill (part_disk disk part) part.parent.block_size reqs m a)
      go [] m h = ((LoomError.none, m), refl, λ e a. refl)
      go (r ∷ rs) m h = elim (translate-Outcome part (r ∷ rs) h) [
        | forwards t w ↦
            let (out, done, filled) =
              parent.returns (map (moved part) (r ∷ rs)) m (AllPositive-moved (r ∷ rs) h) in
            (out, rw t done, λ e a. filled e a ∙ ap (λ (f : Memory). f a) (fill-moved (r ∷ rs) m))
        | fails x ne t ↦ ((x, m), rw t, λ e. absurd (ne e))
      ]

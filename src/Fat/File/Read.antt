-- ===== src/Fat/File/Read.antt =====
-- The bytes that `fatRead` delivers.
use loom_bootloader.Base.{ℕ, ◌+◌, ◌^◌, ◌<◌, ◌≡◌, ◌≢◌, sym, ok}
use mathlib.Core.Path.{subst}
use loom_bootloader.Memory.{Memory, null}
use loom_bootloader.BlockDev.{BlockDev}
use loom_bootloader.BlockDev.Driver.{Serves}
use loom_bootloader.BlockDev.Read.Stages.{Disjoint}
use loom_bootloader.BlockDev.Read.Confined.{Confined}
use loom_bootloader.Fat.{FatFs, get_cluster_limit}
use loom_bootloader.Fat.Cluster.{Disk}
use loom_bootloader.Fat.Cluster.Entry.{Reads}
use loom_bootloader.Fat.File.{FatFile, Reading, read_file}
use loom_bootloader.Fat.File.Chain.{
  ChainOf, FileChain, cluster_bytes, cluster_bytes-size, end_mark-limit,
}
use loom_bootloader.Fat.File.Outcome.{IsPlaced, DeliveredOf}
use loom_bootloader.Fat.File.Rounds.{read_file-lem}

-- What a call leaves, with clusters of the size that the file system's fields give.
abbrev pub Delivered :
    FatFs → (d cl : ℕ → ℕ) → BlockDev → FatFile → (nbytes buf nread : ℕ) → Memory → Reading → Type 0
Delivered fs = DeliveredOf (cluster_bytes fs) fs

-- fatRead always returns. What it has put into the caller's buffer are the bytes of the file from the
-- position on, as many as the position has moved and `*nread` has grown; without an error these are
-- all that were asked for, up to the end of the file. On every outcome the file's cluster is the one
-- of its position, and nothing but the buffer and the scratch buffer has changed; what the reads of
-- the allocation table change in the cache is left out. The clusters of the file are a chain in that
-- table that is long enough and lies in the first 4 GiB, and on FAT12 the entry of each cluster that
-- another one follows begins with a byte below 128. The driver serves the disk, the buffers exist and
-- do not overlap, the file was placed in the same way before, and `*nread` plus the bytes asked for
-- stay below 2 ^ 32.
pub read_file-Delivered :
    (fs : FatFs) (d : ℕ → ℕ) (size : ℕ) (cl : ℕ → ℕ)
    → FileChain fs d size cl
    → (disk : Disk) → Reads disk d
    → (dev : BlockDev) → Serves dev.readv d dev.block_size
    → Confined dev.readv d dev.block_size
    → 0 < dev.block_size
    → dev.scratch ≢ null
    → (f : FatFile) (nbytes buf nread : ℕ) (m : Memory) → f.size ≡ size
    → IsPlaced (cluster_bytes fs) cl f
    → buf ≢ null
    → Disjoint dev nbytes buf
    → nread + nbytes < 2 ^ 32
    → (y : Reading) × ((read_file disk dev fs f nbytes buf nread m ≡ ok y)
        × Delivered fs d cl dev f nbytes buf nread m y)
read_file-Delivered fs d size cl h disk reads dev serves confined has_blocks has_scratch f nbytes
      buf nread m same placed has_buf apart counts =
    let n_eq = cluster_bytes-size fs in
    let chain =
      subst (λ n. ChainOf n (get_cluster_limit fs.type) fs d size cl) (sym n_eq)
        (subst (λ l. ChainOf (cluster_bytes fs) l fs d size cl) (sym (end_mark-limit fs.type)) h) in
    subst
      (λ n.
        (y : Reading) × ((read_file disk dev fs f nbytes buf nread m ≡ ok y)
          × DeliveredOf n fs d cl dev f nbytes buf nread m y))
      n_eq
      (read_file-lem fs d size cl chain disk reads dev serves confined has_blocks has_scratch f
        nbytes buf nread m same (subst (λ n. IsPlaced n cl f) (sym n_eq) placed) has_buf apart
        counts)

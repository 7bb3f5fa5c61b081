-- ===== src/Fat/Cluster.antt =====
-- src/mods/fat/cluster.c: the next cluster of a chain, from the allocation table. `Disk` stands for
-- `loomBlockDevCachedRead` of the block device that the table is read from: it gives the bytes, and
-- what the read changes in the device's cache is left to `BlockDev.Cache`.
pub mod Entry
mod Samples
use loom_bootloader.Base.{
  ℕ, ◌+◌, ◌-◌, ◌*◌, ◌/◌, ◌%◌, ◌^◌, Bool, ◌==◌, leb, if◌then◌else◌, bit_or, u16, u32, usize,
}
use loom_bootloader.Error.{LoomError}
use loom_bootloader.Fat.{FatType, FatFs}

-- A read at an offset: its error, and the bytes it leaves in the buffer.
abbrev pub Disk : Type 0
Disk = (offset size : ℕ) → LoomError × (ℕ → ℕ)

-- `(u16) p[0]`, of a `char` that is signed.
abbrev pub sign_extended : ℕ → ℕ
sign_extended b = if leb 128 b then 0xff00 + b else b

abbrev pub decode12 : (cluster : ℕ) → (ℕ → ℕ) → ℕ
decode12 cluster p =
    let v = bit_or (sign_extended (p 0)) (u16 (p 1 * 256)) in
    (if cluster % 2 == 0 then v else v / 16) % 2 ^ 12

-- What is done with the bytes of a read, unless it reports an error.
pub on_read : LoomError × (ℕ → ℕ) → ((ℕ → ℕ) → ℕ) → LoomError × ℕ
on_read (LoomError.none, p) f = (LoomError.none, f p)
on_read (e, p) f = (e, 0)

pub next_cluster12 : Disk → ℕ → FatFs → LoomError × ℕ
next_cluster12 disk cluster fs =
    let offset = u32 (cluster * 12) / 8 in
    let sect = u32 (fs.reserved_sects + offset / fs.bytes_per_sect) in
    let sect_offset = offset % fs.bytes_per_sect in
    on_read (disk (u32 (sect * fs.bytes_per_sect + sect_offset)) 2) (decode12 cluster)

-- Where the entry of a cluster stands, of `entsz` bytes.
pub entry_offset : (cluster entsz : ℕ) → FatFs → ℕ
entry_offset cluster entsz fs =
    let entry = cluster % (fs.bytes_per_sect / entsz) in
    let sect = u32 (fs.reserved_sects + u32 (entsz * cluster) / fs.bytes_per_sect) in
    u32 (sect * fs.bytes_per_sect + entry * entsz)

-- The second component is `*next` where no error is reported.
pub next_cluster_of : FatType → Disk → ℕ → FatFs → LoomError × ℕ
next_cluster_of FatType.fat12 disk cluster fs = next_cluster12 disk cluster fs
next_cluster_of FatType.fat16 disk cluster fs =
    on_read (disk (entry_offset cluster 2 fs) 2) (λ p. p 0 + p 1 * 256)
next_cluster_of FatType.fat32 disk cluster fs =
    on_read (disk (entry_offset cluster 4 fs) 4)
      (λ p. (p 0 + p 1 * 256 + p 2 * 65536 + p 3 * 16777216) % 2 ^ 28)

pub next_cluster : Disk → ℕ → FatFs → LoomError × ℕ
next_cluster disk cluster fs = next_cluster_of fs.type disk cluster fs

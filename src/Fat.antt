-- ===== src/Fat.antt =====
-- src/mods/fat: the FAT file system. `fat_fs` and the constants of fat.h.
pub mod Probe
pub mod Name
pub mod Cluster
pub mod Dir
pub mod File
pub mod Path
use loom_bootloader.Base.{ℕ, ◌+◌, ◌-◌, ◌*◌, ◌^◌, u32, usize}

pub data FatType : Type 0 where
  fat12 fat16 fat32 : FatType

-- `fat_fs`: the union's member is `root_cluster` on FAT32 and `root_entry_count` on the others.
pub record FatFs : Type 0 where
  pub type : FatType
  pub reserved_sects : ℕ
  pub bytes_per_sect : ℕ
  pub sects_per_cluster : ℕ
  pub fat_count : ℕ
  pub fat_sects : ℕ
  pub data_off : ℕ
  pub root : ℕ

-- Cluster numbers from here on end a chain.
pub get_cluster_limit : FatType → ℕ
get_cluster_limit FatType.fat32 = 0x0ffffff8
get_cluster_limit FatType.fat16 = 0xfff8
get_cluster_limit FatType.fat12 = 0xff8

pub get_cluster_size : FatFs → ℕ
get_cluster_size fs = u32 (fs.bytes_per_sect * fs.sects_per_cluster)

-- `cluster - 2` is a `u32`, which wraps.
pub get_cluster_offset : ℕ → FatFs → ℕ
unfolding get_cluster_size
get_cluster_offset cluster fs =
    usize (fs.data_off + u32 (u32 (cluster + 2 ^ 32 - 2) * get_cluster_size fs))

pub get_root_entries_offset : FatFs → ℕ
get_root_entries_offset fs =
    usize ((fs.reserved_sects + fs.fat_count * fs.fat_sects) * fs.bytes_per_sect)

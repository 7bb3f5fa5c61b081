-- ===== src/Fat/Probe.antt =====
-- `fatFsProbe`: which boot sectors hold a FAT file system, and what is kept of them. The errors
-- differ only in their message.
pub mod Powers
pub mod Volume
mod Samples
use loom_bootloader.Base.{
  ℕ, ◌+◌, ◌-◌, ◌*◌, ◌/◌, Bool, true, false, ◌||◌, ◌&&◌, not, Option, none, some, ◌==◌, ltb,
  if◌then◌else◌, bit_and, checked_add, checked_mul, u32, has_flag,
}
use loom_bootloader.Fat.{FatType, FatFs}

-- `fat_bpb`, each field as `loomEndianLoad` reads it.
pub record Bpb : Type 0 where
  pub bytes_per_sect : ℕ
  pub sects_per_cluster : ℕ
  pub reserved_sects : ℕ
  pub fats : ℕ
  pub root_entry_count : ℕ
  pub sects16 : ℕ
  pub fatsz16 : ℕ
  pub sects32 : ℕ
  pub fatsz32 : ℕ
  pub root_cluster : ℕ
  pub signature : ℕ

abbrev pub fat_sects : Bpb → ℕ
fat_sects b = if b.fatsz16 == 0 then b.fatsz32 else b.fatsz16

abbrev pub sects : Bpb → ℕ
sects b = if b.sects16 == 0 then b.sects32 else b.sects16

abbrev pub root_dir_sects : Bpb → ℕ
root_dir_sects b = (b.root_entry_count * 32 + (b.bytes_per_sect - 1)) / b.bytes_per_sect

-- The tests on single fields.
pub is_plausible : Bpb → Bool
is_plausible b =
    b.signature == 0xaa55
    && (b.bytes_per_sect == 512
        || b.bytes_per_sect == 1024
        || b.bytes_per_sect == 2048
        || b.bytes_per_sect == 4096)
    && not (b.sects_per_cluster == 0)
    && not (has_flag b.sects_per_cluster (b.sects_per_cluster - 1))
    && not (ltb (32 * 1024) (b.bytes_per_sect * b.sects_per_cluster))
    && not (b.reserved_sects == 0)
    && not (b.fats == 0)
    && not (fat_sects b == 0)
    && not (sects b == 0)

-- The sectors before the data, unless their number overflows.
pub meta_sects : Bpb → Option ℕ
meta_sects b = elim (checked_mul b.fats (fat_sects b)) [
  | none ↦ none
  | some n ↦ elim (checked_add n b.reserved_sects) [
    | none ↦ none
    | some k ↦ checked_add k (root_dir_sects b)
  ]
]

pub type_of : ℕ → FatType
type_of clusters =
    if ltb clusters 4085
    then FatType.fat12
    else if ltb clusters 65525
    then FatType.fat16
    else FatType.fat32

-- The tests that depend on the type.
pub suits_type : Bpb → FatType → Bool
suits_type b FatType.fat32 = b.root_entry_count == 0 && b.sects16 == 0 && b.fatsz16 == 0
suits_type b _ =
    b.reserved_sects == 1
    && not (has_flag (b.root_entry_count * 32) (b.bytes_per_sect - 1))
    && not (b.root_entry_count == 0)

pub root_of : Bpb → FatType → ℕ
root_of b FatType.fat32 = b.root_cluster
root_of b _ = b.root_entry_count

pub file_system : Bpb → ℕ → FatType → FatFs
file_system b meta t = record {
  type = t;
  reserved_sects = b.reserved_sects;
  bytes_per_sect = b.bytes_per_sect;
  sects_per_cluster = b.sects_per_cluster;
  fat_count = b.fats;
  fat_sects = fat_sects b;
  data_off = u32 (meta * b.bytes_per_sect);
  root = root_of b t;
}

pub classify : Bpb → ℕ → Option FatFs
classify b meta =
    let clusters = (sects b - meta) / b.sects_per_cluster in
    let t = type_of clusters in
    if ltb (sects b) meta || ltb (sects b - meta) 2
    then none
    else if clusters == 0
    then none
    else if suits_type b t
    then some (file_system b meta t)
    else none

pub fs_probe : Bpb → Option FatFs
fs_probe b =
    if is_plausible b
    then elim (meta_sects b) [ none ↦ none | some meta ↦ classify b meta ]
    else none

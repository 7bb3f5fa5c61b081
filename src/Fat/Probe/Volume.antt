-- ===== src/Fat/Probe/Volume.antt =====
-- What a file system that is found promises to the readers of its directories and clusters.
use loom_bootloader.Base.{
  ℕ, ◌+◌, ◌-◌, ◌*◌, ◌/◌, ◌≤◌, ◌<◌, ◌≡◌, ◌≢◌, true, some, arith, refl, ◌||◌, ◌==◌, has_flag, false,
  Option-cases, inl, inr,
}
use loom_bootloader.Fat.{FatType, FatFs}
use loom_bootloader.Fat.Probe.{
  Bpb, fat_sects, sects, root_dir_sects, is_plausible, meta_sects, type_of, file_system, classify,
  fs_probe,
}
use loom_bootloader.Fat.Probe.Powers.{is_cluster_size, power_iff}

-- `sectors`, `root` and `clusters` count the sectors of the volume, those of the root region and the
-- data clusters; the 16-bit field of a size holds unless it is zero.
pub record IsVolume (b : Bpb) (fs : FatFs) : Type 0 where
  pub sectors : ℕ
  pub root : ℕ
  pub clusters : ℕ
  pub kept :
      (fs.bytes_per_sect ≡ b.bytes_per_sect)
      × (fs.sects_per_cluster ≡ b.sects_per_cluster)
      × (fs.reserved_sects ≡ b.reserved_sects)
      × (fs.fat_count ≡ b.fats)
  pub sector_size :
      (fs.bytes_per_sect == 512
        || fs.bytes_per_sect == 1024
        || fs.bytes_per_sect == 2048
        || fs.bytes_per_sect == 4096)
      ≡ true
  pub cluster_power : is_cluster_size fs.sects_per_cluster ≡ true
  pub cluster_size : fs.bytes_per_sect * fs.sects_per_cluster ≤ 32 * 1024
  pub sectors_16 : b.sects16 ≢ 0 → sectors ≡ b.sects16
  pub sectors_32 : b.sects16 ≡ 0 → sectors ≡ b.sects32
  pub fat_16 : b.fatsz16 ≢ 0 → fs.fat_sects ≡ b.fatsz16
  pub fat_32 : b.fatsz16 ≡ 0 → fs.fat_sects ≡ b.fatsz32
  pub root_fits : b.root_entry_count * 32 ≤ root * b.bytes_per_sect
  pub root_least : root * b.bytes_per_sect < b.root_entry_count * 32 + b.bytes_per_sect
  pub has_clusters : 0 < clusters
  pub fits :
      (fs.reserved_sects + fs.fat_count * fs.fat_sects + root) + clusters * fs.sects_per_cluster
      ≤ sectors
  pub no_more :
      sectors
      < (fs.reserved_sects + fs.fat_count * fs.fat_sects + root)
        + clusters * fs.sects_per_cluster
        + fs.sects_per_cluster
  pub small : clusters < 4085 → fs.type ≡ FatType.fat12
  pub middle : 4085 ≤ clusters → clusters < 65525 → fs.type ≡ FatType.fat16
  pub large : 65525 ≤ clusters → fs.type ≡ FatType.fat32

pub meta_sects_lem :
    (b : Bpb) (n : ℕ)
    → meta_sects b ≡ some n
    → n ≡ b.fats * fat_sects b + b.reserved_sects + root_dir_sects b
unfolding meta_sects
meta_sects_lem b n h = ground arith

pub classify-none_or :
    (b : Bpb) (n : ℕ) (fs : FatFs)
    → classify b n ≡ some fs
    → (fs ≡ file_system b n (type_of ((sects b - n) / b.sects_per_cluster)))
      × (n + 2 ≤ sects b)
      × (0 < (sects b - n) / b.sects_per_cluster)
unfolding classify
classify-none_or b n fs h = ground arith

pub fs_probe-parts :
    (b : Bpb) (fs : FatFs)
    → fs_probe b ≡ some fs
    → (is_plausible b ≡ true) × ((n : ℕ) × ((meta_sects b ≡ some n) × (classify b n ≡ some fs)))
unfolding fs_probe
fs_probe-parts b fs h = elim (Option-cases (meta_sects b)) [
  | inl e ↦ ground arith
  | inr (n, e) ↦ (ground arith, (n, (e, ground arith)))
]

plausible_sizes :
    (b : Bpb)
    → is_plausible b ≡ true
    → ((b.bytes_per_sect == 512
          || b.bytes_per_sect == 1024
          || b.bytes_per_sect == 2048
          || b.bytes_per_sect == 4096)
        ≡ true)
      × (0 < b.sects_per_cluster)
      × (has_flag b.sects_per_cluster (b.sects_per_cluster - 1) ≡ false)
      × (b.bytes_per_sect * b.sects_per_cluster ≤ 32 * 1024)
unfolding is_plausible
plausible_sizes b h = ground arith

quotient_fits : (s n c : ℕ) → n ≤ s → 0 < c → n + ((s - n) / c) * c ≤ s
quotient_fits s n c h pos = omega arith

quotient_most : (s n c : ℕ) → n ≤ s → 0 < c → s < n + ((s - n) / c) * c + c
quotient_most s n c h pos = omega arith

rounded_fits : (x s : ℕ) → 0 < s → x ≤ ((x + (s - 1)) / s) * s
rounded_fits x s pos = omega arith

rounded_least : (x s : ℕ) → 0 < s → ((x + (s - 1)) / s) * s < x + s
rounded_least x s pos = omega arith

type_of-small : (n : ℕ) → n < 4085 → type_of n ≡ FatType.fat12
unfolding type_of
type_of-small n h = ground arith

type_of-middle : (n : ℕ) → 4085 ≤ n → n < 65525 → type_of n ≡ FatType.fat16
unfolding type_of
type_of-middle n h k = ground arith

type_of-large : (n : ℕ) → 65525 ≤ n → type_of n ≡ FatType.fat32
unfolding type_of
type_of-large n h = ground arith

some_bytes : (n : ℕ) → (n == 512 || n == 1024 || n == 2048 || n == 4096) ≡ true → 0 < n
some_bytes n h = ground arith

-- fatFsProbe accepts a boot sector whose cluster size is a byte only if
-- the sector size is 512, 1024, 2048 or 4096, the sectors per cluster are a power of two and a
-- cluster has at most 32 KiB. The reserved sectors, the tables, the fewest sectors that hold the root
-- entries and the data clusters, one at least and as many as there is room for, fit the sectors of the
-- volume. The type is FAT12 below 4085 clusters, FAT16 from there to 65524, and FAT32 above.
pub fs_probe-IsVolume :
    (b : Bpb) (fs : FatFs) → b.sects_per_cluster < 256 → fs_probe b ≡ some fs → IsVolume b fs
unfolding file_system
fs_probe-IsVolume b fs byte h =
    let (ok, (n, (e, c))) = fs_probe-parts b fs h in
    let (size, pos, power, small) = plausible_sizes b ok in
    let (is, room, some_clusters) = classify-none_or b n fs c in
    let count = meta_sects_lem b n e in
    let bytes = some_bytes b.bytes_per_sect size in
    record {
      sectors = sects b;
      root = root_dir_sects b;
      clusters = (sects b - n) / b.sects_per_cluster;
      kept = rw is (refl, refl, refl, refl);
      sector_size = rw is size;
      cluster_power = rw is (power_iff b.sects_per_cluster byte pos power);
      cluster_size = rw is small;
      sectors_16 = λ short. ground arith;
      sectors_32 = λ long. ground arith;
      fat_16 = λ short. ground arith;
      fat_32 = λ long. ground arith;
      root_fits = rounded_fits (b.root_entry_count * 32) b.bytes_per_sect bytes;
      root_least = rounded_least (b.root_entry_count * 32) b.bytes_per_sect bytes;
      has_clusters = some_clusters;
      fits = ground (arith, quotient_fits (sects b) n b.sects_per_cluster (omega arith) pos);
      no_more = ground (arith, quotient_most (sects b) n b.sects_per_cluster (omega arith) pos);
      small = λ few. rw is (type_of-small ((sects b - n) / b.sects_per_cluster) few);
      middle = λ lo hi. rw is (type_of-middle ((sects b - n) / b.sects_per_cluster) lo hi);
      large = λ many. rw is (type_of-large ((sects b - n) / b.sects_per_cluster) many);
    }

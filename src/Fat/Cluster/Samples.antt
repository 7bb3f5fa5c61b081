-- ===== src/Fat/Cluster/Samples.antt =====
-- A FAT12 table behind one reserved sector of 512 bytes: the entry of cluster 2 is 0x141.
use loom_bootloader.Base.{ℕ, ◌+◌, ◌≡◌, refl, sym, ap, arith, leb, if◌then◌else◌}
use loom_bootloader.Error.{LoomError}
use loom_bootloader.Fat.{FatType, FatFs}
use loom_bootloader.Fat.Cluster.{Disk, on_read, next_cluster12, next_cluster_of, next_cluster}
use loom_bootloader.Fat.Cluster.Entry.{Reads, table, table_entry, next_cluster-entry}

abbrev fs : FatFs
fs = record {
  type = FatType.fat12;
  reserved_sects = 1;
  bytes_per_sect = 512;
  sects_per_cluster = 1;
  fat_count = 2;
  fat_sects = 9;
  data_off = 16896;
  root = 224;
}

-- Every byte is 0x41.
abbrev bytes : ℕ → ℕ
bytes a = 0x41

abbrev disk : Disk
disk o n = (LoomError.none, λ i. bytes (o + i))

disk-Reads : Reads disk bytes
unfolding Reads
disk-Reads o n p e i lt = ap (λ r. r.1 i) (sym e)

next_cluster-entry_example : 0x141 ≡ table_entry fs.type bytes (table fs) 2
unfolding next_cluster next_cluster_of next_cluster12 on_read
next_cluster-entry_example =
    next_cluster-entry disk bytes 2 0x141 fs (record { sector = refl; reserved = omega arith })
      disk-Reads
      (record {
        bytes = λ a. omega arith;
        first = λ e. omega arith;
        narrow = omega arith;
        narrow16 = λ e. omega arith;
      })
      refl

-- Where the first byte is 0x81 and the second 0x01, the entry is 0x181, but 0xf81 is found.
sign_extends :
    next_cluster (λ o n. (LoomError.none, λ i. if leb 1 i then 1 else 0x81)) 2 fs
    ≡ (LoomError.none, 0xf81)
unfolding next_cluster next_cluster_of next_cluster12 on_read
sign_extends = refl

-- ===== src/Fat/File/Samples.antt =====
-- A file of 600 bytes in the clusters 2 and 5, of 512 bytes each, on a FAT16 disk.
use loom_bootloader.Base.{
  ℕ, zero, suc, ◌+◌, ◌*◌, ◌%◌, ◌/◌, ◌-◌, ◌^◌, ◌≤◌, ◌<◌, ◌≡◌, ok, ok_injective, refl, sym, ap, arith,
  inr, ◌∙◌, ◌==◌, if◌then◌else◌,
}
use loom_bootloader.Error.{LoomError}
use loom_bootloader.Memory.{Memory}
use loom_bootloader.BlockDev.{BlockDev, Readv}
use loom_bootloader.BlockDev.Driver.{fill, Serves}
use loom_bootloader.BlockDev.Read.Confined.{Confined}
use loom_bootloader.Fat.{FatType, FatFs}
use loom_bootloader.Fat.Cluster.{Disk}
use loom_bootloader.Fat.Cluster.Entry.{Reads, Readable, table, table_entry}
use loom_bootloader.Fat.File.{FatFile, Reading, read_file}
use loom_bootloader.Fat.File.Chain.{FileChain}
use loom_bootloader.Fat.File.Read.{Delivered, read_file-Delivered}

abbrev fs : FatFs
fs = record {
  type = FatType.fat16;
  reserved_sects = 1;
  bytes_per_sect = 512;
  sects_per_cluster = 1;
  fat_count = 1;
  fat_sects = 1;
  data_off = 2048;
  root = 16;
}

-- The table's entry of cluster 2 is 5.
abbrev bytes : ℕ → ℕ
bytes a = if a == 516 then 5 else if a == 517 then 0 else a % 251

abbrev disk : Disk
disk o n = (LoomError.none, λ i. bytes (o + i))

disk-Reads : Reads disk bytes
unfolding Reads
disk-Reads o n p e i lt = ap (λ r. r.1 i) (sym e)

abbrev readv : Readv
readv reqs m = ok (LoomError.none, fill bytes 512 reqs m)

abbrev dev : BlockDev
dev = record { readv = readv; scratch = 5000; block_size = 512; blocks = 64 }

readv-Serves : Serves readv bytes 512
readv-Serves = record {
  returns = λ reqs m h. ((LoomError.none, fill bytes 512 reqs m), refl, λ e a. refl);
}

readv-Confined : Confined readv bytes 512
readv-Confined = record { outside = λ reqs m r e a f. ap (λ q. q.1 a) (sym (ok_injective e)) ∙ f m }

abbrev clusters : ℕ → ℕ
clusters zero = 2
clusters (suc i) = 5

links :
    (i : ℕ)
    → suc i * 512 < 600
    → clusters (suc i) ≡ table_entry FatType.fat16 bytes (table fs) (clusters i)
unfolding table_entry
links zero lt = refl
links (suc i) lt = absurd (omega arith)

few : (P : ℕ → Type 0) → P 2 → P 5 → (i : ℕ) → P (clusters i)
few P two five zero = two
few P two five (suc i) = five

readable : (i : ℕ) → Readable fs bytes (clusters i)
readable i = record {
  bytes = λ a. ground arith;
  first = λ e. few (λ c. bytes (512 + (c + c / 2)) < 128) (omega arith) (omega arith) i;
  narrow = few (λ c. c < 2 ^ 28) (omega arith) (omega arith) i;
  narrow16 = λ e. few (λ c. c < 2 ^ 16) (omega arith) (omega arith) i;
}

chain : FileChain fs bytes 600 clusters
chain = record {
  sized = record { sector = refl; reserved = omega arith };
  positive = omega arith;
  fits = omega arith;
  links = links;
  low = λ i lt. few (λ c. 2 ≤ c) (omega arith) (omega arith) i;
  high = λ i lt. few (λ c. c < 0xfff8) (omega arith) (omega arith) i;
  placed = λ i lt. few (λ c. 2048 + (c - 2) * 512 + 512 < 2 ^ 32) (omega arith) (omega arith) i;
  readable = λ i lt. readable i;
}

abbrev blank : Memory
blank a = 0

abbrev file : FatFile
file = record { size = 600; position = 500; cluster = 2; pos = 2 }

read_file-Delivered_example :
    (y : Reading) × ((read_file disk dev fs file 50 20000 0 blank ≡ ok y)
      × Delivered fs bytes clusters dev file 50 20000 0 blank y)
read_file-Delivered_example =
    read_file-Delivered fs bytes 600 clusters chain disk disk-Reads dev readv-Serves readv-Confined
      (omega arith) (omega arith) file 50 20000 0 blank refl (λ lt. refl) (omega arith)
      (inr (omega arith)) (omega arith)

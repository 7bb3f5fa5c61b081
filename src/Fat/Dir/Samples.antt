-- ===== src/Fat/Dir/Samples.antt =====
-- A root directory of a free entry and a file.
use loom_bootloader.Base.{
  ℕ, ◌+◌, ◌-◌, ◌*◌, ◌/◌, ◌%◌, ◌^◌, ◌≡◌, ok, refl, ap, arith, true, some, ◌==◌, if◌then◌else◌,
}
use loom_bootloader.Error.{LoomError}
use loom_bootloader.Fat.{FatType, FatFs}
use loom_bootloader.Fat.Dir.{Entry, ReadEntry, IteratorCtx, iterate_root}
use loom_bootloader.Fat.Dir.Root.{first_used, Found, ReadsRoot, iterate_root-Found}

abbrev fs : FatFs
fs = record {
  type = FatType.fat12;
  reserved_sects = 1;
  bytes_per_sect = 512;
  sects_per_cluster = 1;
  fat_count = 2;
  fat_sects = 9;
  data_off = 16896;
  root = 2;
}

abbrev entries : ℕ → Entry
entries i = record {
  file_name = λ k. if i == 0 then 0xe5 else 97;
  attribs = 0x20;
  cluster_hi = 0;
  cluster_lo = 2;
  file_size = 100;
}

abbrev read : ReadEntry
read o = (LoomError.none, entries ((o - 9728) / 32))

read-ReadsRoot : ReadsRoot read entries fs 2
unfolding ReadsRoot
read-ReadsRoot i lt =
    ap (λ k. (LoomError.none, entries k)) {x = ((9728 + 32 * i) % 2 ^ 32 - 9728) / 32} {y = i}
      (omega arith)

abbrev ctx : IteratorCtx
ctx = record {
  has_next = true;
  root16_12 = true;
  offset = 0;
  cluster = 0;
  r_entry = 0;
  count = 2;
  entry = entries 0;
}

iterate_root-Found_example :
    (ctx' : IteratorCtx) × ((iterate_root 3 read fs ctx ≡ ok (LoomError.none, ctx'))
      × Found entries (first_used entries 2 0) ctx')
iterate_root-Found_example =
    iterate_root-Found 3 2 read entries fs ctx read-ReadsRoot (omega arith) refl refl (omega arith)

found_second : first_used entries 2 0 ≡ some 1
unfolding first_used
found_second = refl

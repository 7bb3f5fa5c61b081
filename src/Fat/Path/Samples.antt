-- ===== src/Fat/Path/Samples.antt =====
-- A file in the root directory.
use loom_bootloader.Base.{
  ℕ, ◌-◌, ◌/◌, ◌≡◌, List, [], ◌∷◌, true, ◌>>=◌, ◌==◌, if◌then◌else◌, arith, refl,
}
use loom_bootloader.Base.Split.{split_on}
use loom_bootloader.Error.{LoomError}
use loom_bootloader.Fat.{FatType, FatFs}
use loom_bootloader.Fat.Dir.{Entry, Next, ReadEntry, IteratorCtx}
use loom_bootloader.Fat.Dir.Lookup.{in_root}
use loom_bootloader.Fat.Path.{finds, open_file}
use loom_bootloader.Fat.Path.Parts.{chars, follow, any_part}
use loom_bootloader.Fat.Path.Open.{opened_by, open_file-follow}

abbrev fs : FatFs
fs = record {
  type = FatType.fat12;
  reserved_sects = 1;
  bytes_per_sect = 512;
  sects_per_cluster = 1;
  fat_count = 2;
  fat_sects = 9;
  data_off = 16896;
  root = 2;
}

-- A free entry, and the file A.
abbrev entries : ℕ → Entry
entries i = record {
  file_name = λ k. if i == 0 then 0xe5 else if k == 0 then 65 else 32;
  attribs = 0x20;
  cluster_hi = 0;
  cluster_lo = 2;
  file_size = 100;
}

abbrev read : ReadEntry
read o = (LoomError.none, entries ((o - 9728) / 32))

abbrev next : Next
next c _ = (LoomError.none, 4095)

abbrev ctx : IteratorCtx
ctx = record {
  has_next = true;
  root16_12 = true;
  offset = 0;
  cluster = 0;
  r_entry = 0;
  count = 2;
  entry = entries 0;
}

-- The path /a.
abbrev path : List ℕ
path = 47 ∷ 97 ∷ []

open_file-follow_example : open_file 3 (finds 3 4 next read fs) fs true ctx (chars path) ≡ (
    follow (finds 3 4 next read fs) (split_on 47 path) (in_root fs.type fs.root ctx)
    >>= opened_by true (any_part (split_on 47 path)))
open_file-follow_example =
    open_file-follow 3 3 4 next read fs true ctx (chars path) path
      (refl, omega arith, (refl, omega arith, refl)) (omega arith)

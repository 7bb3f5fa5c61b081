-- ===== src/Fat/Probe/Samples.antt =====
-- The boot sector of a 1.44 MB floppy.
use loom_bootloader.Base.{refl, arith}
use loom_bootloader.Fat.{FatType, FatFs}
use loom_bootloader.Fat.Probe.{
  Bpb, is_plausible, meta_sects, type_of, suits_type, root_of, file_system, classify, fs_probe,
}
use loom_bootloader.Fat.Probe.Volume.{IsVolume, fs_probe-IsVolume}

abbrev floppy : Bpb
floppy = record {
  bytes_per_sect = 512;
  sects_per_cluster = 1;
  reserved_sects = 1;
  fats = 2;
  root_entry_count = 224;
  sects16 = 2880;
  fatsz16 = 9;
  sects32 = 0;
  fatsz32 = 0;
  root_cluster = 0;
  signature = 0xaa55;
}

abbrev floppy_fs : FatFs
floppy_fs = record {
  type = FatType.fat12;
  reserved_sects = 1;
  bytes_per_sect = 512;
  sects_per_cluster = 1;
  fat_count = 2;
  fat_sects = 9;
  data_off = 16896;
  root = 224;
}

fs_probe-IsVolume_example : IsVolume floppy floppy_fs
unfolding fs_probe is_plausible meta_sects type_of suits_type root_of file_system classify
fs_probe-IsVolume_example = fs_probe-IsVolume floppy floppy_fs (omega arith) refl

-- ===== src/Fat/Name/Samples.antt =====
-- The entry of `ab.c`, and a path's `AB.c`.
use loom_bootloader.Base.{◌-◌, ◌≡◌, true, [], ◌∷◌, get_or, arith, refl}
use loom_bootloader.Fat.Name.{
  Name, base_size, ext_size, same_chars, ext_cmp, filename_cmp, alloc_sfn,
}
use loom_bootloader.Fat.Name.Match.{Named, Spells, filename_cmp-alloc_sfn, filename_cmp-Spells}

abbrev entry : Name
entry i = get_or (97 ∷ 98 ∷ 32 ∷ 32 ∷ 32 ∷ 32 ∷ 32 ∷ 32 ∷ 99 ∷ 32 ∷ 32 ∷ []) i 0

abbrev path : Name
path i = get_or (65 ∷ 66 ∷ 46 ∷ 99 ∷ []) i 0

entry-Named : Named entry
entry-Named = record { not_end = omega arith; not_free = omega arith; not_blank = omega arith }

filename_cmp-alloc_sfn_example :
    filename_cmp ((alloc_sfn entry).size - 1) (alloc_sfn entry).buf entry ≡ true
filename_cmp-alloc_sfn_example = filename_cmp-alloc_sfn entry entry-Named

filename_cmp-Spells_example : Named entry × Spells 4 path entry
unfolding filename_cmp base_size ext_size same_chars ext_cmp
filename_cmp-Spells_example = filename_cmp-Spells 4 path entry refl

-- ===== src/Elf/Samples.antt =====
-- An image of 92 bytes: the header, and one section header behind it, of a string table of two
-- bytes at offset 50.
use loom_bootloader.Base.{
  ℕ, ◌+◌, ◌*◌, ◌≤◌, ◌<◌, ◌≡◌, ◌^◌, true, ◌||◌, ◌==◌, List, [], ◌∷◌, ◌++◌, get_or, replicate, usize,
  ◌-◌, ◌↔◌, ◌≢◌, arith, refl,
}
use loom_bootloader.Error.{LoomError}
use loom_bootloader.Memory.{Memory}
use loom_bootloader.Elf.{
  Shdr, ehdr_at, table_overflows, bad_identity, bad_phdrs, bad_shdrs, ehdr_load, shdr_validate,
  str_tab_validate, shdr_get, shdr_iterate,
}
use loom_bootloader.Elf.Bounds.{
  TablesFit, ehdr_load-TablesFit, shdr_validate-none_iff, str_tab_validate-IsTerminated,
}
use loom_bootloader.Elf.Walk.{calls, shdr_iterate-calls}

abbrev bytes : List ℕ
bytes =
    (0x7f ∷ 69 ∷ 76 ∷ 70 ∷ 1 ∷ 1 ∷ 1 ∷ [])
    ++ replicate 9 0
    ++ (1 ∷ replicate 15 0)
    ++ (52 ∷ replicate 7 0)
    ++ (52 ∷ 0 ∷ 0 ∷ 0 ∷ 0 ∷ 0 ∷ 40 ∷ 0 ∷ 1 ∷ 0 ∷ 0 ∷ 0 ∷ [])
    ++ (0 ∷ 0 ∷ 0 ∷ 0 ∷ 3 ∷ replicate 11 0)
    ++ (50 ∷ 0 ∷ 0 ∷ 0 ∷ 2 ∷ [])

-- The image, loaded at 1000.
abbrev image : Memory
image a = get_or bytes (a - 1000) 0

abbrev strtab : Shdr
strtab = record { type = 3; offset = 50; size = 2; link = 0; info = 0; entsize = 0 }

ehdr_load-TablesFit_example :
    TablesFit (ehdr_at image 1000) 92
    × (((ehdr_at image 1000).type == 1 || (ehdr_at image 1000).type == 2) ≡ true)
unfolding ehdr_load bad_identity bad_phdrs bad_shdrs table_overflows ehdr_at
ehdr_load-TablesFit_example = ehdr_load-TablesFit image 1000 92 refl

shdr_validate-none_iff_example :
    (shdr_validate 1000 92 strtab ≡ LoomError.none)
    ↔ ((50 < 92) × (1000 + 50 + 2 < 2 ^ 32) × ((strtab.type ≢ 8) → 50 + 2 ≤ 92))
shdr_validate-none_iff_example = shdr_validate-none_iff 1000 92 strtab

str_tab_validate-IsTerminated_example :
    (50 + 2 ≤ 92)
    × (1000 + 50 + 2 < 2 ^ 32)
    × ((j : ℕ) × ((1 ≤ j) × (j < 2) × (image (1000 + 50 + j) ≡ 0)))
unfolding str_tab_validate shdr_validate
str_tab_validate-IsTerminated_example =
    str_tab_validate-IsTerminated image 1000 92 strtab 1 refl (omega arith)

-- A hook that keeps the last address, and goes on.
abbrev last_address : ℕ → ℕ → ℕ → ℕ × ℕ
last_address i a s = (0, a)

abbrev address : ℕ → ℕ
address i = usize (1052 + i * 40)

shdr_iterate-calls_example :
    shdr_iterate image 1000 last_address 0
    ≡ calls last_address address (ehdr_at image 1000).shents 0 0
unfolding shdr_get ehdr_at
shdr_iterate-calls_example =
    shdr_iterate-calls image 1000 last_address address 0 (λ i h. ground arith)

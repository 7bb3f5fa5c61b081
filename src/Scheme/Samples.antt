-- ===== src/Scheme/Samples.antt =====
-- Partition tables with a partition and a bad entry behind it.
use loom_bootloader.Base.{
  ℕ, ◌+◌, ◌*◌, ◌≡◌, ◌≢◌, ◌⊎◌, List, [], ◌∷◌, ◌==◌, if◌then◌else◌, true, false, refl,
}
use loom_bootloader.Base.Int.{pos, negsuc}
use loom_bootloader.Error.{LoomError}
use loom_bootloader.Scheme.{Init, Hook, stop_with}
use loom_bootloader.Scheme.Offers.{le4, le8}
use loom_bootloader.Scheme.Offers.{offer_all}
use loom_bootloader.Scheme.Mbr.{mbr_iterate, mbr_table, mbr_entries, mbr_iterate-offer_all}
use loom_bootloader.Scheme.Gpt.{gpt_iterate}
use loom_bootloader.Scheme.Gpt.Loop.{AllWords}
use loom_bootloader.Scheme.Gpt.Format.{gpt_valid, gpt_table, gpt_iterate-offer_all}

-- The hook keeps what it is given.
abbrev init : Init (List (ℕ × ℕ))
init o n s = (LoomError.none, s)

abbrev hook : Hook (List (ℕ × ℕ))
hook o n s = (pos 0, (o, n) ∷ s)

abbrev cells : List (ℕ × ℕ) → ℕ → ℕ
cells [] p = 0
cells ((q, v) ∷ cs) p = if p == q then v else cells cs p

-- A partition of 9 blocks from block 1 on, and an entry with a bad status.
abbrev sector : ℕ → ℕ
sector = cells ((450, 1) ∷ (454, 1) ∷ (458, 9) ∷ (462, 1) ∷ (510, 0x55) ∷ (511, 0xaa) ∷ [])

mbr_iterate-offer_all_example :
    (LoomError.none ≡ LoomError.none
      → LoomError.none ≡ LoomError.none
      → sector 510 + 256 * sector 511 ≡ 0xaa55
      → mbr_iterate init hook LoomError.none (LoomError.none, sector) []
        ≡ offer_all init hook true
            (negsuc 0)
            (mbr_table (mbr_entries sector)).parts
            (mbr_table (mbr_entries sector)).bad
            [])
    × ((LoomError.none ≢ LoomError.none)
          ⊎ ((LoomError.none ≢ LoomError.none) ⊎ (sector 510 + 256 * sector 511 ≢ 0xaa55))
        → ((mbr_iterate init hook LoomError.none (LoomError.none, sector) []).ret ≡ negsuc 0)
          × ((mbr_iterate init hook LoomError.none (LoomError.none, sector) []).state ≡ []))
mbr_iterate-offer_all_example =
    mbr_iterate-offer_all init hook LoomError.none (LoomError.none, sector) []

-- The value is 0 although an error was found.
sector_late :
    offer_all init hook true
      (negsuc 0)
      (mbr_table (mbr_entries sector)).parts
      (mbr_table (mbr_entries sector)).bad
      []
    ≡ stop_with (pos 0) LoomError.bad_part_scheme ((1, 9) ∷ [])
unfolding offer_all mbr_table
sector_late = refl

-- A header for two entries of 128 bytes in block 2, and a table of a partition in the blocks 40 to 49
-- and a backward entry.
abbrev header : ℕ → ℕ
header = cells (
    (0, 0x45)
    ∷ (1, 0x46)
    ∷ (2, 0x49)
    ∷ (3, 0x20)
    ∷ (4, 0x50)
    ∷ (5, 0x41)
    ∷ (6, 0x52)
    ∷ (7, 0x54)
    ∷ (12, 92)
    ∷ (72, 2)
    ∷ (80, 2)
    ∷ (84, 128)
    ∷ [])

abbrev table : ℕ → ℕ
table = cells ((0, 1) ∷ (32, 40) ∷ (40, 49) ∷ (128, 1) ∷ (160, 9) ∷ [])

abbrev read : (offset size : ℕ) → LoomError × (ℕ → ℕ)
read offset size = (LoomError.none, if offset == 512 then header else table)

abbrev room : ℕ → LoomError
room n = LoomError.none

read_table : read (512 * le8 header 72) (le4 header 80 * le4 header 84) ≡ (LoomError.none, table)
read_table = refl

gpt_iterate-offer_all_example :
    (gpt_valid 512 header ≡ false
      → gpt_iterate init hook 512 room read [] ≡ stop_with (negsuc 0) LoomError.bad_part_scheme [])
    × (gpt_valid 512 header ≡ true
        → gpt_iterate init hook 512 room read []
          ≡ offer_all init hook false
              (negsuc 0)
              (gpt_table (le4 header 80) (le4 header 84) 0 table).parts
              (gpt_table (le4 header 80) (le4 header 84) 0 table).bad
              [])
    × AllWords (gpt_table (le4 header 80) (le4 header 84) 0 table).parts
gpt_iterate-offer_all_example =
    gpt_iterate-offer_all init hook 512 room read header table [] refl refl refl read_table

table_late :
    offer_all init hook false
      (negsuc 0)
      (gpt_table 2 128 0 table).parts
      (gpt_table 2 128 0 table).bad
      []
    ≡ stop_with (pos 0) LoomError.bad_part_scheme ((40, 10) ∷ [])
unfolding offer_all gpt_table
table_late = refl

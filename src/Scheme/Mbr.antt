-- ===== src/Scheme/Mbr.antt =====
-- src/mods/mbr.c: the four entries of a master boot record.
use loom_bootloader.Base.{
  ℕ, ◌+◌, ◌*◌, ◌≡◌, List, [], ◌∷◌, Bool, true, false, not, ◌||◌, ◌==◌, if◌then◌else◌, has_flag,
  arith, refl, ap, ap₂, fun_ext, ◌≢◌, ◌⊎◌, ◌∙◌, Bool-cases, inl, inr,
}
use loom_bootloader.Base.Int.{ℤ, pos, negsuc}
use loom_bootloader.Error.{LoomError}
use loom_bootloader.Scheme.{End, Init, Hook, load_le, stop_with, hooked}
use loom_bootloader.Scheme.Offers.{
  Table, more, le4, answered, hooked-answered, offer_one, offer_all, load_le-two, load_le-four,
}

pub record MbrEntry : Type 0 where
  pub status : ℕ
  pub partition_type : ℕ
  pub start : ℕ
  pub sectors : ℕ

-- `mbr->entries + i`
abbrev pub mbr_entry : (ℕ → ℕ) → ℕ → MbrEntry
mbr_entry b i = record {
  status = b (446 + 16 * i);
  partition_type = b (446 + 16 * i + 4);
  start = load_le 4 (446 + 16 * i + 8) b;
  sectors = load_le 4 (446 + 16 * i + 12) b;
}

-- An empty entry, or an extended partition.
abbrev pub is_passed : MbrEntry → Bool
is_passed e =
    e.partition_type == 0
    || (e.partition_type == 0x05 || (e.partition_type == 0x0f || e.partition_type == 0x85))

-- After `loomPartitionInit`.
pub mbr_made {ℓ} : {S : Type ℓ} → Hook S → ℤ → MbrEntry → LoomError × S → (S → End S) → End S
mbr_made hook ret e (LoomError.none, s) rest = hooked (hook e.start e.sectors s) rest
mbr_made hook ret e (err, s) rest = stop_with ret err s

-- The loop over the entries; `ret` is `ret_val`.
pub mbr_loop {ℓ} : {S : Type ℓ} → Init S → Hook S → ℤ → List MbrEntry → S → End S
mbr_loop init hook ret [] s = stop_with (pos 0) LoomError.none s
mbr_loop init hook ret (e ∷ es) s =
    let rest = mbr_loop init hook ret es s in
    let made = mbr_made hook ret e (init e.start e.sectors s) (mbr_loop init hook (pos 0) es) in
    if has_flag e.status 0x7f
    then stop_with ret LoomError.bad_part_scheme s
    else if is_passed e
    then rest
    else if e.partition_type == 0xee
    then stop_with ret LoomError.bad_part_scheme s
    else made

-- The sector was read, or not; then no error is set.
pub mbr_read {ℓ} : {S : Type ℓ} → Init S → Hook S → LoomError × (ℕ → ℕ) → S → End S
mbr_read init hook (LoomError.none, b) s =
    if not (load_le 2 510 b == 0xaa55)
    then stop_with (negsuc 0) LoomError.bad_part_scheme s
    else mbr_loop init hook (negsuc 0)
        (mbr_entry b 0 ∷ mbr_entry b 1 ∷ mbr_entry b 2 ∷ mbr_entry b 3 ∷ []) s
mbr_read init hook (e, b) s = stop_with (negsuc 0) LoomError.none s

-- `mbrPartitionSchemeIterate`; `room` is the error of the heap, if it has no room for the sector.
pub mbr_iterate {ℓ} :
    {S : Type ℓ} → Init S → Hook S → (room : LoomError) → LoomError × (ℕ → ℕ) → S → End S
mbr_iterate init hook LoomError.none sector s = mbr_read init hook sector s
mbr_iterate init hook e sector s = stop_with (negsuc 0) e s

-- What the entries name: no entry behind a bad one counts, the types 0x00, 0x05, 0x0f and 0x85 are no
-- partitions.
unfoldable pub mbr_table : List MbrEntry → Table
mbr_table [] = record { parts = []; bad = false }
mbr_table (e ∷ es) =
    let rest = mbr_table es in
    if has_flag e.status 0x7f || e.partition_type == 0xee
    then record { parts = []; bad = true }
    else if e.partition_type == 0
        || (e.partition_type == 0x05 || (e.partition_type == 0x0f || e.partition_type == 0x85))
    then rest
    else more e.start e.sectors rest

-- The entry at an offset of the sector, and the four entries.
abbrev pub entry_at : (ℕ → ℕ) → ℕ → MbrEntry
entry_at b p = record {
  status = b p;
  partition_type = b (p + 4);
  start = le4 b (p + 8);
  sectors = le4 b (p + 12);
}

abbrev pub mbr_entries : (ℕ → ℕ) → List MbrEntry
mbr_entries b = entry_at b 446 ∷ entry_at b 462 ∷ entry_at b 478 ∷ entry_at b 494 ∷ []

mbr_entry-at : (b : ℕ → ℕ) (i p : ℕ) → 446 + 16 * i ≡ p → mbr_entry b i ≡ entry_at b p
mbr_entry-at b i p e =
    ap₂
      (λ (x y : ℕ). record {
        status = b (446 + 16 * i);
        partition_type = b (446 + 16 * i + 4);
        start = x;
        sectors = y;
      })
      (load_le-four (446 + 16 * i + 8) b) (load_le-four (446 + 16 * i + 12) b)
    ∙ ap (entry_at b) e

mbr_entries-at :
    (b : ℕ → ℕ) → mbr_entry b 0 ∷ mbr_entry b 1 ∷ mbr_entry b 2 ∷ mbr_entry b 3 ∷ [] ≡ mbr_entries b
mbr_entries-at b =
    ap₂ (λ x y. x ∷ y) (mbr_entry-at b 0 446 (omega arith))
      (ap₂ (λ x y. x ∷ y) (mbr_entry-at b 1 462 (omega arith))
        (ap₂ (λ x y. x ∷ y ∷ []) (mbr_entry-at b 2 478 (omega arith))
          (mbr_entry-at b 3 494 (omega arith))))

mbr_made-strict {ℓ} :
    {S : Type ℓ} (init : Init S) (hook : Hook S) (ret : ℤ) (e : MbrEntry) (r : LoomError × S)
    (rest other : S → End S)
    → mbr_made hook ret e r rest
      ≡ offer_one true ret r (λ s1. answered (hook e.start e.sectors s1) rest) other
unfolding mbr_made
mbr_made-strict init hook ret e (LoomError.none, s) rest other =
    hooked-answered (hook e.start e.sectors s) rest
mbr_made-strict init hook ret e (_, s) rest other = refl

mbr_loop-offer_all {ℓ} :
    {S : Type ℓ} (init : Init S) (hook : Hook S) (ret : ℤ) (es : List MbrEntry) (s : S)
    → mbr_loop init hook ret es s
      ≡ offer_all init hook true ret (mbr_table es).parts (mbr_table es).bad s
unfolding mbr_loop mbr_table offer_all
mbr_loop-offer_all init hook ret [] s = refl
mbr_loop-offer_all init hook ret (e ∷ es) s = elim (Bool-cases (has_flag e.status 0x7f)) [
  | inl flagged ↦ rw flagged refl
  | inr fine ↦ elim (Bool-cases (e.partition_type == 0xee)) [
    | inl protective ↦
        let not_passed : is_passed e ≡ false = ground arith in
        rw (fine, protective, not_passed) refl
    | inr other ↦ elim (Bool-cases (is_passed e)) [
      | inl passed ↦ rw (fine, other, passed) (mbr_loop-offer_all init hook ret es s)
      | inr used ↦
          rw (fine, other, used)
            (ap (mbr_made hook ret e (init e.start e.sectors s))
                (fun_ext (λ s1. mbr_loop-offer_all init hook (pos 0) es s1))
              ∙ mbr_made-strict init hook ret e (init e.start e.sectors s)
                  (offer_all init hook true (pos 0) (mbr_table es).parts (mbr_table es).bad)
                  (offer_all init hook true ret (mbr_table es).parts (mbr_table es).bad))
    ]
  ]
]

mbr_refused {ℓ} :
    {S : Type ℓ} (init : Init S) (hook : Hook S) (room : LoomError) (sector : LoomError × (ℕ → ℕ))
    (s : S)
    → (room ≢ LoomError.none)
      ⊎ ((sector.0 ≢ LoomError.none) ⊎ (sector.1 510 + 256 * sector.1 511 ≢ 0xaa55))
    → ((mbr_iterate init hook room sector s).ret ≡ negsuc 0)
      × ((mbr_iterate init hook room sector s).state ≡ s)
unfolding mbr_iterate mbr_read
mbr_refused init hook LoomError.none (LoomError.none, b) s (inl h) = absurd (h refl)
mbr_refused init hook LoomError.none (LoomError.none, b) s (inr (inl h)) = absurd (h refl)
mbr_refused init hook LoomError.none (LoomError.none, b) s (inr (inr h)) =
    let bad : (load_le 2 510 b == 0xaa55) ≡ false = ground (arith, h, load_le-two 510 b) in
    rw bad (refl, refl)
mbr_refused init hook LoomError.none (_, b) s h = (refl, refl)
mbr_refused init hook _ sector s h = (refl, refl)

mbr_accepted {ℓ} :
    {S : Type ℓ} (init : Init S) (hook : Hook S) (b : ℕ → ℕ) (s : S)
    → b 510 + 256 * b 511 ≡ 0xaa55
    → mbr_iterate init hook LoomError.none (LoomError.none, b) s
      ≡ offer_all init hook true
          (negsuc 0)
          (mbr_table (mbr_entries b)).parts
          (mbr_table (mbr_entries b)).bad
          s
unfolding mbr_iterate mbr_read
mbr_accepted init hook b s signed =
    let good : (load_le 2 510 b == 0xaa55) ≡ true = ground (arith, load_le-two 510 b) in
    rw good (
      ap (λ es. mbr_loop init hook (negsuc 0) es s) (mbr_entries-at b)
      ∙ mbr_loop-offer_all init hook (negsuc 0) (mbr_entries b) s)

-- mbrPartitionSchemeIterate offers the hook the partitions of the sector's entries that stand before
-- an entry with a bad status or the type of a protective record, in order, but the empty and the
-- extended ones, until one cannot be made a device or the hook refuses it. Without either, a bad
-- entry gives an error, but the value is -1 only if no partition came before it, and 0 otherwise.
-- If the heap has no room, the read fails or the signature is not 0xAA55, the value is -1 and the
-- hook is not called.
pub mbr_iterate-offer_all {ℓ} :
    {S : Type ℓ} (init : Init S) (hook : Hook S) (room : LoomError) (sector : LoomError × (ℕ → ℕ))
    (s : S)
    → (room ≡ LoomError.none
        → sector.0 ≡ LoomError.none
        → sector.1 510 + 256 * sector.1 511 ≡ 0xaa55
        → mbr_iterate init hook room sector s
          ≡ offer_all init hook true
              (negsuc 0)
              (mbr_table (mbr_entries sector.1)).parts
              (mbr_table (mbr_entries sector.1)).bad
              s)
      × ((room ≢ LoomError.none)
            ⊎ ((sector.0 ≢ LoomError.none) ⊎ (sector.1 510 + 256 * sector.1 511 ≢ 0xaa55))
          → ((mbr_iterate init hook room sector s).ret ≡ negsuc 0)
            × ((mbr_iterate init hook room sector s).state ≡ s))
mbr_iterate-offer_all init hook room (e, b) s = (
  λ given read signed.
      ap₂ (λ r x. mbr_iterate init hook r (x, b) s) given read ∙ mbr_accepted init hook b s signed,
  mbr_refused init hook room (e, b) s,
)

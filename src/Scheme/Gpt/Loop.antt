-- ===== src/Scheme/Gpt/Loop.antt =====
-- The loop over the entries of a GUID partition table offers what it finds.
use loom_bootloader.Base.{
  ℕ, zero, suc, ◌+◌, ◌-◌, ◌*◌, ◌^◌, ◌≡◌, ◌<◌, List, [], ◌∷◌, Bool, true, false, ◌&&◌, ltb, leb,
  if◌then◌else◌, arith, refl, ap₂, fun_ext, ◌∙◌, Bool-cases, inl, inr,
}
use loom_bootloader.Base.Int.{ℤ, pos, negsuc}
use loom_bootloader.Error.{LoomError}
use loom_bootloader.Scheme.{End, Init, Hook, stop_with}
use loom_bootloader.Scheme.Offers.{Table, more, answered, hooked-answered, offer_one, offer_all}
use loom_bootloader.Scheme.Gpt.{
  is_zero, range_start, range_end, too_large, gpt_made, gpt_loop, gpt_entries, gpt_room, is_signed,
  header_size, entry_loc, entry_count, entry_size, gpt_header, gpt_first, gpt_iterate,
}

-- The partitions that the loop finds.
unfoldable pub loop_table : (n size p : ℕ) → (ℕ → ℕ) → Table
loop_table zero size p b = record { parts = []; bad = false }
loop_table (suc n) size p b =
    let rest = loop_table n size (p + size) b in
    if is_zero 16 p b
    then rest
    else if ltb (range_end b p) (range_start b p)
    then record { parts = []; bad = true }
    else if too_large b p
    then rest
    else more (range_start b p) (range_end b p - range_start b p + 1) rest

gpt_made-lenient {ℓ} :
    {S : Type ℓ} (hook : Hook S) (ret : ℤ) (o n : ℕ) (r : LoomError × S) (call rest : S → End S)
    → gpt_made hook o n r call rest ≡ offer_one false ret r (λ s1. answered (hook o n s1) call) rest
unfolding gpt_made
gpt_made-lenient hook ret o n (LoomError.none, s) call rest = hooked-answered (hook o n s) call
gpt_made-lenient hook ret o n (_, s) call rest = refl

gpt_loop-offer_all {ℓ} :
    {S : Type ℓ} (init : Init S) (hook : Hook S) (ret : ℤ) (n size p : ℕ) (b : ℕ → ℕ) (s : S)
    → gpt_loop init hook ret n size p b s
      ≡ offer_all init hook false ret (loop_table n size p b).parts (loop_table n size p b).bad s
unfolding gpt_loop loop_table offer_all
gpt_loop-offer_all init hook ret zero size p b s = refl
gpt_loop-offer_all init hook ret (suc n) size p b s = elim (Bool-cases (is_zero 16 p b)) [
  | inl unused ↦ rw unused (gpt_loop-offer_all init hook ret n size (p + size) b s)
  | inr used ↦ elim (Bool-cases (ltb (range_end b p) (range_start b p))) [
    | inl backward ↦ rw (used, backward) refl
    | inr forward ↦ elim (Bool-cases (too_large b p)) [
      | inl large ↦
          rw (used, forward, large) (gpt_loop-offer_all init hook ret n size (p + size) b s)
      | inr small ↦
          rw (used, forward, small)
            (ap₂
                (gpt_made hook (range_start b p) (range_end b p - range_start b p + 1)
                  (init (range_start b p) (range_end b p - range_start b p + 1) s))
                (fun_ext (λ s1. gpt_loop-offer_all init hook (pos 0) n size (p + size) b s1))
                (fun_ext (λ s1. gpt_loop-offer_all init hook ret n size (p + size) b s1))
              ∙ gpt_made-lenient hook ret (range_start b p) (range_end b p - range_start b p + 1)
                  (init (range_start b p) (range_end b p - range_start b p + 1) s)
                  (offer_all init hook false (pos 0) (loop_table n size (p + size) b).parts
                    (loop_table n size (p + size) b).bad)
                  (offer_all init hook false ret (loop_table n size (p + size) b).parts
                    (loop_table n size (p + size) b).bad))
    ]
  ]
]

-- Partitions that have a block at least and whose offset and size are machine words.
abbrev pub AllWords : List (ℕ × ℕ) → Type 0
AllWords [] = Unit {0}
AllWords ((o, n) ∷ ps) = ((o < 2 ^ 32) × (0 < n) × (n < 2 ^ 32)) × AllWords ps

pub loop_table-AllWords : (n size p : ℕ) (b : ℕ → ℕ) → AllWords (loop_table n size p b).parts
unfolding loop_table
loop_table-AllWords zero size p b = tt
loop_table-AllWords (suc n) size p b = elim (Bool-cases (is_zero 16 p b)) [
  | inl unused ↦ rw unused (loop_table-AllWords n size (p + size) b)
  | inr used ↦ elim (Bool-cases (ltb (range_end b p) (range_start b p))) [
    | inl backward ↦ rw (used, backward) tt
    | inr forward ↦ elim (Bool-cases (too_large b p)) [
      | inl large ↦ rw (used, forward, large) (loop_table-AllWords n size (p + size) b)
      | inr small ↦
          rw (used, forward, small)
            ((ground arith, omega arith, ground arith), loop_table-AllWords n size (p + size) b)
    ]
  ]
]

-- The header's checks.
abbrev pub header_valid : (block_size : ℕ) → (ℕ → ℕ) → Bool
header_valid block_size h =
    is_signed h
    && (leb 92 (header_size h)
        && (leb 128 (entry_size h)
            && (ltb (entry_count h * entry_size h) (2 ^ 32)
                && ltb (block_size * entry_loc h) (2 ^ 32))))

gpt_header-valid {ℓ} :
    {S : Type ℓ} (init : Init S) (hook : Hook S) (block_size : ℕ) (room : ℕ → LoomError)
    (read : (offset size : ℕ) → LoomError × (ℕ → ℕ)) (h : ℕ → ℕ) (s : S)
    → header_valid block_size h ≡ true
    → gpt_header init hook block_size room read h s
      ≡ gpt_room (room (entry_count h * entry_size h)) s (
          gpt_entries init hook
            (entry_count h)
            (entry_size h)
            (read (block_size * entry_loc h) (entry_count h * entry_size h))
            s)
unfolding gpt_header
gpt_header-valid init hook block_size room read h s valid =
    let signed : is_signed h ≡ true = ground arith in
    let large : ltb (header_size h) 92 ≡ false = ground arith in
    let entries : ltb (entry_size h) 128 ≡ false = ground arith in
    let fits : ltb (entry_count h * entry_size h) (2 ^ 32) ≡ true = ground arith in
    let at : ltb (block_size * entry_loc h) (2 ^ 32) ≡ true = ground arith in
    rw (signed, large) rw (entries, fits) rw at refl

gpt_header-bad {ℓ} :
    {S : Type ℓ} (init : Init S) (hook : Hook S) (block_size : ℕ) (room : ℕ → LoomError)
    (read : (offset size : ℕ) → LoomError × (ℕ → ℕ)) (h : ℕ → ℕ) (s : S)
    → header_valid block_size h ≡ false
    → gpt_header init hook block_size room read h s
      ≡ stop_with (negsuc 0) LoomError.bad_part_scheme s
unfolding gpt_header
gpt_header-bad init hook block_size room read h s bad = elim (Bool-cases (is_signed h)) [
  | inr unsigned ↦ rw unsigned refl
  | inl signed ↦ elim (Bool-cases (ltb (header_size h) 92)) [
    | inl short ↦ rw (signed, short) refl
    | inr large ↦ elim (Bool-cases (ltb (entry_size h) 128)) [
      | inl small ↦ rw (signed, large, small) refl
      | inr entries ↦ elim (Bool-cases (ltb (entry_count h * entry_size h) (2 ^ 32))) [
        | inr over ↦ rw (signed, large, entries) rw over refl
        | inl fits ↦
            let far : ltb (block_size * entry_loc h) (2 ^ 32) ≡ false = ground arith in
            rw (signed, large, entries) rw fits rw far refl
      ]
    ]
  ]
]

pub gpt_iterate-loop_table {ℓ} :
    {S : Type ℓ} (init : Init S) (hook : Hook S) (block_size : ℕ) (room : ℕ → LoomError)
    (read : (offset size : ℕ) → LoomError × (ℕ → ℕ)) (h b : ℕ → ℕ) (s : S)
    → room 92 ≡ LoomError.none
    → read block_size 92 ≡ (LoomError.none, h)
    → room (entry_count h * entry_size h) ≡ LoomError.none
    → read (block_size * entry_loc h) (entry_count h * entry_size h) ≡ (LoomError.none, b)
    → (header_valid block_size h ≡ false
        → gpt_iterate init hook block_size room read s
          ≡ stop_with (negsuc 0) LoomError.bad_part_scheme s)
      × (header_valid block_size h ≡ true
          → gpt_iterate init hook block_size room read s
            ≡ offer_all init hook false
                (negsuc 0)
                (loop_table (entry_count h) (entry_size h) 0 b).parts
                (loop_table (entry_count h) (entry_size h) 0 b).bad
                s)
      × AllWords (loop_table (entry_count h) (entry_size h) 0 b).parts
unfolding gpt_iterate gpt_first gpt_entries
gpt_iterate-loop_table init hook block_size room read h b s given has_header given_table has_table =
    let start : gpt_iterate init hook block_size room read s
        ≡ gpt_header init hook block_size room read h s =
      ap₂ (λ r x. gpt_room r s (gpt_first init hook block_size room read x s)) given has_header in
    (
      λ bad. start ∙ gpt_header-bad init hook block_size room read h s bad,
      λ valid.
          start
          ∙ gpt_header-valid init hook block_size room read h s valid
          ∙ ap₂ (λ r x. gpt_room r s (gpt_entries init hook (entry_count h) (entry_size h) x s))
              given_table has_table
          ∙ gpt_loop-offer_all init hook (negsuc 0) (entry_count h) (entry_size h) 0 b s,
      loop_table-AllWords (entry_count h) (entry_size h) 0 b,
    )

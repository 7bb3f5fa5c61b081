-- ===== src/Scheme/Gpt/Format.antt =====
-- A GUID partition table as the format states it, and the iteration over it.
use loom_bootloader.Base.{
  ℕ, zero, suc, ◌+◌, ◌-◌, ◌*◌, ◌^◌, ◌≡◌, [], Bool, true, false, ◌||◌, ◌&&◌, ◌==◌, ltb, leb,
  if◌then◌else◌, arith, refl, ap, ap₂, ◌∙◌,
}
use mathlib.Core.Path.{subst}
use loom_bootloader.Base.Int.{negsuc}
use loom_bootloader.Error.{LoomError}
use loom_bootloader.Scheme.{Init, Hook, load_le, stop_with}
use loom_bootloader.Scheme.Offers.{
  Table, more, le4, le8, offer_all, load_le-four, load_le-eight, load_le-more,
}
use loom_bootloader.Scheme.Gpt.{
  is_zero, range_start, range_end, entry_count, entry_size, gpt_iterate,
}
use loom_bootloader.Scheme.Gpt.Loop.{loop_table, AllWords, header_valid, gpt_iterate-loop_table}

-- An entry as the format states it: unused when the 16 bytes of its type are zero.
abbrev pub unused : (ℕ → ℕ) → ℕ → Bool
unused b p = le8 b p + le8 b (p + 8) == 0

-- An entry from a start to an end, in front of the others.
abbrev pub listed : (unused : Bool) → (start end : ℕ) → Table → Table
listed is_unused start end rest =
    if is_unused
    then rest
    else if ltb end start
    then record { parts = []; bad = true }
    else if leb (2 ^ 32) start || leb (2 ^ 32) (end - start + 1)
    then rest
    else more start (end - start + 1) rest

-- What the entries name: no entry behind one with a bad range counts.
unfoldable pub gpt_table : (n size p : ℕ) → (ℕ → ℕ) → Table
gpt_table zero size p b = record { parts = []; bad = false }
gpt_table (suc n) size p b =
    let rest = gpt_table n size (p + size) b in
    listed (unused b p) (le8 b (p + 32)) (le8 b (p + 40)) rest

-- A header as the format states it.
abbrev pub gpt_valid : (block_size : ℕ) → (ℕ → ℕ) → Bool
gpt_valid block_size h =
    le8 h 0 == 0x5452415020494645
    && (leb 92 (le4 h 12)
        && (leb 128 (le4 h 84)
            && (ltb (le4 h 80 * le4 h 84) (2 ^ 32) && ltb (block_size * le8 h 72) (2 ^ 32))))

is_zero-load_le : (n p : ℕ) (b : ℕ → ℕ) → is_zero n p b ≡ (load_le n p b == 0)
unfolding is_zero load_le
is_zero-load_le zero p b = refl
is_zero-load_le (suc n) p b = ground (arith, is_zero-load_le n (p + 1) b)

is_zero-unused : (p : ℕ) (b : ℕ → ℕ) → is_zero 16 p b ≡ unused b p
is_zero-unused p b =
    is_zero-load_le 16 p b
    ∙ ground (
      arith,
      load_le-more 12 p b,
      load_le-more 8 (p + 4) b,
      load_le-eight (p + 4 + 4) b,
      ap (λ x. le8 b x) {x = p + 4 + 4} {y = p + 8} (omega arith),
    )

loop_table-lem : (n size p : ℕ) (b : ℕ → ℕ) → loop_table n size p b ≡ gpt_table n size p b
unfolding loop_table gpt_table
loop_table-lem zero size p b = refl
loop_table-lem (suc n) size p b =
    ap (λ u. listed u (range_start b p) (range_end b p) (loop_table n size (p + size) b))
      (is_zero-unused p b)
    ∙ ap₂ (λ x y. listed (unused b p) x y (loop_table n size (p + size) b))
        (load_le-eight (p + 32) b) (load_le-eight (p + 40) b)
    ∙ ap (listed (unused b p) (le8 b (p + 32)) (le8 b (p + 40)))
        (loop_table-lem n size (p + size) b)

table-lem :
    (h b : ℕ → ℕ)
    → loop_table (entry_count h) (entry_size h) 0 b ≡ gpt_table (le4 h 80) (le4 h 84) 0 b
table-lem h b =
    loop_table-lem (entry_count h) (entry_size h) 0 b
    ∙ ap₂ (λ n size. gpt_table n size 0 b) (load_le-four 80 h) (load_le-four 84 h)

header_valid-lem : (block_size : ℕ) (h : ℕ → ℕ) → header_valid block_size h ≡ gpt_valid block_size h
header_valid-lem block_size h =
    rw (load_le-eight 0 h, load_le-four 12 h, load_le-four 84 h) rw
      (load_le-four 80 h, load_le-eight 72 h) refl

-- gptPartionSchemeIterate, when its reads succeed and the heap has room: a header is accepted if it
-- is signed, is large enough itself and in its entries, and the size and place of its table do not
-- overflow, and another gives an error, the value -1 and no call of the hook. With an accepted
-- header the hook is offered the table's partitions that stand before an entry that ends before it
-- starts, in order, but unused ones and ones too large for a machine word, until the hook refuses
-- one; one that cannot be made a device is passed over. Each has a block at least, and its offset
-- and size are machine words. A backward entry gives an error, but the value is -1 only if the hook
-- has taken no partition before it, and 0 otherwise.
pub gpt_iterate-offer_all {ℓ} :
    {S : Type ℓ} (init : Init S) (hook : Hook S) (block_size : ℕ) (room : ℕ → LoomError)
    (read : (offset size : ℕ) → LoomError × (ℕ → ℕ)) (h b : ℕ → ℕ) (s : S)
    → room 92 ≡ LoomError.none
    → read block_size 92 ≡ (LoomError.none, h)
    → room (le4 h 80 * le4 h 84) ≡ LoomError.none
    → read (block_size * le8 h 72) (le4 h 80 * le4 h 84) ≡ (LoomError.none, b)
    → (gpt_valid block_size h ≡ false
        → gpt_iterate init hook block_size room read s
          ≡ stop_with (negsuc 0) LoomError.bad_part_scheme s)
      × (gpt_valid block_size h ≡ true
          → gpt_iterate init hook block_size room read s
            ≡ offer_all init hook false
                (negsuc 0)
                (gpt_table (le4 h 80) (le4 h 84) 0 b).parts
                (gpt_table (le4 h 80) (le4 h 84) 0 b).bad
                s)
      × AllWords (gpt_table (le4 h 80) (le4 h 84) 0 b).parts
gpt_iterate-offer_all init hook block_size room read h b s given has_header given_table has_table =
    let is_table = table-lem h b in
    let is_valid = header_valid-lem block_size h in
    let (refused, accepted, words) =
      gpt_iterate-loop_table init hook block_size room read h b s given has_header
        (rw (load_le-four 80 h, load_le-four 84 h) given_table)
        (rw (load_le-four 80 h, load_le-four 84 h, load_le-eight 72 h) has_table) in
    (
      λ bad. refused (is_valid ∙ bad),
      λ valid.
          accepted (is_valid ∙ valid)
          ∙ ap (λ t. offer_all init hook false (negsuc 0) t.parts t.bad s) is_table,
      subst (λ t. AllWords t.parts) is_table words,
    )

-- ===== src/Scheme/Gpt.antt =====
-- src/mods/gpt.c: the header and the entries of a GUID partition table.
pub mod Loop
pub mod Format
use loom_bootloader.Base.{
  ℕ, zero, suc, ◌+◌, ◌-◌, ◌*◌, ◌^◌, ◌≡◌, ◌<◌, List, [], ◌∷◌, Bool, true, false, not, ◌||◌, ◌&&◌,
  ◌==◌, ltb, leb, none, some, checked_mul, if◌then◌else◌, arith, refl, ap, ap₂, fun_ext, ◌∙◌,
  Bool-cases, inl, inr,
}
use mathlib.Core.Path.{subst}
use loom_bootloader.Base.Int.{ℤ, pos, negsuc}
use loom_bootloader.Error.{LoomError}
use loom_bootloader.Scheme.{End, Init, Hook, load_le, stop_with, hooked}
use loom_bootloader.Scheme.Offers.{
  Table, more, le4, le8, answered, hooked-answered, offer_one, offer_all, load_le-four,
  load_le-eight, load_le-more,
}

-- `!loomMemCmp (ent->partition_type, gpt_part_type_unused, n)`
pub is_zero : (n p : ℕ) → (ℕ → ℕ) → Bool
is_zero zero p b = true
is_zero (suc n) p b = let rest = is_zero n (p + 1) b in b p == 0 && rest

-- The range of an entry that is neither unused nor too large for a `usize`.
abbrev pub range_start : (ℕ → ℕ) → ℕ → ℕ
range_start b p = load_le 8 (p + 32) b

abbrev pub range_end : (ℕ → ℕ) → ℕ → ℕ
range_end b p = load_le 8 (p + 40) b

abbrev pub too_large : (ℕ → ℕ) → ℕ → Bool
too_large b p = leb (2 ^ 32) (range_start b p) || leb (2 ^ 32) (range_end b p - range_start b p + 1)

-- After `loomPartitionInit`; `rest` goes on with the next entry.
pub gpt_made {ℓ} :
    {S : Type ℓ} → Hook S → (offset blocks : ℕ) → LoomError × S → (call rest : S → End S) → End S
gpt_made hook o n (LoomError.none, s) call rest = hooked (hook o n s) call
gpt_made hook o n (e, s) call rest = rest s

-- The loop over the `n` entries of `size` bytes from `p` on; `ret` is `ret_val`.
pub gpt_loop {ℓ} : {S : Type ℓ} → Init S → Hook S → ℤ → (n size p : ℕ) → (ℕ → ℕ) → S → End S
gpt_loop init hook ret zero size p b s = stop_with (pos 0) LoomError.none s
gpt_loop init hook ret (suc n) size p b s =
    let rest = gpt_loop init hook ret n size (p + size) b in
    let passed = rest s in
    let blocks = range_end b p - range_start b p + 1 in
    let made =
      gpt_made hook (range_start b p) blocks (init (range_start b p) blocks s)
        (gpt_loop init hook (pos 0) n size (p + size) b) rest in
    if is_zero 16 p b
    then passed
    else if ltb (range_end b p) (range_start b p)
    then stop_with ret LoomError.bad_part_scheme s
    else if too_large b p
    then passed
    else made

-- The table of entries was read.
pub gpt_entries {ℓ} :
    {S : Type ℓ} → Init S → Hook S → (count size : ℕ) → LoomError × (ℕ → ℕ) → S → End S
gpt_entries init hook count size (LoomError.none, b) s =
    gpt_loop init hook (negsuc 0) count size 0 b s
gpt_entries init hook count size (e, b) s = stop_with (negsuc 0) e s

abbrev pub gpt_room {ℓ} : {S : Type ℓ} → LoomError → S → End S → End S
gpt_room LoomError.none s rest = rest
gpt_room e s rest = stop_with (negsuc 0) e s

-- The header's fields.
abbrev pub is_signed : (ℕ → ℕ) → Bool
is_signed b = load_le 8 0 b == 0x5452415020494645

abbrev pub header_size : (ℕ → ℕ) → ℕ
header_size b = load_le 4 12 b

abbrev pub entry_loc : (ℕ → ℕ) → ℕ
entry_loc b = load_le 8 72 b

abbrev pub entry_count : (ℕ → ℕ) → ℕ
entry_count b = load_le 4 80 b

abbrev pub entry_size : (ℕ → ℕ) → ℕ
entry_size b = load_le 4 84 b

-- The header was read; `room` is the error of the heap for a table of so many bytes, `read` reads at
-- an offset of the disk.
pub gpt_header {ℓ} :
    {S : Type ℓ}
    → Init S
    → Hook S
    → (block_size : ℕ) → (room : ℕ → LoomError) → (read : (offset size : ℕ) → LoomError × (ℕ → ℕ))
    → (ℕ → ℕ)
    → S
    → End S
gpt_header init hook block_size room read h s =
    let bad = stop_with (negsuc 0) LoomError.bad_part_scheme s in
    if not (is_signed h)
    then bad
    else if ltb (header_size h) 92
    then bad
    else if ltb (entry_size h) 128
    then bad
    else elim (checked_mul (entry_count h) (entry_size h)) [
      | none ↦ bad
      | some size ↦ elim (checked_mul block_size (entry_loc h)) [
        | none ↦ bad
        | some loc ↦
            gpt_room (room size) s
              (gpt_entries init hook (entry_count h) (entry_size h) (read loc size) s)
      ]
    ]

pub gpt_first {ℓ} :
    {S : Type ℓ}
    → Init S
    → Hook S
    → (block_size : ℕ) → (room : ℕ → LoomError) → (read : (offset size : ℕ) → LoomError × (ℕ → ℕ))
    → LoomError × (ℕ → ℕ)
    → S
    → End S
gpt_first init hook block_size room read (LoomError.none, h) s =
    gpt_header init hook block_size room read h s
gpt_first init hook block_size room read (e, h) s = stop_with (negsuc 0) e s

-- `gptPartionSchemeIterate`
pub gpt_iterate {ℓ} :
    {S : Type ℓ}
    → Init S
    → Hook S
    → (block_size : ℕ) → (room : ℕ → LoomError) → (read : (offset size : ℕ) → LoomError × (ℕ → ℕ))
    → S
    → End S
gpt_iterate init hook block_size room read s =
    gpt_room (room 92) s (gpt_first init hook block_size room read (read block_size 92) s)

-- ===== src/Fat/Dir/Root.antt =====
-- The iteration over the root region of FAT12 and FAT16 ends, at the next entry in use.
use loom_bootloader.Base.{
  ℕ, zero, suc, ◌+◌, ◌*◌, ◌<◌, ◌≡◌, Bool, true, false, Option, none, some, ok, if◌then◌else◌, u32,
  usize, bit_and, ◌==◌, ◌||◌, arith, refl, ap, inl, inr, Bool-cases, ◌^◌, ◌∙◌,
}
use mathlib.Core.Path.{subst}
use loom_bootloader.Error.{LoomError}
use loom_bootloader.Fat.{FatFs, get_root_entries_offset}
use loom_bootloader.Fat.Dir.{
  Entry, ReadEntry, IteratorCtx, is_skipped, is_end, handle_dir_entry, Outcome, root_step,
  iterate_root,
}

-- An entry whose first byte is 0xe5 is free; one whose low six attributes are the read-only, hidden,
-- system and volume bits is a part of a long name.
abbrev pub free_or_long : Entry → Bool
free_or_long e = e.file_name 0 == 0xe5 || bit_and e.attribs 0x3f == 0x0f

-- The first of `n` entries from the `i`th on that is neither free nor a part of a long name, if no
-- entry that begins with a zero byte comes before it.
unfoldable pub first_used : (ℕ → Entry) → (n i : ℕ) → Option ℕ
first_used e zero i = none
first_used e (suc n) i =
    let rest = first_used e n (i + 1) in
    if (e i).file_name 0 == 0 then none else if free_or_long (e i) then rest else some i

-- Where the iterator stands afterwards.
pub Found : (ℕ → Entry) → Option ℕ → IteratorCtx → Type 0
Found e none ctx = ctx.has_next ≡ false
Found e (some i) ctx =
    (ctx.has_next ≡ true) × (ctx.entry ≡ e i) × (ctx.r_entry ≡ i + 1) × (ctx.offset ≡ 32 * (i + 1))

-- The entries that reads of the root region give, which lies behind the tables.
unfoldable pub ReadsRoot : ReadEntry → (ℕ → Entry) → FatFs → ℕ → Type 0
ReadsRoot read e fs count =
    (i : ℕ)
    → i < count
    → read (usize ((fs.reserved_sects + fs.fat_count * fs.fat_sects) * fs.bytes_per_sect + 32 * i))
      ≡ (LoomError.none, e i)

-- The iterator behind the entry it has read.
abbrev behind : Entry → IteratorCtx → IteratorCtx
behind e ctx = record ctx {
  entry = e;
  has_next = true;
  offset = u32 (ctx.offset + 32);
  r_entry = u32 (ctx.r_entry + 1);
}

root_step-end :
    (continue : IteratorCtx → Outcome) (ctx : IteratorCtx) (e : Entry)
    → is_end e ≡ true
    → root_step continue ctx (LoomError.none, e)
      ≡ ok (LoomError.none, record ctx { entry = e; has_next = false })
unfolding root_step handle_dir_entry
root_step-end continue ctx e h = rw h refl

root_step-skipped :
    (continue : IteratorCtx → Outcome) (ctx : IteratorCtx) (e : Entry)
    → is_end e ≡ false
    → is_skipped e ≡ true
    → root_step continue ctx (LoomError.none, e) ≡ continue (behind e ctx)
unfolding root_step handle_dir_entry
root_step-skipped continue ctx e h k = rw (h, k) refl

root_step-used :
    (continue : IteratorCtx → Outcome) (ctx : IteratorCtx) (e : Entry)
    → is_end e ≡ false
    → is_skipped e ≡ false
    → root_step continue ctx (LoomError.none, e) ≡ ok (LoomError.none, behind e ctx)
unfolding root_step handle_dir_entry
root_step-used continue ctx e h k = rw (h, k) refl

read_here :
    (read : ReadEntry) (e : ℕ → Entry) (fs : FatFs) (ctx : IteratorCtx)
    → ReadsRoot read e fs ctx.count
    → ctx.offset ≡ 32 * ctx.r_entry
    → ctx.r_entry < ctx.count
    → read (usize (get_root_entries_offset fs + ctx.offset)) ≡ (LoomError.none, e ctx.r_entry)
unfolding ReadsRoot get_root_entries_offset
read_here read e fs ctx r off lt =
    let first = (fs.reserved_sects + fs.fat_count * fs.fat_sects) * fs.bytes_per_sect in
    let wrap : usize (usize first + ctx.offset) ≡ usize (first + 32 * ctx.r_entry) = omega arith in
    ap read wrap ∙ r ctx.r_entry lt

-- A position in the region: a round of the loop.
iterate_root-inside :
    (f : ℕ) (read : ReadEntry) (e : ℕ → Entry) (fs : FatFs) (ctx : IteratorCtx)
    → ReadsRoot read e fs ctx.count
    → ctx.offset ≡ 32 * ctx.r_entry
    → ctx.r_entry < ctx.count
    → iterate_root (suc f) read fs ctx
      ≡ root_step (iterate_root f read fs) ctx (LoomError.none, e ctx.r_entry)
unfolding iterate_root
iterate_root-inside f read e fs ctx r off lt =
    ground (arith, ap (root_step (iterate_root f read fs) ctx) (read_here read e fs ctx r off lt))

iterate_root-outside :
    (f : ℕ) (read : ReadEntry) (fs : FatFs) (ctx : IteratorCtx)
    → ctx.r_entry + 0 ≡ ctx.count
    → iterate_root (suc f) read fs ctx ≡ ok (LoomError.none, record ctx { has_next = false })
unfolding iterate_root
iterate_root-outside f read fs ctx q = ground arith

used_Found :
    (e : ℕ → Entry) (ctx : IteratorCtx)
    → ctx.r_entry < 2 ^ 16
    → ctx.offset ≡ 32 * ctx.r_entry
    → Found e (some ctx.r_entry) (behind (e ctx.r_entry) ctx)
unfolding Found
used_Found e ctx small off = (refl, refl, omega arith, omega arith)

none_Found : (e : ℕ → Entry) (ctx : IteratorCtx) → Found e none (record ctx { has_next = false })
unfolding Found
none_Found e ctx = refl

end_Found :
    (e : ℕ → Entry) (ctx : IteratorCtx)
    → Found e none (record ctx { entry = e ctx.r_entry; has_next = false })
unfolding Found
end_Found e ctx = refl

Found-at :
    (e : ℕ → Entry) (n : ℕ) (ctx : IteratorCtx) (i j : ℕ)
    → i ≡ j
    → Found e (first_used e n i) ctx
    → Found e (first_used e n j) ctx
Found-at e n ctx i j q h = subst (λ k. Found e (first_used e n k) ctx) q h

-- fatIterateDirEntriesRoot16_12 ends without an error at the first entry from its position on that
-- is in use and has a short name, and steps behind it; or without an entry, if the directory or its
-- region ends before. The reads give the entries of the region, which has at most 2^16; fuel for
-- one more than the entries left is enough.
pub iterate_root-Found :
    (fuel n : ℕ) (read : ReadEntry) (e : ℕ → Entry) (fs : FatFs) (ctx : IteratorCtx)
    → ReadsRoot read e fs ctx.count
    → ctx.count < 2 ^ 16
    → ctx.offset ≡ 32 * ctx.r_entry
    → ctx.r_entry + n ≡ ctx.count
    → n < fuel
    → (ctx' : IteratorCtx) × ((iterate_root fuel read fs ctx ≡ ok (LoomError.none, ctx'))
        × Found e (first_used e n ctx.r_entry) ctx')
unfolding first_used
iterate_root-Found zero n read e fs ctx r small off q lt = absurd (omega arith)
iterate_root-Found (suc f) zero read e fs ctx r small off q lt =
    (record ctx { has_next = false }, (iterate_root-outside f read fs ctx q, none_Found e ctx))
iterate_root-Found (suc f) (suc n) read e fs ctx r small off q lt =
    let i = ctx.r_entry in
    let here = iterate_root-inside f read e fs ctx r off (omega arith) in
    elim (Bool-cases (is_end (e i))) [
      | inl ends ↦ rw ends (
        record ctx { entry = e i; has_next = false },
        (here ∙ root_step-end (iterate_root f read fs) ctx (e i) ends, end_Found e ctx),
      )
      | inr goes ↦ elim (Bool-cases (is_skipped (e i))) [
        | inl skipped ↦
            let (ctx', (run, found)) =
              iterate_root-Found f n read e fs (behind (e i) ctx) r small (omega arith)
                (omega arith) (omega arith) in
            rw (goes, skipped)
              (
                ctx',
                (
                  here ∙ root_step-skipped (iterate_root f read fs) ctx (e i) goes skipped ∙ run,
                  Found-at e n ctx' (u32 (i + 1)) (i + 1) (omega arith) found,
                ),
              )
        | inr used ↦
            rw (goes, used)
              (
                behind (e i) ctx,
                (
                  here ∙ root_step-used (iterate_root f read fs) ctx (e i) goes used,
                  used_Found e ctx (omega arith) off,
                ),
              )
      ]
    ]

-- ===== src/Fat/Dir/Lookup.antt =====
-- A search in a directory depends on the characters of the name alone.
use loom_bootloader.Base.{
  some, true, false, ◌&&◌, bit_or, u32, ◌*◌, ◌^◌, ℕ, zero, suc, ◌<◌, ◌≡◌, not, ◌||◌, none, ok,
  if◌then◌else◌, has_flag, refl, ap₂, bind_cong,
}
use loom_bootloader.Error.{LoomError}
use loom_bootloader.Fat.{FatType, FatFs}
use loom_bootloader.Fat.Name.{Name}
use loom_bootloader.Fat.Name.Reads.{filename_cmp-cong}
use loom_bootloader.Fat.Dir.{
  Entry, is_fat32, dir_entry_get_cluster, IteratorCtx, Outcome, Next, ReadEntry,
  iterate_dir_entries, find_step, find_dir_entry, iterator_reset, start_at,
}

abbrev pub Looks : ((size : ℕ) → Name → IteratorCtx → Outcome) → Type 0
Looks find =
    (n : ℕ) (f g : Name) (ctx : IteratorCtx)
    → ((i : ℕ) → i < n → f i ≡ g i)
    → find n f ctx ≡ find n g ctx

find_step-cong :
    (m : ℕ) (f g : Name) (r : LoomError × IteratorCtx) (k l : IteratorCtx → Outcome)
    → ((x : ℕ) → x < m → f x ≡ g x)
    → ((ctx : IteratorCtx) → k ctx ≡ l ctx)
    → find_step m f k r ≡ find_step m g l r
unfolding find_step
find_step-cong m f g (LoomError.none, ctx) k l h same =
    ap₂
      (λ b o.
        if not ctx.has_next
        then ok (LoomError.noent, ctx)
        else if has_flag ctx.entry.attribs 0x8 || not b
        then o
        else ok (LoomError.none, ctx))
      (filename_cmp-cong m f g ctx.entry.file_name h) (same ctx)
find_step-cong m f g (_, ctx) k l h same = refl

pub find_dir_entry-Looks :
    (rounds fuel : ℕ) (next : Next) (read : ReadEntry) (fs : FatFs)
    → Looks (λ n name ctx. find_dir_entry rounds fuel n name next read fs ctx)
unfolding find_dir_entry
find_dir_entry-Looks zero fuel next read fs = λ n f g ctx h. refl
find_dir_entry-Looks (suc rounds) fuel next read fs = λ n f g ctx h.
    bind_cong (iterate_dir_entries fuel next read fs ctx)
      (find_step n f (find_dir_entry rounds fuel n f next read fs))
      (find_step n g (find_dir_entry rounds fuel n g next read fs))
      (λ r.
        find_step-cong n f g r (find_dir_entry rounds fuel n f next read fs)
          (find_dir_entry rounds fuel n g next read fs) h
          (λ ctx1. find_dir_entry-Looks rounds fuel next read fs n f g ctx1 h))

-- Where a directory starts that is not the root: at the entry's cluster, of two halves.
abbrev pub first_cluster : Entry → ℕ
first_cluster e = bit_or e.cluster_lo (u32 (e.cluster_hi * 2 ^ 16))

abbrev pub in_directory : Entry → IteratorCtx → IteratorCtx
in_directory e ctx = record ctx { cluster = first_cluster e; root16_12 = false; offset = 0 }

-- Where the root starts, from what the file system keeps of it: its cluster, or its entries.
abbrev pub in_root : FatType → ℕ → IteratorCtx → IteratorCtx
in_root FatType.fat32 root ctx = record ctx { cluster = root; root16_12 = false; offset = 0 }
in_root _ root ctx = record ctx { r_entry = 0; count = root; root16_12 = true; offset = 0 }

pub dir_entry_get_cluster-first : (e : Entry) → dir_entry_get_cluster e ≡ first_cluster e
unfolding dir_entry_get_cluster
dir_entry_get_cluster-first e = refl

start-root :
    (t : FatType) (root : ℕ) (ctx : IteratorCtx)
    → (if is_fat32 t
        then record ctx { cluster = root; root16_12 = false; offset = 0 }
        else record ctx { r_entry = 0; count = root; root16_12 = true; offset = 0 })
      ≡ in_root t root ctx
start-root FatType.fat32 root ctx = refl
start-root FatType.fat16 root ctx = refl
start-root FatType.fat12 root ctx = refl

pub iterator_reset-root :
    (fs : FatFs) (ctx : IteratorCtx) → (iterator_reset none fs ctx).1 ≡ in_root fs.type fs.root ctx
unfolding iterator_reset start_at
iterator_reset-root fs ctx = start-root fs.type fs.root ctx

-- Only an entry with the flag of a directory and without the one of a volume is entered.
pub iterator_reset-entry :
    (e : Entry) (fs : FatFs) (ctx : IteratorCtx)
    → iterator_reset (some e) fs ctx ≡ (
        if not (has_flag e.attribs 0x8) && has_flag e.attribs 0x10
        then (LoomError.none, in_directory e ctx)
        else (LoomError.notdir, ctx))
unfolding iterator_reset start_at dir_entry_get_cluster
iterator_reset-entry e fs ctx = refl

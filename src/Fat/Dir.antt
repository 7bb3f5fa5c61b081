-- ===== src/Fat/Dir.antt =====
-- src/mods/fat/dirent.c: the iterator over the entries of a directory. `ReadEntry` stands for the
-- cached read of an entry at an offset of the device, `Next` for `fatNextCluster`. An iteration
-- over clusters that runs out of fuel has not ended.
pub mod Root
pub mod Lookup
mod Samples
use loom_bootloader.Base.{
  ℕ, zero, suc, ◌+◌, ◌*◌, Bool, true, false, ◌||◌, ◌&&◌, not, Option, none, some, Exec, ok, hang,
  ◌>>=◌, ◌^◌, ◌==◌, leb, if◌then◌else◌, bit_and, bit_or, has_flag, u32, usize,
}
use loom_bootloader.Error.{LoomError}
use loom_bootloader.Fat.{
  FatType, FatFs, get_cluster_limit, get_cluster_size, get_cluster_offset, get_root_entries_offset,
}
use loom_bootloader.Fat.Name.{Name, filename_cmp}

-- `fat_dir_entry`, the fields that are read.
pub record Entry : Type 0 where
  pub file_name : Name
  pub attribs : ℕ
  pub cluster_hi : ℕ
  pub cluster_lo : ℕ
  pub file_size : ℕ

abbrev pub ReadEntry : Type 0
ReadEntry = ℕ → LoomError × Entry

abbrev pub Next : Type 0
Next = ℕ → FatFs → LoomError × ℕ

-- `fat_iterator_ctx`; of the union, `cluster` is used below the root, the others in it.
pub record IteratorCtx : Type 0 where
  pub has_next : Bool
  pub root16_12 : Bool
  pub offset : ℕ
  pub cluster : ℕ
  pub r_entry : ℕ
  pub count : ℕ
  pub entry : Entry

abbrev pub is_file : Entry → Bool
is_file e = not (has_flag e.attribs 0x18)

abbrev pub is_directory : Entry → Bool
is_directory e = not (has_flag e.attribs 0x8) && has_flag e.attribs 0x10

pub dir_entry_get_cluster : Entry → ℕ
dir_entry_get_cluster e = bit_or e.cluster_lo (u32 (e.cluster_hi * 2 ^ 16))

abbrev pub is_fat32 : FatType → Bool
is_fat32 FatType.fat32 = true
is_fat32 _ = false

-- The start of an iteration over a directory, `none` for the root.
pub start_at : Option Entry → FatFs → IteratorCtx → IteratorCtx
start_at (some d) fs ctx = record ctx {
  cluster = dir_entry_get_cluster d;
  root16_12 = false;
  offset = 0;
}
start_at none fs ctx =
    if is_fat32 fs.type
    then record ctx { cluster = fs.root; root16_12 = false; offset = 0 }
    else record ctx { r_entry = 0; count = fs.root; root16_12 = true; offset = 0 }

pub iterator_reset : Option Entry → FatFs → IteratorCtx → LoomError × IteratorCtx
iterator_reset none fs ctx = (LoomError.none, start_at none fs ctx)
iterator_reset (some d) fs ctx =
    if is_directory d then (LoomError.none, start_at (some d) fs ctx) else (LoomError.notdir, ctx)

-- An entry that is passed over: free, or a part of a long name.
abbrev pub is_skipped : Entry → Bool
is_skipped e = e.file_name 0 == 0xe5 || bit_and e.attribs 0x3f == 0x0f

abbrev pub is_end : Entry → Bool
is_end e = e.file_name 0 == 0

-- The entry just read: where the iterator then stands, and whether it goes on.
pub handle_dir_entry : IteratorCtx → IteratorCtx × Bool
handle_dir_entry ctx =
    if is_end ctx.entry
    then (record ctx { has_next = false }, false)
    else (record ctx { offset = u32 (ctx.offset + 32); has_next = true }, is_skipped ctx.entry)

abbrev pub Outcome : Type 0
Outcome = Exec (LoomError × IteratorCtx)

-- What follows the read of an entry of the root, with the rest of the loop.
pub root_step : (IteratorCtx → Outcome) → IteratorCtx → LoomError × Entry → Outcome
root_step continue ctx (LoomError.none, e) =
    let (ctx1, cont) = handle_dir_entry (record ctx { entry = e }) in
    let ctx2 = if ctx1.has_next then record ctx1 { r_entry = u32 (ctx1.r_entry + 1) } else ctx1 in
    if cont then continue ctx2 else ok (LoomError.none, ctx2)
root_step continue ctx (e, _) = ok (e, ctx)

pub iterate_root : (fuel : ℕ) → ReadEntry → FatFs → IteratorCtx → Outcome
iterate_root zero read fs ctx = hang
iterate_root (suc n) read fs ctx =
    if leb ctx.count ctx.r_entry
    then ok (LoomError.none, record ctx { has_next = false })
    else root_step (iterate_root n read fs) ctx
        (read (usize (get_root_entries_offset fs + ctx.offset)))

pub cluster_step : (IteratorCtx → Outcome) → IteratorCtx → LoomError × Entry → Outcome
cluster_step continue ctx (LoomError.none, e) =
    let (ctx1, cont) = handle_dir_entry (record ctx { entry = e }) in
    if cont then continue ctx1 else ok (LoomError.none, ctx1)
cluster_step continue ctx (e, _) = ok (e, ctx)

-- The read at the iterator's offset in its cluster.
pub cluster_read : (IteratorCtx → Outcome) → ReadEntry → FatFs → IteratorCtx → Outcome
cluster_read continue read fs ctx =
    cluster_step continue ctx (read (usize (get_cluster_offset ctx.cluster fs + ctx.offset)))

-- The step to the next cluster, which `next` gives.
pub cluster_next :
    (IteratorCtx → Outcome) → ReadEntry → FatFs → IteratorCtx → LoomError × ℕ → Outcome
cluster_next continue read fs ctx (LoomError.none, c) =
    if leb (get_cluster_limit fs.type) c
    then ok (LoomError.none, record ctx { cluster = c; has_next = false })
    else cluster_read continue read fs (record ctx { cluster = c; offset = 0 })
cluster_next continue read fs ctx (e, _) = ok (e, ctx)

pub iterate_cluster : (fuel : ℕ) → Next → ReadEntry → FatFs → IteratorCtx → Outcome
iterate_cluster zero next read fs ctx = hang
iterate_cluster (suc n) next read fs ctx =
    if leb (get_cluster_size fs) ctx.offset
    then cluster_next (iterate_cluster n next read fs) read fs ctx (next ctx.cluster fs)
    else cluster_read (iterate_cluster n next read fs) read fs ctx

pub iterate_dir_entries : (fuel : ℕ) → Next → ReadEntry → FatFs → IteratorCtx → Outcome
iterate_dir_entries fuel next read fs ctx =
    if ctx.root16_12 then iterate_root fuel read fs ctx else iterate_cluster fuel next read fs ctx

-- One round of `fatFindDirEntry`, with the rest of its loop.
pub find_step : (size : ℕ) → Name → (IteratorCtx → Outcome) → LoomError × IteratorCtx → Outcome
find_step size name continue (LoomError.none, ctx) =
    if not ctx.has_next
    then ok (LoomError.noent, ctx)
    else if has_flag ctx.entry.attribs 0x8 || not (filename_cmp size name ctx.entry.file_name)
    then continue ctx
    else ok (LoomError.none, ctx)
find_step size name continue (e, ctx) = ok (e, ctx)

-- `rounds` bounds the entries looked at, `fuel` each iteration.
pub find_dir_entry :
    (rounds fuel size : ℕ) → Name → Next → ReadEntry → FatFs → IteratorCtx → Outcome
find_dir_entry zero fuel size name next read fs ctx = hang
find_dir_entry (suc n) fuel size name next read fs ctx =
    iterate_dir_entries fuel next read fs ctx
    >>= find_step size name (find_dir_entry n fuel size name next read fs)

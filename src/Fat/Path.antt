-- ===== src/Fat/Path.antt =====
-- src/mods/fat/fat.c, `fatSearchPath` and `fatOpen`: the file that a path leads to. `Find` stands
-- for `fatFindDirEntry` from the iterator's position on; indices in a path do not wrap, since it is
-- a string in memory.
pub mod Parts
pub mod Walk
pub mod Open
mod Samples
use loom_bootloader.Base.{
  ℕ, zero, suc, ◌+◌, Bool, true, false, not, ◌||◌, ◌&&◌, Option, none, some, Exec, ok, hang, ◌>>=◌,
  ◌==◌, if◌then◌else◌,
}
use loom_bootloader.Error.{LoomError}
use loom_bootloader.Fat.{FatFs}
use loom_bootloader.Fat.Name.{Name}
use loom_bootloader.Fat.Dir.{
  Entry, ReadEntry, Next, IteratorCtx, Outcome, is_file, dir_entry_get_cluster, iterator_reset,
  find_dir_entry,
}
use loom_bootloader.Fat.File.{FatFile}

-- The first loop: the index of the first character from `p` on that is no slash.
pub skip_slashes : (fuel : ℕ) → Name → ℕ → Exec ℕ
skip_slashes zero path p = hang
skip_slashes (suc k) path p =
    let rest = skip_slashes k path (p + 1) in if path p == 47 then rest else ok p

-- The second loop: the characters from `i + run` on up to a slash or the end are counted too.
pub part_length : (fuel : ℕ) → Name → (i run : ℕ) → Exec ℕ
part_length zero path i run = hang
part_length (suc k) path i run =
    let rest = part_length k path i (run + 1) in
    if path (i + run) == 0 || path (i + run) == 47 then ok run else rest

-- What a search gives: an error, or `*found` and `root`. No caller reads `*found` after an error.
pub data Lookup : Type 0 where
  failed : LoomError → IteratorCtx → Lookup
  done : IteratorCtx → (found root : Bool) → Lookup

abbrev pub Find : Type 0
Find = (size : ℕ) → Name → IteratorCtx → Outcome

-- `fatFindDirEntry`
abbrev pub finds : (rounds fuel : ℕ) → Next → ReadEntry → FatFs → Find
finds rounds fuel next read fs n name ctx = find_dir_entry rounds fuel n name next read fs ctx

-- The iterator behind `fatIteratorReset`, with the rest of the search.
pub part_entered : LoomError × IteratorCtx → (IteratorCtx → Exec Lookup) → Exec Lookup
part_entered (LoomError.none, ctx) rest = rest ctx
part_entered (e, ctx) rest = ok (failed e ctx)

-- A part of the path was looked up, `ch` is the character behind it.
pub part_found :
    FatFs → (ch : ℕ) → LoomError × IteratorCtx → (IteratorCtx → Exec Lookup) → Exec Lookup
part_found fs ch (LoomError.none, ctx) rest =
    if ch == 0
    then ok (done ctx true false)
    else part_entered (iterator_reset (some ctx.entry) fs ctx) rest
part_found fs ch (e, ctx) rest = ok (failed e ctx)

-- A round of the loop, from the part of `run` characters at `i` on.
pub search_round :
    Find
    → FatFs
    → (path : Name) → (i run : ℕ) → IteratorCtx
    → (found root : Bool) → (IteratorCtx → Bool → Bool → ℕ → Exec Lookup)
    → Exec Lookup
search_round find fs path i run ctx found root rest =
    if run == 0
    then (if path (i + run) == 0 then ok (done ctx found root) else rest ctx found root (i + run))
    else do
      r ← find run (λ j. path (i + j)) ctx
      part_found fs (path (i + run)) r (λ ctx1. rest ctx1 true false (i + run))

pub search_loop :
    (fuel part_fuel : ℕ) → Find → FatFs → Name → IteratorCtx → (found root : Bool) → ℕ → Exec Lookup
search_loop zero k find fs path ctx found root p = hang
search_loop (suc l) k find fs path ctx found root p = do
  i ← skip_slashes k path p
  run ← part_length k path i 0
  search_round find fs path i run ctx found root (search_loop l k find fs path)

-- The end of `fatSearchPath`; `oroot` tells whether the caller asks for the root.
pub with_root : (oroot : Bool) → Lookup → Lookup
with_root oroot (failed e ctx) = failed e ctx
with_root oroot (done ctx found root) = done ctx (found || (oroot && root)) root

pub search_path :
    (fuel : ℕ) → Find → FatFs → (oroot : Bool) → Name → IteratorCtx → (found : Bool) → Exec Lookup
search_path l find fs oroot path ctx found = do
  r ← search_loop l l find fs path ctx found true 0
  ok (with_root oroot r)

-- What `fatOpen` gives: a file, an error, or no room on the heap.
pub data Opened : Type 0 where
  opened : FatFile → Opened
  refused : LoomError → Opened
  no_room : Opened

abbrev pub file_of : Entry → FatFile
file_of e = record {
  size = e.file_size;
  position = 0;
  cluster = dir_entry_get_cluster e;
  pos = dir_entry_get_cluster e;
}

-- `room` tells whether the heap has room for the file's context.
pub open_entry : (room : Bool) → Lookup → Opened
open_entry room (failed e ctx) = refused e
open_entry room (done ctx found root) =
    if not found || not (is_file ctx.entry)
    then refused LoomError.isdir
    else if room
    then opened (file_of ctx.entry)
    else no_room

-- `fatOpen` from an iterator on the stack, `ctx`.
pub open_file : (fuel : ℕ) → Find → FatFs → (room : Bool) → IteratorCtx → Name → Exec Opened
open_file l find fs room ctx path = do
  r ← search_path l find fs false path (iterator_reset none fs ctx).1 false
  ok (open_entry room r)

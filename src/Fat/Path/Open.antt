-- ===== src/Fat/Path/Open.antt =====
-- What `fatOpen` opens.
use loom_bootloader.Base.{
  has_flag, Bool-cases, inl, inr, ℕ, ◌<◌, ◌≡◌, List, Bool, true, false, not, ◌||◌, ◌&&◌, Exec, ok,
  ◌>>=◌, if◌then◌else◌, length, refl, ap, ◌∙◌, bind_cong, bind_assoc,
}
use loom_bootloader.Base.Split.{split_on}
use loom_bootloader.Base.Text.{Text}
use loom_bootloader.Error.{LoomError}
use loom_bootloader.Fat.{FatFs}
use loom_bootloader.Fat.Name.{Name}
use loom_bootloader.Fat.Dir.{IteratorCtx, Next, ReadEntry, Entry}
use loom_bootloader.Fat.Dir.Lookup.{
  first_cluster, in_root, dir_entry_get_cluster-first, find_dir_entry-Looks, iterator_reset-root,
}
use loom_bootloader.Fat.Path.{
  Find, finds, Opened, opened, refused, no_room, file_of, open_entry, with_root, search_path,
  search_loop, open_file,
}
use loom_bootloader.Fat.Path.Parts.{follow, any_part, ended}
use loom_bootloader.Fat.Path.Walk.{search_loop-Followed}

-- What a walk along the path opens.
abbrev pub opened_by : (room some_part : Bool) → LoomError × IteratorCtx → Exec Opened
opened_by room some_part (LoomError.none, ctx) = ok (
    if not some_part || has_flag ctx.entry.attribs 0x18
    then refused LoomError.isdir
    else if room
    then opened (record {
      size = ctx.entry.file_size;
      position = 0;
      cluster = first_cluster ctx.entry;
      pos = first_cluster ctx.entry;
    })
    else no_room)
opened_by room some_part (e, ctx) = ok (refused e)

file_of-first :
    (e : Entry)
    → file_of e ≡ record {
      size = e.file_size;
      position = 0;
      cluster = first_cluster e;
      pos = first_cluster e;
    }
file_of-first e =
    ap (λ c. record { size = e.file_size; position = 0; cluster = c; pos = c })
      (dir_entry_get_cluster-first e)

opened_by-ended :
    (room b : Bool) (r : LoomError × IteratorCtx)
    → (ended (false || b) (true && not b) r >>= λ x. ok (open_entry room (with_root false x)))
      ≡ opened_by room b r
unfolding open_entry with_root
opened_by-ended room true (LoomError.none, ctx) =
    elim (Bool-cases (has_flag ctx.entry.attribs 0x18)) [
      | inl folder ↦ rw folder refl
      | inr file ↦
          rw file (ap (λ f. ok (if room then opened f else no_room)) (file_of-first ctx.entry))
    ]
opened_by-ended room false (LoomError.none, ctx) = refl
opened_by-ended room b (_, ctx) = refl

-- fatOpen of a path always answers as a walk along the parts of the path between slashes, from the
-- root on: a part that is empty stays in its directory, each other part is looked up by
-- fatFindDirEntry in the directory that it stands in, by the characters of the part alone, and what
-- is followed by a slash must have the attribute of a directory and not the one of a volume. An error
-- of the walk is the answer; a path without a part and one that leads to an entry with one of these
-- attributes are refused as a directory; otherwise, if the heap has room, the file is opened at its
-- start with the entry's size and first cluster. The path is a text, and the fuel of the loops exceeds
-- its length.
pub open_file-follow :
    (fuel rounds entry_fuel : ℕ) (next : Next) (read : ReadEntry) (fs : FatFs) (room : Bool)
    (ctx : IteratorCtx) (path : Name) (s : List ℕ)
    → Text path 0 s
    → length s < fuel
    → open_file fuel (finds rounds entry_fuel next read fs) fs room ctx path ≡ (
        follow (finds rounds entry_fuel next read fs) (split_on 47 s) (in_root fs.type fs.root ctx)
        >>= opened_by room (any_part (split_on 47 s)))
unfolding open_file search_path
open_file-follow fuel rounds entry_fuel next read fs room ctx path s h lt =
    let find : Find = finds rounds entry_fuel next read fs in
    let b : Bool = any_part (split_on 47 s) in
    let walk = follow find (split_on 47 s) (in_root fs.type fs.root ctx) in
    let loop =
      search_loop-Followed fuel fuel find fs path (in_root fs.type fs.root ctx) false true 0 s
        (find_dir_entry-Looks rounds entry_fuel next read fs) lt lt h in
    ap
      (λ ctx1.
        (search_loop fuel fuel find fs path ctx1 false true 0 >>= λ r. ok (with_root false r))
        >>= λ r. ok (open_entry room r))
      (iterator_reset-root fs ctx)
    ∙ ap (λ m. (m >>= λ r. ok (with_root false r)) >>= λ r. ok (open_entry room r)) loop
    ∙ bind_assoc (walk >>= ended (false || b) (true && not b)) (λ r. ok (with_root false r))
        (λ r. ok (open_entry room r))
    ∙ bind_assoc walk (ended (false || b) (true && not b))
        (λ r. ok (open_entry room (with_root false r)))
    ∙ bind_cong walk
        (λ r.
          ended (false || b) (true && not b) r >>= λ x. ok (open_entry room (with_root false x)))
        (opened_by room b) (opened_by-ended room b)

-- ===== src/BlockDev/Cache.antt =====
-- src/core/block_dev.c, the cache of a device's blocks: a table of entries that a ring keeps in the
-- order of their use, and `loomBlockDevCachedRead`. Entries are known by their addresses; their
-- links and their block numbers stand in stores of their own, apart from the bytes.
pub mod Ring
pub mod Lookup
pub mod Slots
pub mod Moves
pub mod Answer
pub mod Init
pub mod Read
mod Samples
use loom_bootloader.Base.{
  ℕ, zero, suc, ◌+◌, ◌-◌, ◌*◌, ◌/◌, ◌%◌, ◌^◌, min, [], ◌∷◌, Bool, true, false, ◌||◌, ◌&&◌, not,
  Option, none, some, Exec, ok, hang, ◌>>=◌, ◌>>◌, assert, ◌==◌, if◌then◌else◌, usize, checked_mul,
}
use loom_bootloader.Error.{LoomError}
use loom_bootloader.Memory.{Memory, null, mem_copy}
use loom_bootloader.LinkedList.{Links, update, set_prev, set_next, unlink, insert_before}
use loom_bootloader.BlockDev.{BlockDev, request, block_dev_read}

-- `BLOCK_UNSET`
abbrev pub block_unset : ℕ
block_unset = 2 ^ 64 - 1

-- `sizeof (block_dev_cache_entry)` and `sizeof (loom_io_req)`
abbrev pub entry_size : ℕ
entry_size = 16

abbrev pub io_req_size : ℕ
io_req_size = 24

-- `loom_block_dev_cache`, with the entries' fields by address; `slots` is its `data`.
pub record Cache : Type 0 where
  pub count : ℕ
  pub block_size : ℕ
  pub table : ℕ
  pub mru : ℕ
  pub slots : ℕ
  pub io_reqs : ℕ
  pub links : Links
  pub block : ℕ → ℕ

pub link_mru_head : Cache → ℕ → Cache
link_mru_head c e =
    if c.mru == null
    then record c { links = set_next e e (set_prev e e c.links); mru = e }
    else record c { links = insert_before c.mru e c.links; mru = e }

-- `getCacheEntryData`
abbrev pub entry_data : Cache → ℕ → ℕ
entry_data c e = c.slots + c.block_size * ((e - c.table) / entry_size)

abbrev pub set_block : Cache → (e block : ℕ) → Cache
set_block c e b = record c { block = update c.block e b }

abbrev is_allocated : Cache → Bool
is_allocated c = not (c.table == null) && not (c.mru == null) && not (c.slots == null)

-- The entry found becomes the most recently used.
pub touch : Cache → ℕ → Cache
touch c e = if e == c.mru then c else link_mru_head (record c { links = unlink e c.links }) e

pub lookup_loop : (fuel : ℕ) → Cache → (block e : ℕ) → Exec (Option ℕ × Cache)
lookup_loop zero c b e = hang
lookup_loop (suc n) c b e =
    let rest = lookup_loop n c b (c.links.next e) in
    if c.block e == b
    then ok (some (entry_data c e), touch c e)
    else if c.links.next e == c.mru
    then ok (none, c)
    else rest

-- The entries are as many as `count`, so the loop ends with that much fuel.
pub lookup : Cache → (block : ℕ) → Exec (Option ℕ × Cache)
lookup c b = do
  assert (is_allocated c)
  if b == block_unset then ok (none, c) else lookup_loop c.count c b c.mru

pub invalidate_loop : (fuel : ℕ) → Cache → (e : ℕ) → Exec Cache
invalidate_loop zero c e = hang
invalidate_loop (suc n) c e =
    let rest = invalidate_loop n (set_block c e block_unset) (c.links.next e) in
    if c.links.next e == c.mru then ok (set_block c e block_unset) else rest

pub invalidate : Cache → Exec Cache
invalidate c = do assert (is_allocated c); invalidate_loop c.count c c.mru

pub cache_store : Cache → (block src : ℕ) → Memory → Exec (Cache × Memory)
cache_store c b src m = do
  assert (is_allocated c && not (c.io_reqs == null))
  m1 ← mem_copy (entry_data c (c.links.prev c.mru)) src c.block_size m
  ok (record (set_block c (c.links.prev c.mru) b) { mru = c.links.prev c.mru }, m1)

-- The loop that links the entries from the `i`th on, `n` of them.
pub init_loop : (n i : ℕ) → Cache → Cache
init_loop zero i c = c
init_loop (suc n) i c =
    let e = c.table + i * entry_size in
    init_loop n (suc i) (link_mru_head (set_block c e block_unset) e)

module _ {ℓ} {H : Type ℓ} (alloc : ℕ → H → ℕ × H) (free : ℕ → H → H) where
  -- `out2`; `slots`, the source's `data`, is not released.
  abbrev give_up : Cache → H → Option Cache × H
  give_up c h = (none, free c.io_reqs (free c.table h))

  abbrev pub init_entries : Cache → (count block_size : ℕ) → Cache
  init_entries c n bs = record (init_loop n 0 c) { count = n; block_size = bs }

  abbrev pub init_reqs : Cache → (count block_size : ℕ) → H → Option Cache × H
  init_reqs c n bs h =
      let (p, h1) = alloc (usize (io_req_size * n)) h in
      if p == null then give_up c h1 else (some (init_entries (record c { io_reqs = p }) n bs), h1)

  abbrev pub init_data : Cache → (count block_size : ℕ) → H → Option Cache × H
  init_data c n bs h = elim (checked_mul bs n) [
    | none ↦ give_up c h
    | some bytes ↦
        let (p, h1) = alloc bytes h in
        if p == null then give_up c h1 else init_reqs (record c { slots = p }) n bs h1
  ]

  abbrev pub init_table : Cache → (count block_size : ℕ) → H → Option Cache × H
  init_table c n bs h = elim (checked_mul entry_size n) [
    | none ↦ (none, h)
    | some bytes ↦
        let (p, h1) = alloc bytes h in
        if p == null
        then (none, h1)
        else init_data (record c { table = p; io_reqs = null; slots = null }) n bs h1
  ]

  -- `alloc` and `free` are the heap's; `none` is a failure.
  pub cache_init : Cache → (count block_size : ℕ) → H → Exec (Option Cache × H)
  cache_init c n bs h = do
    assert (not (n == 0) && not (bs == 0))
    ok (init_table (record c { count = 0; mru = null }) n bs h)

-- The result of a read through the cache.
abbrev pub CachedRead : Type 0
CachedRead = Exec (LoomError × Memory × Cache)

-- A read that goes past the cache.
abbrev pub uncached : Exec (LoomError × Memory) → Cache → CachedRead
uncached r c = do (e, m) ← r; ok (e, m, c)

-- `do_copy`
abbrev pub copy_out : (buf p count : ℕ) → Memory → Cache → CachedRead
copy_out buf p n m c = do m1 ← mem_copy buf p n m; ok (LoomError.none, m1, c)

-- The block that was read into the least recently used entry, or the error.
pub filled_entry : (lru block buf p count : ℕ) → Cache → LoomError × Memory → CachedRead
filled_entry lru b buf p n c (LoomError.none, m) =
    copy_out buf p n m (record (set_block c lru b) { mru = lru })
filled_entry lru b buf p n c (e, m) = ok (e, m, set_block c lru block_unset)

pub read_through : BlockDev → (block bo buf count : ℕ) → Memory → Option ℕ × Cache → CachedRead
read_through dev b bo buf n m (some p, c) = copy_out buf (p + bo) n m c
read_through dev b bo buf n m (none, c) = do
  r ← dev.readv (request b 1 (entry_data c (c.links.prev c.mru)) ∷ []) m
  filled_entry (c.links.prev c.mru) b buf (entry_data c (c.links.prev c.mru) + bo) n c r

-- A read inside one block.
pub read_block : BlockDev → Cache → (offset size buf : ℕ) → Memory → CachedRead
read_block dev c offset size buf m = do
  found ← lookup c (offset / dev.block_size)
  read_through dev (offset / dev.block_size) (offset % dev.block_size) buf
      (min (dev.block_size - offset % dev.block_size) size) m found

-- A read of a byte at least.
pub read_some : BlockDev → Cache → (offset size buf : ℕ) → Memory → CachedRead
read_some dev c offset size buf m = do
  assert (not (c.count == 0))
  if offset / dev.block_size == usize (offset + size - 1) / dev.block_size
      then read_block dev c offset size buf m
      else uncached (block_dev_read dev offset size buf m) c

-- A device without a cache, which reads by `block_dev_read` too, is left out.
pub cached_read : BlockDev → Cache → (offset size buf : ℕ) → Memory → CachedRead
cached_read dev c offset size buf m = do
  assert (not (dev.scratch == null) && not (dev.block_size == 0))
  if size == 0
      then uncached (block_dev_read dev offset size buf m) c
      else read_some dev c offset size buf m

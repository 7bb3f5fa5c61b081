-- ===== src/Heap.antt =====
-- src/core/mm.c: the heap. Its arenas are chunks side by side, each with the size of the one before
-- it (boundary tags); the free ones are linked in a list. The store maps each address to the
-- 32-bit word there, and holds the headers; what the owners of allocations write is not in it.
pub mod Free
pub mod Segment
pub mod Unlink
pub mod Tiles
pub mod Arena
pub mod Hole
pub mod Split
pub mod Search
pub mod Alloc
pub mod Iterate
pub mod AddRegion
pub mod Ranges
pub mod Grow
pub mod Release
mod Samples
use loom_bootloader.Base.{
  ℕ, zero, suc, ◌+◌, ◌-◌, ◌*◌, ◌/◌, ◌%◌, Bool, true, false, ◌||◌, ◌&&◌, not, Option, none, some,
  Exec, ok, panic, hang, ◌>>=◌, ◌>>◌, assert, ◌==◌, ltb, leb, if◌then◌else◌, bit_or, bit_xor, usize,
  usize_max, checked_add, checked_sub,
}
use loom_bootloader.Error.{LoomError}
use loom_bootloader.Memory.{store}

abbrev pub Words : Type 0
Words = ℕ → ℕ

-- `MIN_ALLOC` and `CHUNK_SIZE`
abbrev pub min_alloc : ℕ
min_alloc = 16

abbrev pub chunk_header : ℕ
chunk_header = 8

-- The fields: of an arena, of a chunk, of a free chunk.
abbrev pub a_length : ℕ → ℕ
a_length a = a

abbrev pub a_freelist : ℕ → ℕ
a_freelist a = a + 4

abbrev pub a_next : ℕ → ℕ
a_next a = a + 8

abbrev pub a_magic : ℕ → ℕ
a_magic a = a + 12

abbrev pub c_prev_size : ℕ → ℕ
c_prev_size c = c

abbrev pub c_size : ℕ → ℕ
c_size c = c + 4

abbrev pub f_prev : ℕ → ℕ
f_prev c = c + 8

abbrev pub f_next : ℕ → ℕ
f_next c = c + 12

-- `x & CHUNK_SIZE_MASK`, `x & CHUNK_FLAG_MASK`, `x & CHUNK_FLAG_INUSE`
abbrev pub size_of : ℕ → ℕ
size_of x = x / 8 * 8

abbrev pub flags_of : ℕ → ℕ
flags_of x = x % 8

abbrev pub in_use : ℕ → ℕ
in_use x = x % 2

-- `ARENA_MAGIC_OF`
abbrev pub magic_of : Words → ℕ → ℕ
magic_of w a =
    bit_xor (bit_xor (bit_xor 0xfa159b7e (w (a_length a))) (w (a_freelist a))) (w (a_next a))

abbrev pub set_magic : ℕ → Words → Words
set_magic a w = store (a_magic a) (magic_of w a) w

abbrev pub arena_end : Words → ℕ → ℕ
arena_end w a = usize (a + w (a_length a))

-- `chunkUpdateNext`, at the address behind the chunk.
pub update_at : (arena chunk : ℕ) → Bool → (addr : ℕ) → Words → Exec Words
update_at a c differ addr w =
    if ltb (arena_end w a) addr
    then panic
    else if addr == arena_end w a
    then ok w
    else if ltb (arena_end w a - addr) min_alloc || not (addr % 8 == 0)
    then panic
    else if in_use (w (c_size c)) == in_use (w (c_prev_size addr))
    then (if differ then panic else ok (store (c_prev_size addr) (w (c_size c)) w))
    else (if differ then ok (store (c_prev_size addr) (w (c_size c)) w) else panic)

pub chunk_update_next : (arena chunk : ℕ) → Bool → Words → Exec Words
chunk_update_next a c differ w = elim (checked_add c (size_of (w (c_size c)))) [
  | none ↦ panic
  | some addr ↦ update_at a c differ addr w
]

-- `arena->freelist->prev = fchunk`, after its check.
abbrev pub link_back : (head f : ℕ) → Words → Exec Words
link_back head f w =
    if head == 0 then ok w else if w (f_prev head) == 0 then ok (store (f_prev head) f w) else panic

pub free_chunk_link : (arena f : ℕ) → Words → Exec Words
free_chunk_link a f w = do
  w1 ← link_back (w (a_freelist a)) f (store (f_next f) (w (a_freelist a)) (store (f_prev f) 0 w))
  ok (set_magic a (store (a_freelist a) f w1))

abbrev pub unlink_before : (arena f : ℕ) → Words → Exec Words
unlink_before a f w =
    if w (f_prev f) == 0
    then (if w (a_freelist a) == f
        then ok (set_magic a (store (a_freelist a) (w (f_next f)) w))
        else panic)
    else ok (store (f_next (w (f_prev f))) (w (f_next f)) w)

abbrev pub unlink_after : (f : ℕ) → Words → Words
unlink_after f w = if w (f_next f) == 0 then w else store (f_prev (w (f_next f))) (w (f_prev f)) w

pub free_chunk_unlink : (arena f : ℕ) → Words → Exec Words
free_chunk_unlink a f w = do
  w1 ← unlink_before a f w
  ok (store (f_prev f) 0 (store (f_next f) 0 (unlink_after f w1)))

-- The chunk that an allocation will stand in: behind the first `offset` bytes, which stay free, or
-- the whole chunk, which leaves the list. Beside it, the size it has.
abbrev pub split_front : (arena f offset : ℕ) → Words → Exec (ℕ × ℕ × Words)
split_front a f offset w =
    if offset == 0
    then (do w1 ← free_chunk_unlink a f w; ok (f, size_of (w (c_size f)), w1))
    else (let head = bit_or offset (flags_of (w (c_size f))) in
        ok (
          f + offset,
          size_of (w (c_size f)) - offset,
          store (c_size (f + offset)) 0
              (store (c_prev_size (f + offset)) head (store (c_size f) head w)),
        ))

-- The allocation takes the first `size` bytes of the chunk, and the rest becomes a free chunk if it
-- is large enough for one.
abbrev pub split_back : (arena flags size chunk chunk_size : ℕ) → Words → Exec Words
split_back a flags size c n w =
    if leb min_alloc (n - size)
    then (let word = bit_or (bit_or size flags) 1 in
        let rest = c + size in
        do
          w1 ← free_chunk_link a rest (
              store (f_next rest) 0 (
                store (f_prev rest) 0 (
                  store (c_size rest) (bit_or (n - size) flags)
                    (store (c_prev_size rest) word (store (c_size c) word w)))))
          chunk_update_next a rest false w1)
    else chunk_update_next a c true (store (c_size c) (bit_or (bit_or n flags) 1) w)

-- The result is the address behind the header.
pub free_chunk_split : (arena f offset size : ℕ) → Words → Exec (ℕ × Words)
free_chunk_split a f offset size w = do
  assert (offset % 8 == 0 && (offset == 0 || leb min_alloc offset))
  assert (not (size == 0) && size % 8 == 0)
  assert (in_use (w (c_size f)) == 0)
  assert (ltb offset (size_of (w (c_size f))))
  (c, n, w1) ← split_front a f offset w
  assert (leb size n)
  w2 ← split_back a (flags_of (w (c_size f))) size c n w1
  ok (c + chunk_header, w2)

-- The size of a chunk for `size` bytes, unless it overflows.
pub chunk_size_for : ℕ → Option ℕ
chunk_size_for size = elim (checked_add size 7) [
  | none ↦ none
  | some n ↦ checked_add (n / 8 * 8) chunk_header
]

-- The first chunk of the list from `f` on with `size` bytes at least; 0 if there is none.
pub first_fit : (fuel f size : ℕ) → Words → Exec ℕ
first_fit zero f size w = hang
first_fit (suc n) f size w =
    let rest = first_fit n (w (f_next f)) size w in
    if f == 0
    then ok 0
    else if in_use (w (c_size f)) == 0
    then (if leb size (size_of (w (c_size f))) then ok f else rest)
    else panic

-- A chunk found, of an arena; the arenas from `a` on, each with a list that ends in `fuel` steps.
pub alloc_in : (fuel arenas_fuel a size : ℕ) → Words → Exec (ℕ × Words)
alloc_in fuel zero a size w = hang
alloc_in fuel (suc n) a size w =
    let rest = alloc_in fuel n (w (a_next a)) size w in
    if a == 0 then ok (0, w) else do
      assert (magic_of w a == w (a_magic a))
      f ← first_fit fuel (w (a_freelist a)) size w
      if f == 0 then rest else free_chunk_split a f 0 size w

-- `loomAlloc`: 0 is a failure. `arenas` is the head of the list of arenas.
pub alloc : (fuel arenas_fuel arenas size : ℕ) → Words → Exec (ℕ × Words)
alloc fuel n arenas size w = elim (chunk_size_for size) [
  | none ↦ ok (0, w)
  | some bytes ↦ alloc_in fuel n arenas bytes w
]

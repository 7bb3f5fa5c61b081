-- ===== src/Heap/Release.antt =====
-- src/core/mm.c, `loomFree`: a chunk is linked into its arena's list of free chunks, and merged with
-- the free chunks before and behind it.
pub mod Loose
pub mod Step
pub mod Back
pub mod Front
pub mod Ends
pub mod Merge
pub mod Result
use loom_bootloader.Base.{
  ℕ, zero, suc, ◌+◌, ◌-◌, ◌*◌, ◌/◌, ◌%◌, Bool, true, false, not, ◌||◌, ◌&&◌, Option, none, some,
  Exec, ok, panic, hang, ◌>>=◌, ◌>>◌, ◌==◌, ltb, if◌then◌else◌, bit_or, usize, usize_max,
  checked_add, checked_sub,
}
use loom_bootloader.Memory.{store}
use loom_bootloader.Heap.{
  Words, a_next, a_magic, c_prev_size, c_size, size_of, flags_of, in_use, magic_of, arena_end,
  min_alloc, chunk_header, chunk_update_next, free_chunk_link, free_chunk_unlink,
}

-- The free chunk before, at `b`, after its checks.
abbrev pub chunk_at : (start b prev_size : ℕ) → Words → Exec ℕ
chunk_at start b n w =
    if ltb b start
    then panic
    else if not (in_use (w (c_size b)) == 0) || not (size_of (w (c_size b)) == n)
    then panic
    else ok b

pub chunk_before : (start f prev_size : ℕ) → Words → Exec ℕ
chunk_before start f n w =
    if ltb n min_alloc
    then panic
    else elim (checked_sub f n) [ none ↦ panic | some b ↦ chunk_at start b n w ]

-- The chunk before grows over `f`.
abbrev pub grow_back : (b prev_size size : ℕ) → Words → Words
grow_back b n size w = store (c_size b) (bit_or (usize (n + size)) (flags_of (w (c_size b)))) w

-- The backward loop: the chunk that it ends with.
pub merge_back : (fuel arena start f : ℕ) → Words → Exec (ℕ × Words)
merge_back zero a start f w = hang
merge_back (suc k) a start f w = if not (in_use (w (c_prev_size f)) == 0) then ok (f, w) else do
  b ← chunk_before start f (size_of (w (c_prev_size f))) w
  w1 ← free_chunk_unlink a f w
  merge_back k a start b (grow_back b (size_of (w (c_prev_size f))) (size_of (w (c_size f))) w1)

-- The size of the chunk and its end, with `newsize` bytes more.
pub with_more : (size end newsize : ℕ) → Exec (ℕ × ℕ)
with_more size c n = if ltb n min_alloc then panic else elim (checked_add size n) [
  | none ↦ panic
  | some size1 ↦ elim (checked_add c n) [ none ↦ panic | some c1 ↦ ok (size1, c1) ]
]

-- The forward loop, from the end `c` of the chunk `f` on: the end it comes to, whether a chunk in
-- use stands there, and `differ`.
pub merge_front : (fuel arena arena_end f c : ℕ) → Bool → Words → Exec (ℕ × Bool × Bool × Words)
merge_front zero a e f c differ w = hang
merge_front (suc k) a e f c differ w =
    if not (ltb c e)
    then ok (c, false, differ, w)
    else if not (in_use (w (c_size c)) == 0)
    then ok (c, true, differ, w)
    else do
      w1 ← free_chunk_unlink a c w
      (size, c1) ← with_more (size_of (w (c_size f))) c (size_of (w1 (c_size c)))
      merge_front k a e f c1 false (store (c_size f) (bit_or size (flags_of (w1 (c_size f)))) w1)

-- The chunk `f` of an arena.
pub free_in : (fuel arena f : ℕ) → Words → Exec Words
free_in k a f w = if in_use (w (c_size f)) == 0 then panic else do
  w1 ← free_chunk_link a f (store (c_size f) (w (c_size f) / 2 * 2) w)
  (g, w2) ← merge_back k a (usize (a + min_alloc)) f w1
  (c, inuse, differ, w3) ←
      merge_front k a (arena_end w a) g (usize (g + size_of (w2 (c_size g)))) true w2
  if not (c == arena_end w a) && not inuse then panic else chunk_update_next a g differ w3

-- The loop over the arenas from `a` on.
pub free_arenas : (fuel arenas_fuel a f : ℕ) → Words → Exec Words
free_arenas k zero a f w = hang
free_arenas k (suc n) a f w =
    let rest = free_arenas k n (w (a_next a)) f w in
    if a == 0
    then panic
    else if not (magic_of w a == w (a_magic a))
    then panic
    else if ltb f (usize (a + min_alloc)) || ltb (arena_end w a) (f + min_alloc)
    then rest
    else free_in k a f w

-- `loomFree`
pub free : (fuel arenas_fuel arenas p : ℕ) → Words → Exec Words
free k n arenas p w = if p == 0 then ok w else elim (checked_sub p chunk_header) [
  | none ↦ panic
  | some f ↦
      if not (f % 8 == 0) || ltb (usize_max - min_alloc) f
      then panic
      else free_arenas k n arenas f w
]

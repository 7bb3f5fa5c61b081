-- ===== src/Heap/Samples.antt =====
-- The heap on small examples.
use loom_bootloader.Base.{
  min, ◌^◌, ◌-◌, ℕ, Bool, if◌then◌else◌, ◌+◌, ◌^◌, ◌≤◌, ◌≡◌, List, [], ◌∷◌, Exec, ok, panic, hang,
  Option, none, some, arith, refl, ◌⊎◌, inl, inr,
}
use mathlib.Core.List.Perm
use loom_bootloader.Memory.{store}
use loom_bootloader.Heap.{
  Words, set_magic, alloc, chunk_size_for, alloc_in, first_fit, free_chunk_split, free_chunk_link,
  free_chunk_unlink, chunk_update_next, update_at,
}
use loom_bootloader.Heap.Free.{Links, Kept, FreeList}
use loom_bootloader.Heap.Unlink.{free_chunk_unlink-Links}
use loom_bootloader.Heap.Tiles.{spare, taken, Tiles}
use loom_bootloader.Heap.Alloc.{Region, IsHeap, Result, alloc-Result}
use loom_bootloader.Heap.Release.{free}
use loom_bootloader.Heap.Release.Result.{Released, free-Released}
use loom_bootloader.Heap.AddRegion.{heap_add_region}
use loom_bootloader.Heap.Ranges.{Grown}
use loom_bootloader.Heap.Grow.{heap_add_region-Grown}
use loom_bootloader.Heap.Iterate.{iterate_arenas, visit_all, iterate_arenas-visit_all}

-- A store by its cells.
abbrev poke : List (ℕ × ℕ) → Words
poke [] = λ x. 0
poke ((x, v) ∷ cells) = store x v (poke cells)

-- An arena at 4096 of 112 bytes: 32 free, 24 in use, 40 free.
abbrev words : Words
words = set_magic 4096 (poke cells)
  where
    cells : List (ℕ × ℕ)
    cells =
        (4096, 112)
        ∷ (4100, 4112)
        ∷ (4112, 1)
        ∷ (4116, 32)
        ∷ (4124, 4168)
        ∷ (4144, 32)
        ∷ (4148, 25)
        ∷ (4168, 25)
        ∷ (4172, 40)
        ∷ (4176, 4112)
        ∷ []

abbrev region : Region
region = record {
  at = 4096;
  length = 112;
  chunks = spare 32 ∷ taken 24 ∷ spare 40 ∷ [];
  list = 4112 ∷ 4168 ∷ [];
}

words-Links : Links words 4096 (4112 ∷ 4168 ∷ [])
unfolding FreeList
words-Links = record {
  list = (refl, omega arith, refl, (refl, omega arith, refl, refl));
  spaced = ((inl (omega arith), tt), (tt, tt));
  behind = (omega arith, (omega arith, tt));
  magic = refl;
}

words-IsHeap : IsHeap words 4096 (region ∷ [])
unfolding IsHeap Tiles
words-IsHeap = (
  refl,
  refl,
  record {
    aligned = refl;
    allocated = omega arith;
    fits = omega arith;
    tiles = (
      refl,
      refl,
      refl,
      omega arith,
      (refl, refl, refl, omega arith, (refl, refl, refl, omega arith, refl)),
    );
    links = words-Links;
    listed = Perm.refl (4112 ∷ 4168 ∷ []);
  },
  tt,
  refl,
)

alloc-Result_example :
    ((2 ^ 32 ≤ 32) × (alloc 3 2 4096 24 words ≡ ok (0, words)))
    ⊎ Result words 4096 32 (region ∷ []) (alloc 3 2 4096 24 words)
alloc-Result_example =
    alloc-Result 3 2 4096 24 words (region ∷ []) words-IsHeap (omega arith, tt) (omega arith)
      (omega arith)

-- What an allocation returns.
abbrev address : Exec (ℕ × Words) → Option ℕ
address (ok (addr, w)) = some addr
address panic = none
address hang = none

-- 24 bytes take the first free chunk as a whole, 8 the front of it; 40 do not fit with a header.
alloc_whole : address (alloc 3 2 4096 24 words) ≡ some 4120
unfolding alloc chunk_size_for alloc_in first_fit free_chunk_split free_chunk_unlink free_chunk_link
    chunk_update_next update_at
alloc_whole = refl

alloc_front : address (alloc 3 2 4096 8 words) ≡ some 4120
unfolding alloc chunk_size_for alloc_in first_fit free_chunk_split free_chunk_unlink free_chunk_link
    chunk_update_next update_at
alloc_front = refl

alloc_none : address (alloc 3 2 4096 40 words) ≡ some 0
unfolding alloc chunk_size_for alloc_in first_fit free_chunk_split free_chunk_unlink free_chunk_link
    chunk_update_next update_at
alloc_none = refl

free_chunk_unlink-Links_example :
    (w : Words) × ((free_chunk_unlink 4096 4168 words ≡ ok w)
      × Links w 4096 (4112 ∷ [])
      × Kept words w 4096 (4112 ∷ 4168 ∷ []))
free_chunk_unlink-Links_example = free_chunk_unlink-Links words 4096 4168 (4112 ∷ []) [] words-Links

-- The bytes that are free.
abbrev count_free : (addr n : ℕ) → Bool → ℕ → ℕ × ℕ
count_free addr n free total = (0, if free then total + n else total)

iterate_arenas-visit_all_example :
    iterate_arenas count_free 4 2 4096 words 0 ≡ ok (visit_all count_free (region ∷ []) 0)
iterate_arenas-visit_all_example =
    iterate_arenas-visit_all count_free 4 2 4096 words (region ∷ []) 0 words-IsHeap
      (omega arith, tt) (omega arith)

heap_add_region-Grown_example :
    Grown
      (heap_add_region 2 9000 9500 8192 4096 4096 words)
      9000
      9500
      8192
      (min (8192 + 4096) (2 ^ 32 - 1))
      (region ∷ [])
heap_add_region-Grown_example =
    heap_add_region-Grown 0 9000 9500 8192 4096 4096 words (region ∷ []) (omega arith) (omega arith)
      (omega arith) (omega arith) words-IsHeap (inr (omega arith), tt) (inl (omega arith))

-- The chunk in use, between two free ones.
free-Released_example :
    (w : Words) × ((free 2 1 4096 4152 words ≡ ok w)
      × Released words w 4096 24 [] [] region (spare 32 ∷ []) (spare 40 ∷ []))
free-Released_example =
    free-Released 2 1 4096 24 words [] [] region (spare 32 ∷ []) (spare 40 ∷ []) words-IsHeap refl
      (omega arith) (omega arith) (omega arith)

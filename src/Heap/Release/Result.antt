-- ===== src/Heap/Release/Result.antt =====
-- loomFree over all arenas of the heap.
use loom_bootloader.Base.{
  ℕ, zero, suc, ◌+◌, ◌-◌, ◌%◌, ◌≤◌, ◌<◌, ◌^◌, ◌≡◌, List, [], ◌∷◌, ◌++◌, arith, refl, sym, ap, ◌∙◌,
  ◌⊎◌, ◌==◌, ◌||◌, not, ltb, leb, true, false, ok, some, length, usize, usize_max, checked_sub,
  ==_iff,
}
use mathlib.Core.Path.{subst}
use loom_bootloader.Heap.{
  Words, a_length, a_next, a_magic, magic_of, arena_end, min_alloc, chunk_header,
}
use loom_bootloader.Heap.Tiles.{
  Chunk, spare, taken, stop, Tiles, Tiles-split, starts-within, stop-aligned, last_word,
}
use loom_bootloader.Heap.Arena.{IsArena, IsArena-large}
use loom_bootloader.Heap.Hole.{Beyond}
use loom_bootloader.Heap.Alloc.{
  Region, All, Disjoint, IsHeap, region_frame, IsHeap-frame, Beyond-Alike, All-replace, All-middle,
}
use loom_bootloader.Heap.Release.{free_in, free_arenas, free}
use loom_bootloader.Heap.Release.Back.{spares, total}
use loom_bootloader.Heap.Release.Front.{NoSpareFirst}
use loom_bootloader.Heap.Release.Merge.{free_in-Freed}

-- What loomFree has done to the arena `g` between `gs` and `hs`, whose chunk of `n` bytes between
-- `us` and `vs` was freed: it is one free chunk with the free chunks right before it and behind it,
-- which stands between chunks in use, and the heap is well formed.
pub record Released (w w' : Words) (p n : ℕ) (gs hs : List Region) (g : Region) (us vs : List Chunk)
    : Type 0 where
  pub earlier : List Chunk
  pub front : List ℕ
  pub back : List ℕ
  pub later : List Chunk
  pub list : List ℕ
  pub before : us ≡ earlier ++ spares front
  pub behind : vs ≡ spares back ++ later
  pub taken_before : last_word 1 earlier % 2 ≡ 1
  pub taken_behind : NoSpareFirst later
  pub heap : IsHeap w' p (
      gs
      ++ record {
        at = g.at;
        length = g.length;
        chunks = earlier ++ spare (total front + n + total back) ∷ later;
        list = list;
      }
        ∷ hs)
  pub beyond : Beyond w w' g.at
  pub length : w (a_length g.at) ≡ g.length

-- The chunk lies in its arena, at a multiple of 8.
taken_within :
    (w : Words) (a n : ℕ) (us vs : List Chunk) (xs : List ℕ)
    → IsArena w a (us ++ taken n ∷ vs) xs
    → (a + 16 ≤ stop (a + 16) us)
      × (stop (a + 16) us + 16 ≤ a + w (a_length a))
      × (stop (a + 16) us % 8 ≡ 0)
unfolding Tiles
taken_within w a n us vs xs h =
    let f : ℕ = stop (a + 16) us in
    let e : ℕ = a + w (a_length a) in
    let (before, (t1, t2, t3, t4, behind)) = Tiles-split w (a + 16) 1 e us (taken n ∷ vs) h.tiles in
    let (wl, below) = starts-within w (a + 16) 1 f (a + 16) us (omega arith) before in
    let (wr, inside) = starts-within w (f + n) (n + 1) e (f + n) vs (omega arith) behind in
    (below, omega arith, stop-aligned w (a + 16) 1 f us (let al = h.aligned in omega arith) before)

-- The loop finds the arena that the chunk is in.
arena_here :
    (fuel n a f : ℕ) (w : Words) (cs : List Chunk) (xs : List ℕ)
    → IsArena w a cs xs
    → a + 16 ≤ f
    → f + 16 ≤ a + w (a_length a)
    → free_arenas fuel (suc n) a f w ≡ free_in fuel a f w
unfolding free_arenas
arena_here fuel n a f w cs xs h lo hi =
    let pos = h.allocated in
    let fits = h.fits in
    let magic = h.links.magic in
    let some_arena : (a == 0) ≡ false = ground arith in
    let checked : (magic_of w a == w (a_magic a)) ≡ true =
      (==_iff (magic_of w a) (w (a_magic a))).1 magic in
    let within : (ltb f (usize (a + min_alloc)) || ltb (arena_end w a) (f + min_alloc)) ≡ false =
      ground arith in
    rw (some_arena, checked) rw within refl

arena_passed :
    (fuel n a f : ℕ) (w : Words) (cs : List Chunk) (xs : List ℕ)
    → IsArena w a cs xs
    → (f < a + 16) ⊎ (a + w (a_length a) < f + 16)
    → free_arenas fuel (suc n) a f w ≡ free_arenas fuel n (w (a_next a)) f w
unfolding free_arenas
arena_passed fuel n a f w cs xs h side =
    let pos = h.allocated in
    let fits = h.fits in
    let large = IsArena-large w a cs xs h in
    let magic = h.links.magic in
    let some_arena : (a == 0) ≡ false = ground arith in
    let checked : (magic_of w a == w (a_magic a)) ≡ true =
      (==_iff (magic_of w a) (w (a_magic a))).1 magic in
    let outside : (ltb f (usize (a + min_alloc)) || ltb (arena_end w a) (f + min_alloc)) ≡ true =
      ground arith in
    rw (some_arena, checked) rw outside refl

heap_region :
    (w : Words) (p : ℕ) (gs hs : List Region) (g : Region)
    → IsHeap w p (gs ++ g ∷ hs)
    → (w (a_length g.at) ≡ g.length) × IsArena w g.at g.chunks g.list
unfolding IsHeap
heap_region w p [] hs g (e, len, arena, apart, rest) = (len, arena)
heap_region w p (k ∷ gs) hs g (e, len, arena, apart, rest) =
    heap_region w (w (a_next k.at)) gs hs g rest

-- An arena before the one that the chunk is in stays as it is.
Released-later :
    (w w' : Words) (m : ℕ) (k : Region) (gs hs : List Region) (g : Region) (us vs : List Chunk)
    → w (a_length k.at) ≡ k.length
    → IsArena w k.at k.chunks k.list
    → All (Disjoint k) (gs ++ g ∷ hs)
    → Released w w' (w (a_next k.at)) m gs hs g us vs
    → Released w w' k.at m (k ∷ gs) hs g us vs
unfolding IsHeap Beyond
Released-later w w' m k gs hs g us vs len arena apart r =
    let side = All-middle (Disjoint k) gs hs g apart in
    let length = r.length in
    let new : Region = record {
      at = g.at;
      length = g.length;
      chunks = r.earlier ++ spare (total r.front + m + total r.back) ∷ r.later;
      list = r.list;
    } in
    let (len', arena', next) =
      region_frame w w' k len arena (λ q lo hi. r.beyond q (ground arith)) in
    record {
      earlier = r.earlier;
      front = r.front;
      back = r.back;
      later = r.later;
      list = r.list;
      before = r.before;
      behind = r.behind;
      taken_before = r.taken_before;
      taken_behind = r.taken_behind;
      heap = (
        refl,
        len',
        arena',
        All-replace (Disjoint k) gs hs g new (λ d. d) apart,
        subst (λ q. IsHeap w' q (gs ++ new ∷ hs)) (sym next) r.heap,
      );
      beyond = r.beyond;
      length = length;
    }

free_arenas-Released :
    (fuel n p m : ℕ) (w : Words) (gs hs : List Region) (g : Region) (us vs : List Chunk)
    → IsHeap w p (gs ++ g ∷ hs)
    → g.chunks ≡ us ++ taken m ∷ vs
    → length us < fuel
    → length vs < fuel
    → length gs < n
    → (w' : Words) × ((free_arenas fuel n p (stop (g.at + 16) us) w ≡ ok w')
        × Released w w' p m gs hs g us vs)
unfolding IsHeap Beyond
free_arenas-Released fuel zero p m w gs hs g us vs h split ltu ltv lt = absurd (omega arith)
free_arenas-Released fuel (suc n) p m w [] hs g us vs (e, len, arena, apart, rest) split ltu ltv
      lt =
    let h = subst (λ cs. IsArena w g.at cs g.list) split arena in
    let (lo, hi, eight) = taken_within w g.at m us vs g.list h in
    let (w', (run, r)) = free_in-Freed fuel w g.at m us vs g.list h ltu ltv in
    let here = arena_here fuel n g.at (stop (g.at + 16) us) w (us ++ taken m ∷ vs) g.list h lo hi in
    (
      w',
      (
        subst (λ a. free_arenas fuel (suc n) a (stop (g.at + 16) us) w ≡ ok w') (sym e)
            (here ∙ run),
        record {
          earlier = r.earlier;
          front = r.front;
          back = r.back;
          later = r.later;
          list = r.list;
          before = r.before;
          behind = r.behind;
          taken_before = r.taken_before;
          taken_behind = r.taken_behind;
          heap = (
            e,
            r.same_length ∙ len,
            r.arena,
            apart,
            IsHeap-frame w w' (w' (a_next g.at)) hs (Beyond-Alike w w' g hs len r.beyond apart)
                (subst (λ q. IsHeap w q hs) (sym r.same_next) rest),
          );
          beyond = r.beyond;
          length = len;
        },
      ),
    )
free_arenas-Released fuel (suc n) p m w (k ∷ gs) hs g us vs (e, len, arena, apart, rest) split ltu
      ltv lt =
    let f : ℕ = stop (g.at + 16) us in
    let (w', (run, r)) =
      free_arenas-Released fuel n (w (a_next k.at)) m w gs hs g us vs rest split ltu ltv
        (omega arith) in
    let (len_g, arena_g) = heap_region w (w (a_next k.at)) gs hs g rest in
    let (lo, hi, eight) =
      taken_within w g.at m us vs g.list (subst (λ cs. IsArena w g.at cs g.list) split arena_g) in
    let side = All-middle (Disjoint k) gs hs g apart in
    let passed = arena_passed fuel n k.at f w k.chunks k.list arena (ground arith) in
    (
      w',
      (
        subst (λ a. free_arenas fuel (suc n) a f w ≡ ok w') (sym e) (passed ∙ run),
        subst (λ a. Released w w' a m (k ∷ gs) hs g us vs) (sym e)
            (Released-later w w' m k gs hs g us vs len arena apart r),
      ),
    )

checked_back : (f : ℕ) → checked_sub (f + 8) chunk_header ≡ some f
checked_back f =
    let fine : leb chunk_header (f + 8) ≡ true = ground arith in
    let back : f + 8 - chunk_header ≡ f = omega arith in rw fine (ap some back)

-- The pointer's checks pass.
free_valid :
    (fuel n p f : ℕ) (w : Words)
    → f % 8 ≡ 0
    → f + 16 < 2 ^ 32
    → free fuel n p (f + 8) w ≡ free_arenas fuel n p f w
unfolding free
free_valid fuel n p f w eight hi =
    let some_pointer : (f + 8 == 0) ≡ false = ground arith in
    let header : checked_sub (f + 8) chunk_header ≡ some f = checked_back f in
    let valid : (not (f % 8 == 0) || ltb (usize_max - min_alloc) f) ≡ false = ground arith in
    rw (free, some_pointer) rw header rw valid refl

-- loomFree of an allocation returns, without a panic. The chunk of the allocation is one free chunk
-- with all the free chunks right before and right behind it, and stands between chunks in use or an
-- end of its arena; the other chunks and arenas are as before. Every arena is well formed afterwards:
-- its chunks tile it, its list of free chunks holds each once, and the checksum is right. No cell
-- outside the chunk's arena has changed. The heap was well formed before, the pointer is behind the
-- header of a chunk in use, and the fuel exceeds the number of arenas and of chunks in one.
pub free-Released :
    (fuel n p m : ℕ) (w : Words) (gs hs : List Region) (g : Region) (us vs : List Chunk)
    → IsHeap w p (gs ++ g ∷ hs)
    → g.chunks ≡ us ++ taken m ∷ vs
    → length us < fuel
    → length vs < fuel
    → length gs < n
    → (w' : Words) × ((free fuel n p (stop (g.at + 16) us + 8) w ≡ ok w')
        × Released w w' p m gs hs g us vs)
free-Released fuel n p m w gs hs g us vs h split ltu ltv lt =
    let f : ℕ = stop (g.at + 16) us in
    let (len, arena) = heap_region w p gs hs g h in
    let (lo, hi, eight) =
      taken_within w g.at m us vs g.list (subst (λ cs. IsArena w g.at cs g.list) split arena) in
    let (w', (run, r)) = free_arenas-Released fuel n p m w gs hs g us vs h split ltu ltv lt in
    (w', (free_valid fuel n p f w eight (let fits = arena.fits in omega arith) ∙ run, r))

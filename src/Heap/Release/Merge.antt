-- ===== src/Heap/Release/Merge.antt =====
-- loomFree in an arena, from the chunk in use to the merged free chunk.
use loom_bootloader.Base.{
  ℕ, ◌+◌, ◌*◌, ◌/◌, ◌%◌, ◌<◌, ◌^◌, ◌≡◌, List, ◌∷◌, ◌++◌, arith, sym, ◌==◌, ◌&&◌, not, Bool, true,
  false, ok, length, usize,
}
use mathlib.Core.Path.{subst}
use loom_bootloader.Memory.{store}
use loom_bootloader.Heap.{
  Words, c_size, a_length, a_next, size_of, in_use, arena_end, min_alloc, free_chunk_link,
  chunk_update_next,
}
use loom_bootloader.Heap.Tiles.{Chunk, spare, taken, stop, last_word}
use loom_bootloader.Heap.Arena.{IsArena}
use loom_bootloader.Heap.Hole.{Beyond}
use loom_bootloader.Heap.Release.{merge_back, merge_front, free_in}
use loom_bootloader.Heap.Release.Loose.{Loose, Loose-Near}
use loom_bootloader.Heap.Release.Back.{spares, total, merge_back-Backed}
use loom_bootloader.Heap.Release.Front.{NoSpareFirst, merge_front-Fronted}
use loom_bootloader.Heap.Release.Ends.{release_first, release_last}

-- What is left of an arena whose chunk of `n` bytes between `us` and `vs` was freed: it is one free
-- chunk with the free chunks right before it and behind it, and stands between chunks in use.
pub record Freed (w w' : Words) (a n : ℕ) (us vs : List Chunk) : Type 0 where
  pub earlier : List Chunk
  pub front : List ℕ
  pub back : List ℕ
  pub later : List Chunk
  pub list : List ℕ
  pub before : us ≡ earlier ++ spares front
  pub behind : vs ≡ spares back ++ later
  pub taken_before : last_word 1 earlier % 2 ≡ 1
  pub taken_behind : NoSpareFirst later
  pub arena : IsArena w' a (earlier ++ spare (total front + n + total back) ∷ later) list
  pub same_length : w' (a_length a) ≡ w (a_length a)
  pub same_next : w' (a_next a) ≡ w (a_next a)
  pub beyond : Beyond w w' a

-- The calls of loomFree in an arena.
free_run :
    (fuel a e f g n m q : ℕ) (inuse differ : Bool) (w w1 w2 w3 w4 : Words)
    → w (c_size f) ≡ n + 1
    → n % 8 ≡ 0
    → a + 16 < 2 ^ 32
    → arena_end w a ≡ e
    → free_chunk_link a f (store (c_size f) n w) ≡ ok w1
    → merge_back fuel a (a + 16) f w1 ≡ ok (g, w2)
    → size_of (w2 (c_size g)) ≡ m
    → g + m < 2 ^ 32
    → merge_front fuel a e g (g + m) true w2 ≡ ok (q, inuse, differ, w3)
    → (not (q == e) && not inuse) ≡ false
    → chunk_update_next a g differ w3 ≡ ok w4
    → free_in fuel a f w ≡ ok w4
unfolding free_in
free_run fuel a e f g n m q inuse differ w w1 w2 w3 w4 had eight small end link back size below
      front done update =
    let busy : (in_use (w (c_size f)) == 0) ≡ false = ground arith in
    let word : w (c_size f) / 2 * 2 ≡ n = omega arith in
    let start : usize (a + min_alloc) ≡ a + 16 = omega arith in
    let over : usize (g + m) ≡ g + m = omega arith in
    rw (free_in, busy) rw (word, end, start) rw link rw back rw (size) rw over rw front rw done
      update

pub free_in-Freed :
    (fuel : ℕ) (w : Words) (a n : ℕ) (us vs : List Chunk) (xs : List ℕ)
    → IsArena w a (us ++ taken n ∷ vs) xs
    → length us < fuel
    → length vs < fuel
    → (w' : Words) × ((free_in fuel a (stop (a + 16) us) w ≡ ok w') × Freed w w' a n us vs)
unfolding Beyond
free_in-Freed fuel w a n us vs xs h ltu ltv =
    let f : ℕ = stop (a + 16) us in
    let e : ℕ = a + w (a_length a) in
    let (had, eight, (w1, (link, loose))) = release_first w a n us vs xs h in
    let b = merge_back-Backed fuel w w1 a e f n (n + 1) us vs (f ∷ xs) ltu loose in
    let odd : (0 == in_use (n + 1)) ≡ not true = ground arith in
    let r =
      merge_front-Fronted fuel w b.store a e b.chunk (total b.merged + n) (n + 1) true b.earlier vs
        b.list ltv odd b.loose in
    let m : ℕ = total b.merged + n + total r.merged in
    let place = r.loose.place in
    let last =
      subst (λ g. Loose w r.store a e g m r.known b.earlier r.later r.list) place r.loose in
    let (w4, (update, arena, long, next, same)) =
      release_last w r.store a e m r.known r.differ b.earlier r.later r.list last r.parity in
    let near =
      Loose-Near w b.store a e b.chunk (total b.merged + n) (n + 1) b.earlier vs b.list b.loose in
    let inside = near.inside in
    let fits = h.fits in
    let size = b.loose.size in
    let eight_b = b.loose.eight in
    let below = near.below in
    let span = r.loose.span in
    (
      w4,
      (
        free_run fuel a e f b.chunk n (total b.merged + n)
            (b.chunk + (total b.merged + n + total r.merged)) r.inuse r.differ w w1 b.store r.store
            w4 had eight (omega arith) (omega arith) link b.returns (omega arith) (omega arith)
            r.returns r.at_end
            (subst (λ g. chunk_update_next a g r.differ r.store ≡ ok w4) (sym place) update),
        record {
          earlier = b.earlier;
          front = b.merged;
          back = r.merged;
          later = r.later;
          list = r.list;
          before = b.split;
          behind = r.split;
          taken_before = b.taken_before;
          taken_behind = r.taken_behind;
          arena = arena;
          same_length = omega arith;
          same_next = next;
          beyond = same;
        },
      ),
    )

-- ===== src/Heap/Split.antt =====
-- Taking a free chunk for an allocation: the whole of it, or its front.
use loom_bootloader.Base.{
  ℕ, ◌+◌, ◌-◌, ◌%◌, ◌≤◌, ◌<◌, ◌≡◌, List, [], ◌∷◌, ◌++◌, arith, refl, sym, ◌∙◌, Bool, true, false,
  not, ◌&&◌, ◌==◌, ltb, leb, ok, bit_or,
}
use loom_bootloader.Base.Bits.{bit_or-zero}
use mathlib.Core.Path.{subst}
use mathlib.Core.List.{Perm, perm_middle, perm-cons}
use mathlib.Core.List.Perm
use loom_bootloader.Memory.{store}
use loom_bootloader.Heap.{
  Words, c_prev_size, c_size, f_prev, f_next, a_length, size_of, flags_of, in_use, min_alloc,
  free_chunk_link, free_chunk_split,
}
use loom_bootloader.Heap.Free.{Each, Each-map, NoLink, Kept, Links, Apart, free_chunk_link-Links}
use loom_bootloader.Heap.Unlink.{free_chunk_unlink-Links}
use loom_bootloader.Heap.Segment.{Each-without}
use loom_bootloader.Heap.Tiles.{Chunk, spare, taken, stop, last_word, frees, Tiles, frees-append}
use loom_bootloader.Heap.Arena.{IsArena, Outer, Clear, Links-outside}
use loom_bootloader.Heap.Hole.{
  Hole, hole, Cut, Beyond, chunk_update_next-IsArena, tag_word, later-Clear, length-Kept,
}

-- The whole of the chunk is taken.
split_whole :
    (w : Words) (a n size : ℕ) (us vs : List Chunk) (ls rs : List ℕ)
    → IsArena w a (us ++ spare n ∷ vs) (ls ++ stop (a + 16) us ∷ rs)
    → 0 < size
    → size % 8 ≡ 0
    → size ≤ n
    → n < size + 16
    → (w' : Words) × ((free_chunk_split a (stop (a + 16) us) 0 size w
          ≡ ok (stop (a + 16) us + 8, w'))
        × IsArena w' a (us ++ taken n ∷ vs) (ls ++ rs)
        × Outer w w' a (stop (a + 16) us) (stop (a + 16) us + n + 1) (ls ++ stop (a + 16) us ∷ rs)
        × Beyond w w' a)
unfolding free_chunk_split Tiles Kept
split_whole w a n size us vs ls rs h pos eight le tight =
    let f : ℕ = stop (a + 16) us in
    let e : ℕ = a + w (a_length a) in
    let s = hole w a n us vs ls rs h in
    let fits = h.fits in
    let below = s.below in
    let even = s.aligned in
    let start = s.start in
    let room = s.room in
    let had = s.size in
    let (w1, (e1, l1, k1)) = free_chunk_unlink-Links w a f ls rs h.links in
    let w2 : Words = store (c_size f) (n + 1) w1 in
    let flags : flags_of (w (c_size f)) ≡ 0 = ground arith in
    let free : in_use (w (c_size f)) ≡ 0 = ground arith in
    let whole : size_of (w (c_size f)) ≡ n = ground arith in
    let word : bit_or (bit_or n 0) 1 ≡ n + 1 = tag_word n even in
    let outer : Outer w w2 a f (f + n) (ls ++ f ∷ rs) =
      λ q n1 n2 nl side. ground (arith, k1 q n1 n2 nl) in
    let length : w2 (a_length a) ≡ w (a_length a) =
      ground (arith, length-Kept w w1 a (ls ++ f ∷ rs) h.links.behind k1) in
    let l2 : Links w2 a (ls ++ rs) =
      Links-outside w1 w2 a f (f + n) (ls ++ rs) below (λ q side. ground arith) s.clear l1 in
    let prev : w2 (c_prev_size f) ≡ last_word 1 us =
      ground (arith, k1 f (omega arith) (omega arith) s.own, s.prev_size) in
    let cut : Cut w w2 a f n f n us vs (taken n ∷ []) (ls ++ f ∷ rs) (ls ++ rs) = record {
      ends = refl;
      from = omega arith;
      aligned = even;
      length = length;
      outer = outer;
      links = l2;
      clear = later-Clear f n (ls ++ rs) s.clear;
      size = ground arith;
      here = (prev, ground arith, even, room, refl);
      till = refl;
      word = ground arith;
      listed =
          subst (λ l. Perm (ls ++ rs) l) (sym (frees-append (a + 16) us (taken n ∷ vs))) s.rest;
    } in
    let (w3, (e3, arena, others, beyond)) =
      chunk_update_next-IsArena w w2 a n f n true us vs (taken n ∷ []) ls rs (ls ++ rs) h cut
        (ground arith) in
    let small : leb min_alloc (n - size) ≡ false = ground arith in
    let size_ok : (not (size == 0) && size % 8 == 0) ≡ true = ground arith in
    let some_bytes : ltb 0 n ≡ true = ground arith in
    let enough : leb size n ≡ true = ground arith in
    (
      w3,
      (
        rw (whole, flags) rw (size_ok, free, some_bytes, e1) rw (enough, small) rw word rw e3 refl,
        arena,
        others,
        beyond,
      ),
    )

-- A cell of the chunk taken is no link of the other free chunks.
inside-NoLink : (f g q : ℕ) (xs : List ℕ) → f ≤ q → q < g → Each (Clear f g) xs → Each (NoLink q) xs
inside-NoLink f g q xs lo hi h =
    Each-map (Clear f g) (NoLink q) xs (λ x c. (ground arith, ground arith)) h

-- The headers of the two parts of a chunk.
abbrev parted : (f size n : ℕ) → Words → Words
parted f size n w = store (f_next (f + size)) 0 (
    store (f_prev (f + size)) 0 (
      store (c_size (f + size)) (n - size)
        (store (c_prev_size (f + size)) (size + 1) (store (c_size f) (size + 1) w))))

-- The rest of the chunk at the front of the list of free chunks.
link_part :
    (w w1 : Words) (a f n size : ℕ) (ls rs : List ℕ)
    → a + 16 ≤ f
    → 16 ≤ size
    → size + 16 ≤ n
    → Each (Clear f (f + n)) (ls ++ rs)
    → Links w1 a (ls ++ rs)
    → Kept w w1 a (ls ++ f ∷ rs)
    → (w3 : Words) × ((free_chunk_link a (f + size) (parted f size n w1) ≡ ok w3)
        × Links w3 a ((f + size) ∷ (ls ++ rs))
        × Outer w w3 a f (f + n) (ls ++ f ∷ rs)
        × ((q : ℕ) → f ≤ q → q < f + size + 8 → w3 q ≡ parted f size n w1 q)
        × (w3 (a_length a) ≡ w1 (a_length a)))
unfolding Kept
link_part w w1 a f n size ls rs below sixteen loose clear l1 k1 =
    let r : ℕ = f + size in
    let w2 : Words = parted f size n w1 in
    let l2 : Links w2 a (ls ++ rs) =
      Links-outside w1 w2 a f (f + n) (ls ++ rs) below (λ q side. ground arith) clear l1 in
    let far : Each (Apart r) (ls ++ rs) =
      Each-map (Clear f (f + n)) (Apart r) (ls ++ rs) (λ x c. ground arith) clear in
    let (w3, (e3, l3, k3)) = free_chunk_link-Links w2 a r (ls ++ rs) l2 (omega arith) far in
    let outer2 : Outer w w2 a f (f + n) (ls ++ f ∷ rs) =
      λ q n1 n2 nl side. ground (arith, k1 q n1 n2 nl) in
    let long : w2 (a_length a) ≡ w1 (a_length a) = ground arith in
    (
      w3,
      (
        e3,
        l3,
        λ q n1 n2 nl side.
            k3 q n1 n2 ((ground arith, ground arith), Each-without (NoLink q) ls rs f nl)
            ∙ outer2 q n1 n2 nl side,
        λ q lo hi. k3 q (omega arith) (omega arith) (
          (omega arith, omega arith),
          inside-NoLink f (f + n) q (ls ++ rs) lo (omega arith) clear,
        ),
        length-Kept w2 w3 a (r ∷ (ls ++ rs)) (omega arith, l2.behind) k3 ∙ long,
      ),
    )

listed_part :
    (a n size : ℕ) (us vs : List Chunk) (ys : List ℕ)
    → size ≤ n
    → Perm ys (frees a us ++ frees (stop a us + n) vs)
    → Perm ((stop a us + size) ∷ ys) (frees a (us ++ (taken size ∷ spare (n - size) ∷ vs)))
listed_part a n size us vs ys le p =
    let r : ℕ = stop a us + size in
    let whole : r + (n - size) ≡ stop a us + n = omega arith in
    let q : Perm (r ∷ ys) (frees a us ++ r ∷ frees (r + (n - size)) vs) =
      subst (λ g. Perm (r ∷ ys) (frees a us ++ r ∷ frees g vs)) (sym whole)
        (Perm.trans ((perm-cons r).1 p)
          (Perm.symm (perm_middle (frees a us) (frees (stop a us + n) vs)))) in
    subst (Perm (r ∷ ys)) (sym (frees-append a us (taken size ∷ spare (n - size) ∷ vs))) q

part_Cut :
    (w w1 w3 : Words) (a n size : ℕ) (us vs : List Chunk) (ls rs : List ℕ)
    → Hole w a (stop (a + 16) us) n us vs ls rs
    → size % 8 ≡ 0
    → 16 ≤ size
    → size + 16 ≤ n
    → Kept w w1 a (ls ++ stop (a + 16) us ∷ rs)
    → Links w3 a ((stop (a + 16) us + size) ∷ (ls ++ rs))
    → Outer w w3 a (stop (a + 16) us) (stop (a + 16) us + n) (ls ++ stop (a + 16) us ∷ rs)
    → ((q : ℕ)
        → stop (a + 16) us ≤ q
        → q < stop (a + 16) us + size + 8
        → w3 q ≡ parted (stop (a + 16) us) size n w1 q)
    → w3 (a_length a) ≡ w (a_length a)
    → (w3 (c_size (stop (a + 16) us + size)) ≡ n - size)
      × Cut w w3 a
          (stop (a + 16) us)
          n
          (stop (a + 16) us + size)
          (n - size)
          us
          vs
          (taken size ∷ spare (n - size) ∷ [])
          (ls ++ stop (a + 16) us ∷ rs)
          ((stop (a + 16) us + size) ∷ (ls ++ rs))
unfolding Tiles Kept
part_Cut w w1 w3 a n size us vs ls rs s eight sixteen loose k1 l3 outer inner long =
    let f : ℕ = stop (a + 16) us in
    let r : ℕ = f + size in
    let below = s.below in
    let even = s.aligned in
    let prev : w3 (c_prev_size f) ≡ last_word 1 us = ground (
      arith,
      inner f (omega arith) (omega arith),
      k1 f (omega arith) (omega arith) s.own,
      s.prev_size,
    ) in
    let f_size : w3 (c_size f) ≡ size + 1 =
      ground (arith, inner (f + 4) (omega arith) (omega arith)) in
    let r_prev : w3 (c_prev_size r) ≡ size + 1 =
      ground (arith, inner r (omega arith) (omega arith)) in
    let r_size : w3 (c_size r) ≡ n - size =
      ground (arith, inner (r + 4) (omega arith) (omega arith)) in
    (
      r_size,
      record {
        ends = omega arith;
        from = omega arith;
        aligned = omega arith;
        length = long;
        outer = outer;
        links = l3;
        clear = (ground arith, later-Clear f n (ls ++ rs) s.clear);
        size = omega arith;
        here =
            (prev, f_size, eight, sixteen, (r_prev, r_size, omega arith, omega arith, omega arith));
        till = omega arith;
        word = sym r_size;
        listed = listed_part (a + 16) n size us vs (ls ++ rs) (omega arith) s.rest;
      },
    )

-- The front of the chunk is taken, and the rest is a free chunk, the first of the list.
split_part :
    (w : Words) (a n size : ℕ) (us vs : List Chunk) (ls rs : List ℕ)
    → IsArena w a (us ++ spare n ∷ vs) (ls ++ stop (a + 16) us ∷ rs)
    → size % 8 ≡ 0
    → 16 ≤ size
    → size + 16 ≤ n
    → (w' : Words) × ((free_chunk_split a (stop (a + 16) us) 0 size w
          ≡ ok (stop (a + 16) us + 8, w'))
        × IsArena w' a
            (us ++ (taken size ∷ spare (n - size) ∷ vs))
            ((stop (a + 16) us + size) ∷ (ls ++ rs))
        × Outer w w' a (stop (a + 16) us) (stop (a + 16) us + n + 1) (ls ++ stop (a + 16) us ∷ rs)
        × Beyond w w' a)
unfolding free_chunk_split Tiles Kept
split_part w a n size us vs ls rs h eight sixteen loose =
    let f : ℕ = stop (a + 16) us in
    let r : ℕ = f + size in
    let s = hole w a n us vs ls rs h in
    let fits = h.fits in
    let below = s.below in
    let even = s.aligned in
    let start = s.start in
    let had = s.size in
    let (w1, (e1, l1, k1)) = free_chunk_unlink-Links w a f ls rs h.links in
    let (w3, (e3, l3, outer, inner, long)) =
      link_part w w1 a f n size ls rs below sixteen loose s.clear l1 k1 in
    let (r_size, cut) =
      part_Cut w w1 w3 a n size us vs ls rs s eight sixteen loose k1 l3 outer inner
        (long ∙ length-Kept w w1 a (ls ++ f ∷ rs) h.links.behind k1) in
    let flags : flags_of (w (c_size f)) ≡ 0 = omega arith in
    let free : in_use (w (c_size f)) ≡ 0 = omega arith in
    let whole : size_of (w (c_size f)) ≡ n = omega arith in
    let word : bit_or (bit_or size 0) 1 ≡ size + 1 = tag_word size eight in
    let left : bit_or (n - size) 0 ≡ n - size = bit_or-zero (n - size) in
    let (w4, (e4, arena, others, beyond)) =
      chunk_update_next-IsArena w w3 a n r (n - size) false us vs
        (taken size ∷ spare (n - size) ∷ []) ls rs (r ∷ (ls ++ rs)) h cut (ground arith) in
    let large : leb min_alloc (n - size) ≡ true = ground arith in
    let size_ok : (not (size == 0) && size % 8 == 0) ≡ true = ground arith in
    let some_bytes : ltb 0 n ≡ true = ground arith in
    let enough : leb size n ≡ true = ground arith in
    (
      w4,
      (
        rw (whole, flags) rw (size_ok, free, some_bytes, e1) rw (enough, large) rw (word, left) rw
            e3 rw e4 refl,
        arena,
        others,
        beyond,
      ),
    )

-- What a free chunk of `n` bytes becomes for an allocation of `size` bytes.
abbrev pub carve_if : Bool → (n size : ℕ) → List Chunk
carve_if true n size = taken size ∷ spare (n - size) ∷ []
carve_if false n size = taken n ∷ []

abbrev pub carve : (n size : ℕ) → List Chunk
carve n size = carve_if (leb min_alloc (n - size)) n size

-- The list of free chunks with the rest of the chunk, if there is any.
abbrev pub relist_if : Bool → ℕ → List ℕ → List ℕ
relist_if true r xs = r ∷ xs
relist_if false r xs = xs

split_either :
    (b : Bool) (w : Words) (a n size : ℕ) (us vs : List Chunk) (ls rs : List ℕ)
    → leb min_alloc (n - size) ≡ b
    → IsArena w a (us ++ spare n ∷ vs) (ls ++ stop (a + 16) us ∷ rs)
    → size % 8 ≡ 0
    → 16 ≤ size
    → size ≤ n
    → (w' : Words) × ((free_chunk_split a (stop (a + 16) us) 0 size w
          ≡ ok (stop (a + 16) us + 8, w'))
        × IsArena w' a
            (us ++ (carve_if b n size ++ vs))
            (relist_if b (stop (a + 16) us + size) (ls ++ rs))
        × Outer w w' a (stop (a + 16) us) (stop (a + 16) us + n + 1) (ls ++ stop (a + 16) us ∷ rs)
        × Beyond w w' a)
split_either true w a n size us vs ls rs e h eight sixteen le =
    split_part w a n size us vs ls rs h eight sixteen (ground arith)
split_either false w a n size us vs ls rs e h eight sixteen le =
    split_whole w a n size us vs ls rs h (omega arith) eight le (ground arith)

pub free_chunk_split-IsArena :
    (w : Words) (a n size : ℕ) (us vs : List Chunk) (ls rs : List ℕ)
    → IsArena w a (us ++ spare n ∷ vs) (ls ++ stop (a + 16) us ∷ rs)
    → size % 8 ≡ 0
    → 16 ≤ size
    → size ≤ n
    → (w' : Words) × ((free_chunk_split a (stop (a + 16) us) 0 size w
          ≡ ok (stop (a + 16) us + 8, w'))
        × IsArena w' a
            (us ++ (carve n size ++ vs))
            (relist_if (leb min_alloc (n - size)) (stop (a + 16) us + size) (ls ++ rs))
        × Outer w w' a (stop (a + 16) us) (stop (a + 16) us + n + 1) (ls ++ stop (a + 16) us ∷ rs)
        × Beyond w w' a)
free_chunk_split-IsArena w a n size us vs ls rs h eight sixteen le =
    split_either (leb min_alloc (n - size)) w a n size us vs ls rs refl h eight sixteen le

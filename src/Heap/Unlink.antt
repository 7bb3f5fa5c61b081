-- ===== src/Heap/Unlink.antt =====
-- Taking a chunk out of the list of free chunks.
use loom_bootloader.Base.{
  ℕ, ◌+◌, ◌≤◌, ◌≡◌, ◌≢◌, List, [], ◌∷◌, ◌++◌, ok, arith, refl, sym, ◌⊎◌, ◌==◌, true, false,
}
use mathlib.Core.Path.{subst}
use loom_bootloader.Memory.{store}
use loom_bootloader.LinkedList.Chain.{last}
use loom_bootloader.Heap.{Words, a_freelist, a_magic, f_prev, f_next, set_magic, free_chunk_unlink}
use loom_bootloader.Heap.Free.{
  Each, Each-map, Each-left, Each-right, Apart, FreeList, FreeList-frame, NoLink, Links, Kept,
}
use loom_bootloader.Heap.Segment.{
  Each-last, Each-without, FreeList-behind, FreeList-join, FreeList-split, Segment,
  Segment-retarget, Spaced-before, Spaced-left, Spaced-right, Spaced-without, near_last,
}

-- A store that differs from another at most at the head's cell, at the checksum, at the links of
-- `f`, at the link from `l` on and at the link back from `y`.
Unlinked : Words → Words → (a f l y : ℕ) → Type 0
Unlinked w w' a f l y =
    (q : ℕ)
    → q ≢ a_freelist a
    → q ≢ a_magic a
    → NoLink q f
    → q ≢ f_next l
    → q ≢ f_prev y
    → w' q ≡ w q

-- The links of the chunks before `f`.
cells_before :
    (w w' : Words) (a f l y : ℕ) (zs : List ℕ)
    → Unlinked w w' a f l y
    → Each (λ z. (z ≡ l) ⊎ Apart z l) zs
    → Each (λ z. Apart z f) zs
    → Each (λ z. Apart z y) zs
    → Each (λ z. a + 16 ≤ z) zs
    → Each (λ z. (w' (f_prev z) ≡ w (f_prev z)) × (z ≢ l → w' (f_next z) ≡ w (f_next z))) zs
unfolding Unlinked
cells_before w w' a f l y [] same near h k lo = tt
cells_before w w' a f l y (z ∷ zs) same near h k lo =
    let near0 = near.0 in
    let h0 = h.0 in
    let k0 = k.0 in
    let lo0 = lo.0 in
    (
      (
        same (z + 8) (omega arith) (omega arith) (omega arith, omega arith) (ground arith)
            (ground arith),
        λ ne.
            same (z + 12) (omega arith) (omega arith) (omega arith, omega arith) (omega arith)
              (omega arith),
      ),
      cells_before w w' a f l y zs same near.1 h.1 k.1 lo.1,
    )

-- The links of the chunks behind `y`.
cells_behind :
    (w w' : Words) (a f l y : ℕ) (zs : List ℕ)
    → Unlinked w w' a f l y
    → Each (λ z. Apart l z) zs
    → Each (λ z. Apart f z) zs
    → Each (λ z. Apart y z) zs
    → Each (λ z. a + 16 ≤ z) zs
    → Each (λ z. (w' (f_prev z) ≡ w (f_prev z)) × (w' (f_next z) ≡ w (f_next z))) zs
unfolding Unlinked
cells_behind w w' a f l y [] same near h k lo = tt
cells_behind w w' a f l y (z ∷ zs) same near h k lo =
    let near0 = near.0 in
    let h0 = h.0 in
    let k0 = k.0 in
    let lo0 = lo.0 in
    (
      (
        same (z + 8) (omega arith) (omega arith) (omega arith, omega arith) (omega arith)
            (omega arith),
        same (z + 12) (omega arith) (omega arith) (omega arith, omega arith) (omega arith)
            (omega arith),
      ),
      cells_behind w w' a f l y zs same near.1 h.1 k.1 lo.1,
    )

unlink_first :
    (w : Words) (a f : ℕ) (ys : List ℕ)
    → Links w a (f ∷ ys)
    → (w' : Words) × ((free_chunk_unlink a f w ≡ ok w') × Links w' a ys × Kept w w' a (f ∷ ys))
unfolding free_chunk_unlink FreeList Kept Unlinked
unlink_first w a f [] h =
    let (head, pos, before, next) = h.list in
    let lo = h.behind.0 in
    let w1 : Words = set_magic a (store (a_freelist a) (w (f_next f)) w) in
    let w' : Words = store (f_prev f) 0 (store (f_next f) 0 w1) in
    let first : (w (f_prev f) == 0) ≡ true = ground arith in
    let is_head : (w (a_freelist a) == f) ≡ true = ground arith in
    let no_next : (w1 (f_next f) == 0) ≡ true = ground arith in
    (
      w',
      (
        rw (first, is_head) rw no_next refl,
        record { list = ground arith; spaced = tt; behind = tt; magic = ground arith },
        λ q n1 n2 l. let n3 = l.0 in ground arith,
      ),
    )
unlink_first w a f (y ∷ ys) h =
    let (head, pos, before, (next, ypos, yprev, rest)) = h.list in
    let lo = h.behind.0 in
    let ylo = h.behind.1.0 in
    let fy = h.spaced.0.0 in
    let w1 : Words = set_magic a (store (a_freelist a) (w (f_next f)) w) in
    let w2 : Words = store (f_prev (w1 (f_next f))) (w1 (f_prev f)) w1 in
    let w' : Words = store (f_prev f) 0 (store (f_next f) 0 w2) in
    let first : (w (f_prev f) == 0) ≡ true = ground arith in
    let is_head : (w (a_freelist a) == f) ≡ true = ground arith in
    let some_next : (w1 (f_next f) == 0) ≡ false = ground arith in
    let same : (q : ℕ) → q ≢ a_freelist a → q ≢ a_magic a → NoLink q f → q ≢ f_prev y → w' q ≡ w q =
      λ q n1 n2 n3 n4. ground arith in
    let keep_next : w' (f_next y) ≡ w (f_next y) =
      same (f_next y) (omega arith) (omega arith) (omega arith, omega arith) (omega arith) in
    (
      w',
      (
        rw (first, is_head) rw some_next refl,
        record {
          list = (
            ground arith,
            ypos,
            ground arith,
            FreeList-frame w w' y (w' (f_next y)) ys
                (cells_behind w w' a f f y ys (λ q n1 n2 n3 n4 n5. same q n1 n2 n3 n5) h.spaced.0.1
                  h.spaced.0.1 h.spaced.1.0 h.behind.1.1)
                (subst (λ q. FreeList w y q ys) (sym keep_next) rest),
          );
          spaced = h.spaced.1;
          behind = h.behind.1;
          magic = ground arith;
        },
        λ q n1 n2 l. same q n1 n2 l.0 l.1.0.0,
      ),
    )

unlink_behind :
    (w : Words) (a f x : ℕ) (xs ys : List ℕ)
    → Links w a (x ∷ xs ++ f ∷ ys)
    → (w' : Words) × ((free_chunk_unlink a f w ≡ ok w')
        × Links w' a (x ∷ xs ++ ys)
        × Kept w w' a (x ∷ xs ++ f ∷ ys))
unfolding free_chunk_unlink Kept Unlinked FreeList
unlink_behind w a f x xs [] h =
    let l : ℕ = last x xs in
    let (segment, pos, before, next) = FreeList-split w 0 (w (a_freelist a)) f (x ∷ xs) [] h.list in
    let apart =
      Each-map (λ z. Each (Apart z) (f ∷ [])) (λ z. Apart z f) (x ∷ xs) (λ z k. k.0)
        (Spaced-before (x ∷ xs) (f ∷ []) h.spaced) in
    let behind = Each-left (λ z. a + 16 ≤ z) (x ∷ xs) (f ∷ []) h.behind in
    let lf : Apart l f = Each-last (λ z. Apart z f) x xs apart in
    let llo : a + 16 ≤ l = Each-last (λ z. a + 16 ≤ z) x xs behind in
    let flo : a + 16 ≤ f = (Each-right (λ z. a + 16 ≤ z) (x ∷ xs) (f ∷ []) h.behind).0 in
    let magic = h.magic in
    let w1 : Words = store (f_next (w (f_prev f))) (w (f_next f)) w in
    let w' : Words = store (f_prev f) 0 (store (f_next f) 0 w1) in
    let prev_eq : w (f_prev f) ≡ l = before in
    let not_first : (w (f_prev f) == 0) ≡ false = ground arith in
    let no_next : (w1 (f_next f) == 0) ≡ true = ground arith in
    let same : Unlinked w w' a f l f = λ q n1 n2 n3 n4 n5. ground arith in
    let old : Segment w 0 (w' (a_freelist a)) (x ∷ xs) f =
      subst (λ p. Segment w 0 p (x ∷ xs) f) (ground arith) segment in
    let new : w' (f_next l) ≡ w (f_next f) = ground arith in
    let chain : Segment w' 0 (w' (a_freelist a)) (x ∷ xs) (w (f_next f)) =
      Segment-retarget w w' 0 (w' (a_freelist a)) f (w (f_next f)) x xs
        (Spaced-left (x ∷ xs) (f ∷ []) h.spaced)
        (cells_before w w' a f l f (x ∷ xs) same
          (near_last x xs (Spaced-left (x ∷ xs) (f ∷ []) h.spaced)) apart apart behind)
        new old in
    (
      w',
      (
        rw not_first rw no_next refl,
        record {
          list = FreeList-join w' 0 (w' (a_freelist a)) (w (f_next f)) (x ∷ xs) [] chain next;
          spaced = Spaced-without (x ∷ xs) [] f h.spaced;
          behind = Each-without (λ z. a + 16 ≤ z) (x ∷ xs) [] f h.behind;
          magic = ground arith;
        },
        λ q n1 n2 links.
            let nl = Each-last (NoLink q) x xs (Each-left (NoLink q) (x ∷ xs) (f ∷ []) links) in
            let nf = (Each-right (NoLink q) (x ∷ xs) (f ∷ []) links).0 in same q n1 n2 nf nl.1 nf.0,
      ),
    )
unlink_behind w a f x xs (y ∷ ys) h =
    let l : ℕ = last x xs in
    let (segment, pos, before, (next, ypos, yprev, rest)) =
      FreeList-split w 0 (w (a_freelist a)) f (x ∷ xs) (y ∷ ys) h.list in
    let each = Spaced-before (x ∷ xs) (f ∷ y ∷ ys) h.spaced in
    let apart =
      Each-map (λ z. Each (Apart z) (f ∷ y ∷ ys)) (λ z. Apart z f) (x ∷ xs) (λ z k. k.0) each in
    let apart_y =
      Each-map (λ z. Each (Apart z) (f ∷ y ∷ ys)) (λ z. Apart z y) (x ∷ xs) (λ z k. k.1.0) each in
    let behind = Each-left (λ z. a + 16 ≤ z) (x ∷ xs) (f ∷ y ∷ ys) h.behind in
    let behind_f = Each-right (λ z. a + 16 ≤ z) (x ∷ xs) (f ∷ y ∷ ys) h.behind in
    let right = Spaced-right (x ∷ xs) (f ∷ y ∷ ys) h.spaced in
    let far = Each-last (λ z. Each (Apart z) (f ∷ y ∷ ys)) x xs each in
    let lf : Apart l f = far.0 in
    let ly : Apart l y = far.1.0 in
    let fy : Apart f y = right.0.0 in
    let llo : a + 16 ≤ l = Each-last (λ z. a + 16 ≤ z) x xs behind in
    let flo : a + 16 ≤ f = behind_f.0 in
    let ylo : a + 16 ≤ y = behind_f.1.0 in
    let magic = h.magic in
    let w1 : Words = store (f_next (w (f_prev f))) (w (f_next f)) w in
    let w2 : Words = store (f_prev (w1 (f_next f))) (w1 (f_prev f)) w1 in
    let w' : Words = store (f_prev f) 0 (store (f_next f) 0 w2) in
    let prev_eq : w (f_prev f) ≡ l = before in
    let not_first : (w (f_prev f) == 0) ≡ false = ground arith in
    let some_next : (w1 (f_next f) == 0) ≡ false = ground arith in
    let same : Unlinked w w' a f l y = λ q n1 n2 n3 n4 n5. ground arith in
    let old : Segment w 0 (w' (a_freelist a)) (x ∷ xs) f =
      subst (λ p. Segment w 0 p (x ∷ xs) f) (ground arith) segment in
    let new : w' (f_next l) ≡ w (f_next f) = ground arith in
    let keep_next : w' (f_next y) ≡ w (f_next y) = ground arith in
    let back : w' (f_prev y) ≡ l = ground arith in
    let chain : Segment w' 0 (w' (a_freelist a)) (x ∷ xs) (w (f_next f)) =
      Segment-retarget w w' 0 (w' (a_freelist a)) f (w (f_next f)) x xs
        (Spaced-left (x ∷ xs) (f ∷ y ∷ ys) h.spaced)
        (cells_before w w' a f l y (x ∷ xs) same
          (near_last x xs (Spaced-left (x ∷ xs) (f ∷ y ∷ ys) h.spaced)) apart apart_y behind)
        new old in
    (
      w',
      (
        rw not_first rw some_next refl,
        record {
          list = FreeList-join w' 0 (w' (a_freelist a)) (w (f_next f)) (x ∷ xs) (y ∷ ys) chain (
              FreeList-behind w w' f l (w (f_next f)) y ys back keep_next
                (cells_behind w w' a f l y ys same far.1.1 right.0.1 right.1.0 behind_f.1.1)
                (next, ypos, yprev, rest));
          spaced = Spaced-without (x ∷ xs) (y ∷ ys) f h.spaced;
          behind = Each-without (λ z. a + 16 ≤ z) (x ∷ xs) (y ∷ ys) f h.behind;
          magic = ground arith;
        },
        λ q n1 n2 links.
            let nl = Each-last (NoLink q) x xs (Each-left (NoLink q) (x ∷ xs) (f ∷ y ∷ ys) links) in
            let nr = Each-right (NoLink q) (x ∷ xs) (f ∷ y ∷ ys) links in
            same q n1 n2 nr.0 nl.1 nr.1.0.0,
      ),
    )

-- freeChunkUnlink takes any chunk out of an arena's list of free chunks without a panic: the list is
-- that of the others in the same order, the checksum is right, and only links, the list's head and
-- the checksum have changed.
pub free_chunk_unlink-Links :
    (w : Words) (a f : ℕ) (xs ys : List ℕ)
    → Links w a (xs ++ f ∷ ys)
    → (w' : Words) × ((free_chunk_unlink a f w ≡ ok w')
        × Links w' a (xs ++ ys)
        × Kept w w' a (xs ++ f ∷ ys))
free_chunk_unlink-Links w a f [] ys h = unlink_first w a f ys h
free_chunk_unlink-Links w a f (x ∷ xs) ys h = unlink_behind w a f x xs ys h

-- ===== src/Heap/Release/Front.antt =====
-- The forward loop of loomFree.
use loom_bootloader.Base.{
  ℕ, zero, suc, ◌+◌, ◌%◌, ◌≤◌, ◌<◌, ◌^◌, ◌≡◌, List, [], ◌∷◌, ◌++◌, arith, refl, sym, ap, ◌∙◌, inl,
  inr, ◌==◌, ◌&&◌, not, ltb, Bool, true, false, some, ok, Exec, length, checked_add,
}
use loom_bootloader.Base.Bits.{bit_or-zero}
use mathlib.Core.Path.{subst}
use mathlib.Core.List.{Perm, append_assoc}
use loom_bootloader.Memory.{store}
use loom_bootloader.Heap.{Words, c_size, size_of, flags_of, in_use, min_alloc, free_chunk_unlink}
use loom_bootloader.Heap.Free.{Each-map, NoLink, Kept}
use loom_bootloader.Heap.Tiles.{
  Chunk, spare, taken, starts, starts-within, frees, Tiles, Tiles-frame, NoHeaderLink,
}
use loom_bootloader.Heap.Arena.{Outer-headers, Side}
use loom_bootloader.Heap.Release.{with_more, merge_front}
use loom_bootloader.Heap.Release.Loose.{Loose, Loose-Near, relink, unlisted, placed}
use loom_bootloader.Heap.Release.Back.{spares, total}

with_more-ok :
    (n c m : ℕ) → 16 ≤ m → n + m < 2 ^ 32 → c + m < 2 ^ 32 → with_more n c m ≡ ok (n + m, c + m)
unfolding with_more
with_more-ok n c m room small below =
    let large : ltb m min_alloc ≡ false = ground arith in
    let size : checked_add n m ≡ some (n + m) = ground arith in
    let end : checked_add c m ≡ some (c + m) = ground arith in
    rw (with_more, large) rw size rw end refl

-- The round's calls.
front_run :
    (w w1 : Words) (a e f n m fuel : ℕ) (differ : Bool)
    → f + n < e
    → w (c_size (f + n)) ≡ m
    → w1 (c_size (f + n)) ≡ m
    → w (c_size f) ≡ n
    → w1 (c_size f) ≡ n
    → n % 8 ≡ 0
    → 16 ≤ m
    → m % 8 ≡ 0
    → f + n + m < 2 ^ 32
    → free_chunk_unlink a (f + n) w ≡ ok w1
    → merge_front (suc fuel) a e f (f + n) differ w
      ≡ merge_front fuel a e f (f + n + m) false (store (c_size f) (n + m) w1)
unfolding merge_front
front_run w w1 a e f n m fuel differ inside there there1 here here1 eight room eight_m small run =
    let go : ltb (f + n) e ≡ true = ground arith in
    let free : (in_use (w (c_size (f + n))) == 0) ≡ true = ground arith in
    let size : size_of (w (c_size f)) ≡ n = omega arith in
    let size1 : size_of (w1 (c_size (f + n))) ≡ m = omega arith in
    let flags : flags_of (w1 (c_size f)) ≡ 0 = omega arith in
    rw (go, free) rw run rw (size, size1) rw (with_more-ok n (f + n) m room (omega arith) small) rw
      flags rw (bit_or-zero (n + m)) refl

front_at :
    (w0 w : Words) (a e f n q m fuel : ℕ) (differ : Bool) (us vs : List Chunk) (ls rs : List ℕ)
    → Loose w0 w a e f n q us (spare m ∷ vs) (ls ++ (f + n) ∷ rs)
    → (w2 : Words) × ((merge_front (suc fuel) a e f (f + n) differ w
          ≡ merge_front fuel a e f (f + n + m) false w2)
        × Loose w0 w2 a e f (n + m) m us vs (ls ++ rs))
unfolding Tiles Kept
front_at w0 w a e f n q m fuel differ us vs ls rs s =
    let xs : List ℕ = ls ++ (f + n) ∷ rs in
    let near = Loose-Near w0 w a e f n q us (spare m ∷ vs) xs s in
    let (h1, h2, h3, h4, ahead) = s.behind in
    let below = near.below in
    let inside = near.inside in
    let (lo, hi) = near.right.0 in
    let fits = s.fits in
    let size = s.size in
    let room = s.room in
    let eight = s.eight in
    let span = s.span in
    let (within, last) = starts-within w (f + n + m) m e (f + n + m) vs (omega arith) ahead in
    let (w1, (run, k1, l2, outer, prev2, long, next)) =
      relink w a f (f + n) (n + m) ls rs below near.own s.links in
    let w2 : Words = store (c_size f) (n + m) w1 in
    let had1 : w1 (c_size f) ≡ n =
      k1 (c_size f) (omega arith) (omega arith)
        (Each-map (λ x. NoHeaderLink x f) (NoLink (c_size f)) xs (λ x l. l.1) near.own)
      ∙ size in
    let next1 : w1 (c_size (f + n)) ≡ m =
      k1 (c_size (f + n)) (omega arith) (omega arith) (
        Each-map (λ x. NoHeaderLink x (f + n)) (NoLink (c_size (f + n))) xs (λ x l. l.1)
          near.right_links.0)
      ∙ h2 in
    let step =
      front_run w w1 a e f n m fuel differ (omega arith) h2 next1 size had1 eight h4 h3
        (omega arith) run in
    let joined : f + n + m ≡ f + (n + m) = omega arith in
    let rest = unlisted (f + n) ls rs (frees (a + 16) us ++ f ∷ []) (frees (f + n + m) vs) (
      subst (λ l. Perm xs l)
        (sym (append_assoc (frees (a + 16) us) (f ∷ []) ((f + n) ∷ frees (f + n + m) vs)))
        s.listed) in
    (
      w2,
      (
        step,
        record {
          even = s.even;
          allocated = s.allocated;
          fits = s.fits;
          span = omega arith;
          place = s.place;
          before =
              Tiles-frame w w2 (a + 16) 1 f us
                (Outer-headers w w2 a f (f + 16) xs (starts (a + 16) us) outer
                  (Each-map (λ x. (a + 16 ≤ x) × (x + 16 ≤ f)) (Side a f (f + 16))
                    (starts (a + 16) us) (λ x l. (l.0, inl l.1)) near.left)
                  near.left_links)
                s.before;
          prev_size = prev2 ∙ s.prev_size;
          size = ground arith;
          eight = omega arith;
          room = omega arith;
          behind =
              subst (λ g. Tiles w2 g m e vs) joined
                (Tiles-frame w w2 (f + n + m) m e vs
                  (Outer-headers w w2 a f (f + 16) xs (starts (f + n + m) vs) outer
                    (Each-map (λ x. (f + n + m ≤ x) × (x + 16 ≤ e)) (Side a f (f + 16))
                      (starts (f + n + m) vs)
                      (λ x l. let from = l.0 in (omega arith, inr (omega arith))) within)
                    near.right_links.1)
                  ahead);
          links = l2;
          listed =
              subst (λ g. Perm (ls ++ rs) (frees (a + 16) us ++ f ∷ frees g vs)) joined
                (subst (λ l. Perm (ls ++ rs) l)
                  (append_assoc (frees (a + 16) us) (f ∷ []) (frees (f + n + m) vs)) rest);
          next = next ∙ s.next;
          outside = λ p side.
              outer p (omega arith) (omega arith) (near.beyond p side) (ground arith)
              ∙ s.outside p side;
        },
      ),
    )

-- The chunks do not begin with a free one.
abbrev pub NoSpareFirst : List Chunk → Type 0
NoSpareFirst [] = Unit {0}
NoSpareFirst (taken n ∷ vs) = Unit {0}
NoSpareFirst (spare n ∷ vs) = ⊥

-- What the loop ends with: the free chunks right behind are one with the chunk freed.
pub record Fronted (w0 : Words) (a e f n : ℕ) (us vs : List Chunk)
    (run : Exec (ℕ × Bool × Bool × Words)) : Type 0 where
  pub merged : List ℕ
  pub later : List Chunk
  pub inuse : Bool
  pub differ : Bool
  pub known : ℕ
  pub store : Words
  pub list : List ℕ
  pub split : vs ≡ spares merged ++ later
  pub taken_behind : NoSpareFirst later
  pub returns : run ≡ ok (f + (n + total merged), inuse, differ, store)
  pub at_end : (not (f + (n + total merged) == e) && not inuse) ≡ false
  pub parity : (0 == in_use known) ≡ not differ
  pub loose : Loose w0 store a e f (n + total merged) known us later list

front_end :
    (w0 w : Words) (a e f n q : ℕ) (differ inuse : Bool) (us vs : List Chunk) (xs : List ℕ)
    (run : Exec (ℕ × Bool × Bool × Words))
    → Loose w0 w a e f n q us vs xs
    → (0 == in_use q) ≡ not differ
    → NoSpareFirst vs
    → run ≡ ok (f + n, inuse, differ, w)
    → (not (f + n == e) && not inuse) ≡ false
    → Fronted w0 a e f n us vs run
front_end w0 w a e f n q differ inuse us vs xs run s parity first returns done =
    let whole : n ≡ n + 0 = omega arith in
    record {
      merged = [];
      later = vs;
      inuse = inuse;
      differ = differ;
      known = q;
      store = w;
      list = xs;
      split = refl;
      taken_behind = first;
      returns = subst (λ m. run ≡ ok (f + m, inuse, differ, w)) whole returns;
      at_end = subst (λ m. (not (f + m == e) && not inuse) ≡ false) whole done;
      parity = parity;
      loose = subst (λ m. Loose w0 w a e f m q us vs xs) whole s;
    }

-- Enough fuel is more than there are chunks behind.
pub merge_front-Fronted :
    (fuel : ℕ) (w0 w : Words) (a e f n q : ℕ) (differ : Bool) (us vs : List Chunk) (xs : List ℕ)
    → length vs < fuel
    → (0 == in_use q) ≡ not differ
    → Loose w0 w a e f n q us vs xs
    → Fronted w0 a e f n us vs (merge_front fuel a e f (f + n) differ w)
unfolding merge_front Tiles
merge_front-Fronted zero w0 w a e f n q differ us vs xs lt parity s = absurd (omega arith)
merge_front-Fronted (suc fuel) w0 w a e f n q differ us [] xs lt parity s =
    let over : ltb (f + n) e ≡ false = ground (arith, s.behind) in
    let here : (f + n == e) ≡ true = ground (arith, s.behind) in
    front_end w0 w a e f n q differ false us [] xs (merge_front (suc fuel) a e f (f + n) differ w) s
      parity tt (rw over refl) (rw here refl)
merge_front-Fronted (suc fuel) w0 w a e f n q differ us (taken m ∷ vs) xs lt parity s =
    let (h1, h2, h3, h4, ahead) = s.behind in
    let (within, last) = starts-within w (f + n + m) (m + 1) e (f + n + m) vs (omega arith) ahead in
    let go : ltb (f + n) e ≡ true = ground arith in
    let busy : (in_use (w (c_size (f + n))) == 0) ≡ false = ground arith in
    let before_end : (f + n == e) ≡ false = ground arith in
    front_end w0 w a e f n q differ true us (taken m ∷ vs) xs
      (merge_front (suc fuel) a e f (f + n) differ w) s parity tt (rw (go, busy) refl)
      (rw before_end refl)
merge_front-Fronted (suc fuel) w0 w a e f n q differ us (spare m ∷ vs) xs lt parity s =
    let (h1, h2, h3, h4, ahead) = s.behind in
    let p = placed (f + n) xs (frees (a + 16) us ++ f ∷ []) (frees (f + n + m) vs) (
      subst (λ l. Perm xs l)
        (sym (append_assoc (frees (a + 16) us) (f ∷ []) ((f + n) ∷ frees (f + n + m) vs)))
        s.listed) in
    let s1 = subst (λ l. Loose w0 w a e f n q us (spare m ∷ vs) l) p.eq s in
    let (w2, (run, loose)) = front_at w0 w a e f n q m fuel differ us vs p.ls p.rs s1 in
    let free : (0 == in_use m) ≡ true = ground arith in
    let r =
      merge_front-Fronted fuel w0 w2 a e f (n + m) m false us vs (p.ls ++ p.rs) (omega arith) free
        loose in
    let joined : f + (n + m) ≡ f + n + m = omega arith in
    let sum : n + m + total r.merged ≡ n + (m + total r.merged) = omega arith in
    record {
      merged = m ∷ r.merged;
      later = r.later;
      inuse = r.inuse;
      differ = r.differ;
      known = r.known;
      store = r.store;
      list = r.list;
      split = ap (λ l. spare m ∷ l) r.split;
      taken_behind = r.taken_behind;
      returns =
          run
          ∙ subst
              (λ c.
                merge_front fuel a e f c false w2
                ≡ ok (f + (n + m + total r.merged), r.inuse, r.differ, r.store))
              joined r.returns
          ∙ ap (λ t. ok (f + t, r.inuse, r.differ, r.store)) sum;
      at_end = subst (λ t. (not (f + t == e) && not r.inuse) ≡ false) sum r.at_end;
      parity = r.parity;
      loose = subst (λ t. Loose w0 r.store a e f t r.known us r.later r.list) sum r.loose;
    }

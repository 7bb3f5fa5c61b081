-- ===== src/Heap/Release/Ends.antt =====
-- The first and the last step of loomFree in an arena.
use loom_bootloader.Base.{
  ℕ, ◌+◌, ◌%◌, ◌≤◌, ◌<◌, ◌^◌, ◌≡◌, List, ◌∷◌, ◌++◌, arith, refl, sym, ap, ◌∙◌, ◌⊎◌, inl, inr, ◌==◌,
  not, Bool, ok,
}
use mathlib.Core.Path.{subst}
use mathlib.Core.List.{Perm, perm_middle, perm-cons}
use mathlib.Core.List.Perm
use loom_bootloader.Memory.{store}
use loom_bootloader.Heap.{
  Words, c_prev_size, c_size, a_length, a_next, in_use, free_chunk_link, chunk_update_next,
}
use loom_bootloader.Heap.Free.{
  Each, Each-map, Each-append, Each-left, Each-right, Apart, NoLink, Kept, Links,
  free_chunk_link-Links,
}
use loom_bootloader.Heap.Tiles.{
  Chunk, spare, taken, stop, last_word, starts, starts-append, starts-within, frees, frees-append,
  Tiles, Tiles-split, Tiles-join, Tiles-frame, SameHeader, NoHeaderLink, stop-aligned, Each-frees,
  Each-Perm,
}
use loom_bootloader.Heap.Arena.{
  IsArena, Outer, Outer-headers, Side, Clear, Links-outside, update_tail, beyond-NoLink,
}
use loom_bootloader.Heap.Hole.{no_links, length-Kept}
use loom_bootloader.Heap.Release.Loose.{Loose, Loose-Near, Links-at}

-- The chunk loses its flag and becomes the first of the list.
pub release_first :
    (w : Words) (a n : ℕ) (us vs : List Chunk) (xs : List ℕ)
    → IsArena w a (us ++ taken n ∷ vs) xs
    → (w (c_size (stop (a + 16) us)) ≡ n + 1)
      × (n % 8 ≡ 0)
      × ((w2 : Words) × ((free_chunk_link a
                (stop (a + 16) us)
                (store (c_size (stop (a + 16) us)) n w)
              ≡ ok w2)
            × Loose w w2 a
                (a + w (a_length a))
                (stop (a + 16) us)
                n
                (n + 1)
                us
                vs
                (stop (a + 16) us ∷ xs)))
unfolding Tiles Kept
release_first w a n us vs xs h =
    let f : ℕ = stop (a + 16) us in
    let e : ℕ = a + w (a_length a) in
    let cs : List Chunk = us ++ taken n ∷ vs in
    let (before, (t1, t2, t3, t4, behind)) = Tiles-split w (a + 16) 1 e us (taken n ∷ vs) h.tiles in
    let (wl, below) = starts-within w (a + 16) 1 f (a + 16) us (omega arith) before in
    let (wr, inside) = starts-within w (f + n) (n + 1) e (f + n) vs (omega arith) behind in
    let listed : Perm xs (frees (a + 16) us ++ frees (f + n) vs) =
      subst (λ l. Perm xs l) (frees-append (a + 16) us (taken n ∷ vs)) h.listed in
    let links =
      subst (Each (λ b. Each (λ x. NoHeaderLink x b) xs)) (starts-append (a + 16) us (taken n ∷ vs))
        (no_links w a e cs xs h.tiles h.listed) in
    let links_us =
      Each-left (λ b. Each (λ x. NoHeaderLink x b) xs) (starts (a + 16) us) (f ∷ starts (f + n) vs)
        links in
    let links_f =
      Each-right (λ b. Each (λ x. NoHeaderLink x b) xs) (starts (a + 16) us) (f ∷ starts (f + n) vs)
        links in
    let clear : Each (Clear f (f + n)) xs =
      Each-Perm (Clear f (f + n)) (λ x. hlevel) xs (frees (a + 16) us ++ frees (f + n) vs) listed
        (Each-append (Clear f (f + n)) (frees (a + 16) us) (frees (f + n) vs)
          (Each-frees (Clear f (f + n)) (a + 16) us (
            Each-map (λ x. (a + 16 ≤ x) × (x + 16 ≤ f)) (Clear f (f + n)) (starts (a + 16) us)
              (λ x k. let hi = k.1 in ground arith) wl))
          (Each-frees (Clear f (f + n)) (f + n) vs (
            Each-map (λ x. (f + n ≤ x) × (x + 16 ≤ e)) (Clear f (f + n)) (starts (f + n) vs)
              (λ x k. let lo = k.0 in ground arith) wr))) in
    let far : Each (Apart f) xs =
      Each-map (Clear f (f + n)) (Apart f) xs (λ x c. ground arith) clear in
    let w1 : Words = store (c_size f) n w in
    let l1 : Links w1 a xs =
      Links-at w a (c_size f) n xs (omega arith)
        (Each-map (λ x. NoHeaderLink x f) (NoLink (c_size f)) xs (λ x k. k.1) links_f.0) h.links in
    let (w2, (run, l2, k2)) = free_chunk_link-Links w1 a f xs l1 below far in
    let own = Each-map (λ x. NoHeaderLink x f) (NoLink f) xs (λ x k. k.0) links_f.0 in
    let own_size = Each-map (λ x. NoHeaderLink x f) (NoLink (c_size f)) xs (λ x k. k.1) links_f.0 in
    let outer : Outer w w2 a f (f + 16) xs =
      λ q n1 n2 nl side. ground (arith, k2 q n1 n2 ((ground arith, ground arith), nl)) in
    let prev : w2 f ≡ w f =
      ground (arith, k2 f (omega arith) (omega arith) ((omega arith, omega arith), own)) in
    let size : w2 (c_size f) ≡ n =
      ground
        (arith, k2 (c_size f) (omega arith) (omega arith) ((omega arith, omega arith), own_size)) in
    let behind8 =
      Each-map (λ z. a + 16 ≤ z) (NoLink (a + 8)) xs (λ z k. (omega arith, omega arith))
        h.links.behind in
    let next : w2 (a + 8) ≡ w (a + 8) =
      ground
        (arith, k2 (a + 8) (omega arith) (omega arith) ((omega arith, omega arith), behind8)) in
    let long : w2 a ≡ w a =
      ground (arith, length-Kept w1 w2 a (f ∷ xs) (below, h.links.behind) k2) in
    (
      t2,
      t3,
      (
        w2,
        (
          run,
          record {
            even = h.aligned;
            allocated = h.allocated;
            fits = h.fits;
            span = ap (λ l. a + l) long;
            place = refl;
            before =
                Tiles-frame w w2 (a + 16) 1 f us
                  (Outer-headers w w2 a f (f + 16) xs (starts (a + 16) us) outer
                    (Each-map (λ x. (a + 16 ≤ x) × (x + 16 ≤ f)) (Side a f (f + 16))
                      (starts (a + 16) us) (λ x l. (l.0, inl l.1)) wl)
                    links_us)
                  before;
            prev_size = prev ∙ t1;
            size = size;
            eight = t3;
            room = t4;
            behind =
                Tiles-frame w w2 (f + n) (n + 1) e vs
                  (Outer-headers w w2 a f (f + 16) xs (starts (f + n) vs) outer
                    (Each-map (λ x. (f + n ≤ x) × (x + 16 ≤ e)) (Side a f (f + 16))
                      (starts (f + n) vs)
                      (λ x l. let from = l.0 in (omega arith, inr (omega arith))) wr)
                    links_f.1)
                  behind;
            links = l2;
            listed =
                Perm.trans ((perm-cons f).1 listed)
                  (Perm.symm (perm_middle (frees (a + 16) us) (frees (f + n) vs)));
            next = next;
            outside = λ p side.
                outer p (ground arith) (ground arith) (beyond-NoLink w a p cs xs h side)
                  (ground arith);
          },
        ),
      ),
    )

-- chunkUpdateNext makes a loose arena one again.
pub release_last :
    (w0 w : Words) (a e n q : ℕ) (differ : Bool) (us vs : List Chunk) (xs : List ℕ)
    → Loose w0 w a e (stop (a + 16) us) n q us vs xs
    → (0 == in_use q) ≡ not differ
    → (w' : Words) × ((chunk_update_next a (stop (a + 16) us) differ w ≡ ok w')
        × IsArena w' a (us ++ spare n ∷ vs) xs
        × (w' (a_length a) ≡ w (a_length a))
        × (w' (a_next a) ≡ w0 (a_next a))
        × ((p : ℕ) → (p < a) ⊎ (e ≤ p) → w' p ≡ w0 p))
unfolding Tiles
release_last w0 w a e n q differ us vs xs s parity =
    let f : ℕ = stop (a + 16) us in
    let near = Loose-Near w0 w a e f n q us vs xs s in
    let below = near.below in
    let inside = near.inside in
    let fits = s.fits in
    let span = s.span in
    let size = s.size in
    let eight = s.eight in
    let room = s.room in
    let start : f % 8 ≡ 0 =
      stop-aligned w (a + 16) 1 f us (let al = s.even in omega arith) s.before in
    let free : in_use (w (c_size f)) ≡ 0 = omega arith in
    let (w', (run, t', same)) =
      update_tail w a f n q e differ vs fits (omega arith) (omega arith) (omega arith)
        (ap (λ x. x == in_use q) free ∙ parity) s.behind in
    let clear : Each (Clear (f + n) (f + n)) xs =
      Each-Perm (Clear (f + n) (f + n)) (λ x. hlevel) xs (frees (a + 16) us ++ f ∷ frees (f + n) vs)
        s.listed
        (Each-append (Clear (f + n) (f + n)) (frees (a + 16) us) (f ∷ frees (f + n) vs)
          (Each-frees (Clear (f + n) (f + n)) (a + 16) us (
            Each-map (λ x. (a + 16 ≤ x) × (x + 16 ≤ f)) (Clear (f + n) (f + n)) (starts (a + 16) us)
              (λ x k. let hi = k.1 in ground arith) near.left))
          (
            ground arith,
            Each-frees (Clear (f + n) (f + n)) (f + n) vs (
                Each-map (λ x. (f + n ≤ x) × (x + 16 ≤ e)) (Clear (f + n) (f + n))
                  (starts (f + n) vs) (λ x k. let lo = k.0 in ground arith) near.right),
          )) in
    let size' : w' (c_size f) ≡ n = same (c_size f) (inl (omega arith)) ∙ size in
    let prev' : w' (c_prev_size f) ≡ last_word 1 us = same f (inl (omega arith)) ∙ s.prev_size in
    let long : a + w' (a_length a) ≡ e = ap (λ l. a + l) (same a (inl (omega arith))) ∙ span in
    let left : Tiles w' (a + 16) 1 f us =
      Tiles-frame w w' (a + 16) 1 f us
        (Each-map (λ x. (a + 16 ≤ x) × (x + 16 ≤ f)) (SameHeader w w') (starts (a + 16) us)
          (λ x l. let hi = l.1 in (same x (inl (omega arith)), same (x + 4) (inl (omega arith))))
          near.left)
        s.before in
    let tail : Tiles w' (f + n) n e vs = subst (λ p. Tiles w' (f + n) p e vs) size t' in
    (
      w',
      (
        run,
        record {
          aligned = s.even;
          allocated = s.allocated;
          fits = subst (λ l. l < 2 ^ 32) (sym long) fits;
          tiles =
              subst (λ l. Tiles w' (a + 16) 1 l (us ++ spare n ∷ vs)) (sym long)
                (Tiles-join w' (a + 16) 1 e us (spare n ∷ vs) left
                  (prev', size', eight, room, tail));
          links =
              Links-outside w w' a (f + n) (f + n) xs (omega arith)
                (λ p side. same p (ground arith)) clear s.links;
          listed = subst (λ l. Perm xs l) (sym (frees-append (a + 16) us (spare n ∷ vs))) s.listed;
        },
        same a (inl (omega arith)),
        same (a + 8) (inl (omega arith)) ∙ s.next,
        λ p side. same p (ground arith) ∙ s.outside p side,
      ),
    )

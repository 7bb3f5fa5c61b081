-- ===== src/Heap/Release/Step.antt =====
-- A round of the backward loop of loomFree.
use loom_bootloader.Base.{
  ℕ, suc, ◌+◌, ◌-◌, ◌%◌, ◌≤◌, ◌<◌, ◌^◌, ◌≡◌, List, [], ◌∷◌, ◌++◌, arith, refl, sym, ap, ◌∙◌, inl,
  inr, ◌==◌, ◌||◌, not, ltb, true, false, some, ok, bit_or, usize, checked_sub,
}
use loom_bootloader.Base.Bits.{bit_or-zero}
use mathlib.Core.Path.{subst}
use mathlib.Core.List.{Perm, append_assoc}
use loom_bootloader.Memory.{store}
use loom_bootloader.Heap.{
  Words, c_prev_size, c_size, size_of, flags_of, in_use, min_alloc, free_chunk_unlink,
}
use loom_bootloader.Heap.Free.{Each, Each-map, Each-left, Each-right, NoLink, Kept}
use loom_bootloader.Heap.Tiles.{
  Chunk, spare, size_word, bytes, stop, last_word, starts, starts-append, starts-within, frees,
  Tiles, Tiles-split, Tiles-frame, NoHeaderLink, frees-append,
}
use loom_bootloader.Heap.Arena.{Outer-headers, Side}
use loom_bootloader.Heap.Release.{chunk_before, merge_back}
use loom_bootloader.Heap.Release.Loose.{Loose, Loose-Near, relink, unlisted}

pub last_word-append :
    (p : ℕ) (us : List Chunk) (c : Chunk) → last_word p (us ++ c ∷ []) ≡ size_word c
last_word-append p [] c = refl
last_word-append p (u ∷ us) c = last_word-append (size_word u) us c

pub stop-append : (b : ℕ) (us vs : List Chunk) → stop b (us ++ vs) ≡ stop (stop b us) vs
stop-append b [] vs = refl
stop-append b (u ∷ us) vs = stop-append (b + bytes u) us vs

-- The checks of the chunk before pass.
chunk_before-ok :
    (start f k : ℕ) (w : Words)
    → 16 ≤ k
    → k % 8 ≡ 0
    → start + k ≤ f
    → w (c_size (f - k)) ≡ k
    → chunk_before start f k w ≡ ok (f - k)
unfolding chunk_before
chunk_before-ok start f k w room eight le size =
    let large : ltb k min_alloc ≡ false = ground arith in
    let address : checked_sub f k ≡ some (f - k) = ground arith in
    let inside : ltb (f - k) start ≡ false = ground arith in
    let fine : (not (in_use (w (c_size (f - k))) == 0) || not (size_of (w (c_size (f - k))) == k))
        ≡ false =
      ground arith in
    rw (chunk_before, large) rw (address) rw (inside, fine) refl

grown_back :
    (n k word : ℕ) → k + n < 2 ^ 32 → word % 8 ≡ 0 → bit_or (usize (k + n)) (flags_of word) ≡ k + n
grown_back n k word small flags =
    let whole : usize (k + n) ≡ k + n = omega arith in rw (flags, whole) (bit_or-zero (k + n))

-- The round's calls.
back_run :
    (w w1 : Words) (a f n k fuel : ℕ)
    → w (c_prev_size f) ≡ k
    → size_of (w (c_size f)) ≡ n
    → 16 ≤ k
    → k % 8 ≡ 0
    → k + n < 2 ^ 32
    → a + 16 + k ≤ f
    → w (c_size (f - k)) ≡ k
    → w1 (c_size (f - k)) ≡ k
    → free_chunk_unlink a f w ≡ ok w1
    → merge_back (suc fuel) a (a + 16) f w
      ≡ merge_back fuel a (a + 16) (f - k) (store (c_size (f - k)) (k + n) w1)
unfolding merge_back
back_run w w1 a f n k fuel prev size room eight small le there there1 run =
    let free : (in_use (w (c_prev_size f)) == 0) ≡ true = ground arith in
    let whole : size_of (w (c_prev_size f)) ≡ k = omega arith in
    let word : bit_or (usize (k + n)) (flags_of (w1 (c_size (f - k)))) ≡ k + n =
      grown_back n k (w1 (c_size (f - k))) small (omega arith) in
    rw free rw (whole, size) rw (chunk_before-ok (a + 16) f k w room eight le there) rw run rw word
      refl

back_listed :
    (a b n k : ℕ) (us vs : List Chunk) (ls rs : List ℕ)
    → b ≡ stop (a + 16) us
    → Perm
        (ls ++ (b + k) ∷ rs)
        (frees (a + 16) (us ++ spare k ∷ []) ++ (b + k) ∷ frees (b + k + n) vs)
    → Perm (ls ++ rs) (frees (a + 16) us ++ b ∷ frees (b + (k + n)) vs)
back_listed a b n k us vs ls rs place p =
    let zs : List ℕ = frees (b + k + n) vs in
    let rest = unlisted (b + k) ls rs (frees (a + 16) (us ++ spare k ∷ [])) zs p in
    let joined : b + k + n ≡ b + (k + n) = omega arith in
    let parts : frees (a + 16) (us ++ spare k ∷ []) ++ zs ≡ frees (a + 16) us ++ b ∷ zs =
      ap (λ l. l ++ zs) (frees-append (a + 16) us (spare k ∷ []))
      ∙ append_assoc (frees (a + 16) us) (stop (a + 16) us ∷ []) zs
      ∙ ap (λ g. frees (a + 16) us ++ g ∷ zs) (sym place) in
    subst (λ g. Perm (ls ++ rs) (frees (a + 16) us ++ b ∷ frees g vs)) joined
      (subst (λ l. Perm (ls ++ rs) l) parts rest)

pub back_at :
    (w0 w : Words) (a e b n q k : ℕ) (us vs : List Chunk) (ls rs : List ℕ) (fuel : ℕ)
    → b ≡ stop (a + 16) us
    → Loose w0 w a e (b + k) n q (us ++ spare k ∷ []) vs (ls ++ (b + k) ∷ rs)
    → (w2 : Words) × ((merge_back (suc fuel) a (a + 16) (b + k) w ≡ merge_back fuel a (a + 16) b w2)
        × Loose w0 w2 a e b (k + n) q us vs (ls ++ rs))
unfolding Tiles Kept
back_at w0 w a e b n q k us vs ls rs fuel place s =
    let f : ℕ = b + k in
    let xs : List ℕ = ls ++ f ∷ rs in
    let near = Loose-Near w0 w a e f n q (us ++ spare k ∷ []) vs xs s in
    let (left, (h1, h2, h3, h4, end)) = Tiles-split w (a + 16) 1 f us (spare k ∷ []) s.before in
    let left' : Tiles w (a + 16) 1 b us = subst (λ g. Tiles w (a + 16) 1 g us) (sym place) left in
    let prev : w (c_prev_size b) ≡ last_word 1 us =
      subst (λ g. w g ≡ last_word 1 us) (sym place) h1 in
    let had : w (c_size b) ≡ k = subst (λ g. w (c_size g) ≡ k) (sym place) h2 in
    let links =
      subst (Each (λ y. Each (λ x. NoHeaderLink x y) xs)) (starts-append (a + 16) us (spare k ∷ []))
        near.left_links in
    let links_us =
      Each-left (λ y. Each (λ x. NoHeaderLink x y) xs) (starts (a + 16) us) (stop (a + 16) us ∷ [])
        links in
    let links_b : Each (λ x. NoHeaderLink x b) xs =
      subst (λ g. Each (λ x. NoHeaderLink x g) xs) (sym place)
        (Each-right (λ y. Each (λ x. NoHeaderLink x y) xs) (starts (a + 16) us)
          (stop (a + 16) us ∷ []) links).0 in
    let (within, below) = starts-within w (a + 16) 1 b (a + 16) us (omega arith) left' in
    let inside = near.inside in
    let fits = s.fits in
    let size = s.size in
    let room = s.room in
    let eight = s.eight in
    let span = s.span in
    let (w1, (run, k1, l2, outer, prev2, long, next)) =
      relink w a b f (k + n) ls rs below links_b s.links in
    let w2 : Words = store (c_size b) (k + n) w1 in
    let had1 : w1 (c_size b) ≡ k =
      k1 (c_size b) (omega arith) (omega arith)
        (Each-map (λ x. NoHeaderLink x b) (NoLink (c_size b)) xs (λ x l. l.1) links_b)
      ∙ had in
    let back : f - k ≡ b = omega arith in
    let last : w (c_prev_size f) ≡ k = s.prev_size ∙ last_word-append 1 us (spare k) in
    let step =
      back_run w w1 a f n k fuel last (omega arith) h4 h3 (omega arith) (omega arith)
        (subst (λ g. w (c_size g) ≡ k) (sym back) had)
        (subst (λ g. w1 (c_size g) ≡ k) (sym back) had1) run in
    let ahead : Tiles w2 (f + n) q e vs =
      Tiles-frame w w2 (f + n) q e vs
        (Outer-headers w w2 a b (b + 16) xs (starts (f + n) vs) outer
          (Each-map (λ x. (f + n ≤ x) × (x + 16 ≤ e)) (Side a b (b + 16)) (starts (f + n) vs)
            (λ x l. let lo = l.0 in (omega arith, inr (omega arith))) near.right)
          near.right_links)
        s.behind in
    let joined : f + n ≡ b + (k + n) = omega arith in
    (
      w2,
      (
        subst
            (λ g.
              merge_back (suc fuel) a (a + 16) f w
              ≡ merge_back fuel a (a + 16) g (store (c_size g) (k + n) w1))
            back step,
        record {
          even = s.even;
          allocated = s.allocated;
          fits = s.fits;
          span = omega arith;
          place = place;
          before =
              Tiles-frame w w2 (a + 16) 1 b us
                (Outer-headers w w2 a b (b + 16) xs (starts (a + 16) us) outer
                  (Each-map (λ x. (a + 16 ≤ x) × (x + 16 ≤ b)) (Side a b (b + 16))
                    (starts (a + 16) us) (λ x l. (l.0, inl l.1)) within)
                  links_us)
                left';
          prev_size = prev2 ∙ prev;
          size = ground arith;
          eight = omega arith;
          room = omega arith;
          behind = subst (λ g. Tiles w2 g q e vs) joined ahead;
          links = l2;
          listed = back_listed a b n k us vs ls rs place s.listed;
          next = next ∙ s.next;
          outside = λ p side.
              outer p (omega arith) (omega arith) (near.beyond p side) (ground arith)
              ∙ s.outside p side;
        },
      ),
    )

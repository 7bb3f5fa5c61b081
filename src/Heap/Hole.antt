-- ===== src/Heap/Hole.antt =====
-- The place of one free chunk in an arena, and what chunkUpdateNext makes of it.
use loom_bootloader.Base.{
  ℕ, ◌+◌, ◌*◌, ◌/◌, ◌%◌, ◌≤◌, ◌<◌, ◌^◌, ◌≡◌, List, ◌∷◌, ◌++◌, arith, sym, ap, ◌∙◌, ◌⊎◌, inl, inr,
  Bool, not, ◌==◌, ok, bit_or,
}
use loom_bootloader.Base.Bits.{bit_or-zero, bit_or_sum}
use mathlib.Core.Path.{subst}
use mathlib.Core.List.{Perm, perm_middle, perm-cons}
use mathlib.Core.List.Perm
use loom_bootloader.Heap.{Words, c_prev_size, c_size, a_length, size_of, in_use, chunk_update_next}
use loom_bootloader.Heap.Free.{
  Each, Each-map, Each-append, Each-left, Each-right, NoLink, Kept, Links,
}
use loom_bootloader.Heap.Tiles.{
  Chunk, spare, stop, last_word, starts, frees, Tiles, Tiles-split, Tiles-join, Tiles-frame,
  SameHeader, NoHeaderLink, headers_no_links, starts-within, starts-append, stop-aligned, Each-Perm,
  Each-frees, frees-append,
}
use loom_bootloader.Heap.Arena.{
  IsArena, Outer, Side, Outer-headers, Clear, Links-outside, update_tail, beyond-NoLink,
}

-- The free chunks but one, and where they are.
pub listed_without :
    (a n : ℕ) (us vs : List Chunk) (ls rs : List ℕ)
    → Perm (ls ++ stop a us ∷ rs) (frees a (us ++ spare n ∷ vs))
    → Perm (ls ++ rs) (frees a us ++ frees (stop a us + n) vs)
listed_without a n us vs ls rs p =
    let f : ℕ = stop a us in
    let q : Perm (ls ++ f ∷ rs) (frees a us ++ f ∷ frees (f + n) vs) =
      subst (λ l. Perm (ls ++ f ∷ rs) l) (frees-append a us (spare n ∷ vs)) p in
    (perm-cons f).0 (
      Perm.trans (Perm.symm (perm_middle ls rs))
        (Perm.trans q (perm_middle (frees a us) (frees (f + n) vs))))

pub no_links :
    (w : Words) (a e : ℕ) (cs : List Chunk) (xs : List ℕ)
    → Tiles w (a + 16) 1 e cs
    → Perm xs (frees (a + 16) cs)
    → Each (λ b. Each (λ x. NoHeaderLink x b) xs) (starts (a + 16) cs)
no_links w a e cs xs t p =
    Each-map (λ b. Each (λ x. NoHeaderLink x b) (frees (a + 16) cs))
      (λ b. Each (λ x. NoHeaderLink x b) xs) (starts (a + 16) cs)
      (λ b. Each-Perm (λ x. NoHeaderLink x b) (λ x. hlevel) xs (frees (a + 16) cs) p)
      (headers_no_links w (a + 16) 1 e cs t)

-- The facts that the arena gives on the chunk at `f`.
pub record Hole (w : Words) (a f n : ℕ) (us vs : List Chunk) (ls rs : List ℕ) : Type 0 where
  pub below : a + 16 ≤ f
  pub before : Tiles w (a + 16) 1 f us
  pub prev_size : w (c_prev_size f) ≡ last_word 1 us
  pub size : w (c_size f) ≡ n
  pub start : f % 8 ≡ 0
  pub aligned : n % 8 ≡ 0
  pub room : 16 ≤ n
  pub behind : Tiles w (f + n) n (a + w (a_length a)) vs
  pub inside : f + n ≤ a + w (a_length a)
  pub clear : Each (Clear f (f + n)) (ls ++ rs)
  pub left : Each (λ b. (a + 16 ≤ b) × (b + 16 ≤ f)) (starts (a + 16) us)
  pub right : Each (Side a f (f + n)) (starts (f + n) vs)
  pub left_links : Each (λ b. Each (λ x. NoHeaderLink x b) (ls ++ f ∷ rs)) (starts (a + 16) us)
  pub right_links : Each (λ b. Each (λ x. NoHeaderLink x b) (ls ++ f ∷ rs)) (starts (f + n) vs)
  pub own : Each (NoLink f) (ls ++ f ∷ rs)
  pub rest : Perm (ls ++ rs) (frees (a + 16) us ++ frees (f + n) vs)

pub hole :
    (w : Words) (a n : ℕ) (us vs : List Chunk) (ls rs : List ℕ)
    → IsArena w a (us ++ spare n ∷ vs) (ls ++ stop (a + 16) us ∷ rs)
    → Hole w a (stop (a + 16) us) n us vs ls rs
unfolding Tiles
hole w a n us vs ls rs h =
    let f : ℕ = stop (a + 16) us in
    let e : ℕ = a + w (a_length a) in
    let (before, (t1, t2, t3, t4, behind)) = Tiles-split w (a + 16) 1 e us (spare n ∷ vs) h.tiles in
    let (wl, below) = starts-within w (a + 16) 1 f (a + 16) us (omega arith) before in
    let (wr, inside) = starts-within w (f + n) n e (f + n) vs (omega arith) behind in
    let rest = listed_without (a + 16) n us vs ls rs h.listed in
    let links =
      subst (Each (λ b. Each (λ x. NoHeaderLink x b) (ls ++ f ∷ rs)))
        (starts-append (a + 16) us (spare n ∷ vs))
        (no_links w a e (us ++ spare n ∷ vs) (ls ++ f ∷ rs) h.tiles h.listed) in
    let clear_left = Each-frees (Clear f (f + n)) (a + 16) us (
      Each-map (λ x. (a + 16 ≤ x) × (x + 16 ≤ f)) (Clear f (f + n)) (starts (a + 16) us)
        (λ x k. let hi = k.1 in ground arith) wl) in
    let clear_right = Each-frees (Clear f (f + n)) (f + n) vs (
      Each-map (λ x. (f + n ≤ x) × (x + 16 ≤ e)) (Clear f (f + n)) (starts (f + n) vs)
        (λ x k. let lo = k.0 in ground arith) wr) in
    record {
      below = below;
      before = before;
      prev_size = t1;
      size = t2;
      start = stop-aligned w (a + 16) 1 f us (let al = h.aligned in omega arith) before;
      aligned = t3;
      room = t4;
      behind = behind;
      inside = inside;
      clear =
          Each-Perm (Clear f (f + n)) (λ x. hlevel) (ls ++ rs)
            (frees (a + 16) us ++ frees (f + n) vs) rest
            (Each-append (Clear f (f + n)) (frees (a + 16) us) (frees (f + n) vs) clear_left
              clear_right);
      left = wl;
      right =
          Each-map (λ x. (f + n ≤ x) × (x + 16 ≤ e)) (Side a f (f + n)) (starts (f + n) vs)
            (λ x k. (let lo = k.0 in omega arith, inr k.0)) wr;
      left_links =
          Each-left (λ b. Each (λ x. NoHeaderLink x b) (ls ++ f ∷ rs)) (starts (a + 16) us)
            (f ∷ starts (f + n) vs) links;
      right_links =
          (Each-right (λ b. Each (λ x. NoHeaderLink x b) (ls ++ f ∷ rs)) (starts (a + 16) us)
            (f ∷ starts (f + n) vs) links).1;
      own =
          Each-map (λ x. NoHeaderLink x f) (NoLink f) (ls ++ f ∷ rs) (λ x l. l.0)
            (Each-right (λ b. Each (λ x. NoHeaderLink x b) (ls ++ f ∷ rs)) (starts (a + 16) us)
              (f ∷ starts (f + n) vs) links).0;
      rest = rest;
    }

-- The chunks `ms` in the place of the one at `f`, and the one behind knows the size of the last.
pub tiles_around :
    (w w' : Words) (a n e : ℕ) (us vs ms : List Chunk) (ls rs : List ℕ)
    → Hole w a (stop (a + 16) us) n us vs ls rs
    → Outer w w' a (stop (a + 16) us) (stop (a + 16) us + n + 1) (ls ++ stop (a + 16) us ∷ rs)
    → Tiles w' (stop (a + 16) us) (last_word 1 us) (stop (a + 16) us + n) ms
    → stop (stop (a + 16) us) ms ≡ stop (a + 16) us + n
    → Tiles w' (stop (a + 16) us + n) (last_word (last_word 1 us) ms) e vs
    → Tiles w' (a + 16) 1 e (us ++ (ms ++ vs))
tiles_around w w' a n e us vs ms ls rs s same here till behind =
    let f : ℕ = stop (a + 16) us in
    let left =
      Each-map (λ b. (a + 16 ≤ b) × (b + 16 ≤ f)) (Side a f (f + n + 1)) (starts (a + 16) us)
        (λ b k. (k.0, inl k.1)) s.left in
    Tiles-join w' (a + 16) 1 e us (ms ++ vs)
      (Tiles-frame w w' (a + 16) 1 f us
        (Outer-headers w w' a f (f + n + 1) (ls ++ f ∷ rs) (starts (a + 16) us) same left
          s.left_links)
        s.before)
      (Tiles-join w' f (last_word 1 us) e ms vs
        (subst (λ g. Tiles w' f (last_word 1 us) g ms) (sym till) here)
        (subst (λ g. Tiles w' g (last_word (last_word 1 us) ms) e vs) (sym till) behind))

-- The size word of a chunk in use.
pub tag_word : (n : ℕ) → n % 8 ≡ 0 → bit_or (bit_or n 0) 1 ≡ n + 1
tag_word n h =
    let eight : n / 8 * 8 ≡ n = omega arith in
    rw (bit_or-zero) (
      ap (λ x. bit_or x 1) (sym eight)
      ∙ bit_or_sum 3 (n / 8) 1 (omega arith)
      ∙ ap (λ x. x + 1) eight)

pub later-Clear :
    (f n : ℕ) (xs : List ℕ) → Each (Clear f (f + n)) xs → Each (Clear (f + n) (f + n)) xs
later-Clear f n xs h = Each-map (Clear f (f + n)) (Clear (f + n) (f + n)) xs (λ x k. ground arith) h

-- The arena's length is no link.
pub length-Kept :
    (w w' : Words) (a : ℕ) (xs : List ℕ)
    → Each (λ x. a + 16 ≤ x) xs
    → Kept w w' a xs
    → w' (a_length a) ≡ w (a_length a)
unfolding Kept
length-Kept w w' a xs behind same =
    same a (omega arith) (omega arith)
      (Each-map (λ x. a + 16 ≤ x) (NoLink a) xs (λ x k. (omega arith, omega arith)) behind)

-- A store in which the chunks `ms` have replaced the one at `f`, but the chunk behind them has
-- still the old size; `c` is the last of them, with `m` bytes, and `zs` the list of free chunks.
pub record Cut (w w2 : Words) (a f n c m : ℕ) (us vs ms : List Chunk) (xs zs : List ℕ)
    : Type 0 where
  pub ends : c + m ≡ f + n
  pub from : f ≤ c
  pub aligned : m % 8 ≡ 0
  pub length : w2 (a_length a) ≡ w (a_length a)
  pub outer : Outer w w2 a f (f + n) xs
  pub links : Links w2 a zs
  pub clear : Each (Clear (f + n) (f + n)) zs
  pub size : size_of (w2 (c_size c)) ≡ m
  pub here : Tiles w2 f (last_word 1 us) (f + n) ms
  pub till : stop f ms ≡ f + n
  pub word : last_word (last_word 1 us) ms ≡ w2 (c_size c)
  pub listed : Perm zs (frees (a + 16) (us ++ (ms ++ vs)))

-- The cells outside an arena are the same.
unfoldable pub Beyond : Words → Words → ℕ → Type 0
Beyond w w' a = (q : ℕ) → (q < a) ⊎ (a + w (a_length a) ≤ q) → w' q ≡ w q

-- chunkUpdateNext makes it an arena again.
pub chunk_update_next-IsArena :
    (w w2 : Words) (a n c m : ℕ) (differ : Bool) (us vs ms : List Chunk) (ls rs zs : List ℕ)
    → IsArena w a (us ++ spare n ∷ vs) (ls ++ stop (a + 16) us ∷ rs)
    → Cut w w2 a (stop (a + 16) us) n c m us vs ms (ls ++ stop (a + 16) us ∷ rs) zs
    → (in_use (w2 (c_size c)) == 0) ≡ not differ
    → (w3 : Words) × ((chunk_update_next a c differ w2 ≡ ok w3)
        × IsArena w3 a (us ++ (ms ++ vs)) zs
        × Outer w w3 a (stop (a + 16) us) (stop (a + 16) us + n + 1) (ls ++ stop (a + 16) us ∷ rs)
        × Beyond w w3 a)
unfolding Beyond
chunk_update_next-IsArena w w2 a n c m differ us vs ms ls rs zs h k parity =
    let f : ℕ = stop (a + 16) us in
    let e : ℕ = a + w (a_length a) in
    let s = hole w a n us vs ls rs h in
    let fits = h.fits in
    let start = s.start in
    let even = s.aligned in
    let below = s.below in
    let ends = k.ends in
    let from = k.from in
    let length = k.length in
    let behind : Tiles w2 (f + n) n e vs =
      Tiles-frame w w2 (f + n) n e vs
        (Outer-headers w w2 a f (f + n) (ls ++ f ∷ rs) (starts (f + n) vs) k.outer s.right
          s.right_links)
        s.behind in
    let even_n : in_use n ≡ 0 = omega arith in
    let (w3, (e3, t3, k3)) =
      update_tail w2 a c m n e differ vs fits (ground arith) k.size (omega arith)
        (ap (λ x. in_use (w2 (c_size c)) == x) even_n ∙ parity)
        (subst (λ g. Tiles w2 g n e vs) (sym ends) behind) in
    let here : Tiles w3 f (last_word 1 us) (f + n) ms =
      Tiles-frame w2 w3 f (last_word 1 us) (f + n) ms
        (Each-map (λ x. (f ≤ x) × (x + 16 ≤ f + n)) (SameHeader w2 w3) (starts f ms)
          (λ x l. let hi = l.1 in (k3 x (inl (omega arith)), k3 (x + 4) (inl (omega arith))))
          (starts-within w2 f (last_word 1 us) (f + n) f ms (omega arith) k.here).0)
        k.here in
    let outer : Outer w w3 a f (f + n + 1) (ls ++ f ∷ rs) =
      λ q n1 n2 nl side. k3 q (ground arith) ∙ k.outer q n1 n2 nl (ground arith) in
    let inside = s.inside in
    let long : w3 (a_length a) ≡ w (a_length a) = k3 a (inl (omega arith)) ∙ length in
    let tail : Tiles w3 (f + n) (last_word (last_word 1 us) ms) e vs =
      subst (λ p. Tiles w3 (f + n) p e vs) (sym k.word)
        (subst (λ g. Tiles w3 g (w2 (c_size c)) e vs) ends t3) in
    (
      w3,
      (
        e3,
        record {
          aligned = h.aligned;
          allocated = h.allocated;
          fits = subst (λ l. a + l < 2 ^ 32) (sym long) fits;
          tiles =
              subst (λ l. Tiles w3 (a + 16) 1 (a + l) (us ++ (ms ++ vs))) (sym long)
                (tiles_around w w3 a n e us vs ms ls rs s outer here k.till tail);
          links =
              Links-outside w2 w3 a (f + n) (f + n) zs (omega arith) (λ q side. k3 q (ground arith))
                k.clear k.links;
          listed = k.listed;
        },
        outer,
        λ q side.
            k3 q (ground arith)
            ∙ k.outer q (ground arith) (ground arith)
                (beyond-NoLink w a q (us ++ spare n ∷ vs) (ls ++ f ∷ rs) h side) (ground arith),
      ),
    )

-- ===== src/Heap/Release/Loose.antt =====
-- An arena while a chunk of it is being freed: the chunk behind does not know its size yet.
use loom_bootloader.Base.{
  ℕ, ◌+◌, ◌%◌, ◌≤◌, ◌<◌, ◌^◌, ◌≡◌, List, [], ◌∷◌, ◌++◌, arith, sym, ap, ◌⊎◌, inl, inr, ◌==◌, false,
  ok, Bool-cases,
}
use mathlib.Core.Path.{subst}
use mathlib.Core.List.{Perm, perm_middle, perm-cons}
use mathlib.Core.List.Perm
use loom_bootloader.Memory.{store}
use loom_bootloader.Heap.{
  Words, f_prev, f_next, c_prev_size, c_size, a_length, a_freelist, a_next, free_chunk_unlink,
}
use loom_bootloader.Heap.Free.{
  Each, Each-map, Each-left, Each-right, NoLink, Kept, Links, FreeList, FreeList-frame,
}
use loom_bootloader.Heap.Segment.{Each-without}
use loom_bootloader.Heap.Unlink.{free_chunk_unlink-Links}
use loom_bootloader.Heap.Tiles.{
  Chunk, spare, stop, last_word, starts, frees, bytes, Tiles, Laid, Tiles-Laid, Laid-within,
  Laid-no_links, NoHeaderLink, starts-append, Each-Perm, Each-frees, frees-append,
}
use loom_bootloader.Heap.Arena.{Outer}

-- The arena at `a` with the end `e`, with the free chunk at `f` between `us` and `vs`; `q` is the
-- size word that the chunk behind knows. Outside the arena the store is `w0`.
pub record Loose (w0 w : Words) (a e f n q : ℕ) (us vs : List Chunk) (xs : List ℕ) : Type 0 where
  pub even : a % 8 ≡ 0
  pub allocated : 0 < a
  pub fits : e < 2 ^ 32
  pub span : a + w (a_length a) ≡ e
  pub place : f ≡ stop (a + 16) us
  pub before : Tiles w (a + 16) 1 f us
  pub prev_size : w (c_prev_size f) ≡ last_word 1 us
  pub size : w (c_size f) ≡ n
  pub eight : n % 8 ≡ 0
  pub room : 16 ≤ n
  pub behind : Tiles w (f + n) q e vs
  pub links : Links w a xs
  pub listed : Perm xs (frees (a + 16) us ++ f ∷ frees (f + n) vs)
  pub next : w (a_next a) ≡ w0 (a_next a)
  pub outside : (p : ℕ) → (p < a) ⊎ (e ≤ p) → w p ≡ w0 p

Laid-join :
    (b e : ℕ) (us vs : List Chunk)
    → Laid b (stop b us) us
    → Laid (stop b us) e vs
    → Laid b e (us ++ vs)
unfolding Laid
Laid-join b e [] vs k h = h
Laid-join b e (c ∷ us) vs (h3, h4, k) h = (h3, h4, Laid-join (b + bytes c) e us vs k h)

-- What the layout of a loose arena gives: its headers are no links, and where they are.
pub record Near (a e f n : ℕ) (us vs : List Chunk) (xs : List ℕ) : Type 0 where
  pub below : a + 16 ≤ f
  pub inside : f + n ≤ e
  pub left : Each (λ b. (a + 16 ≤ b) × (b + 16 ≤ f)) (starts (a + 16) us)
  pub right : Each (λ b. (f + n ≤ b) × (b + 16 ≤ e)) (starts (f + n) vs)
  pub left_links : Each (λ b. Each (λ x. NoHeaderLink x b) xs) (starts (a + 16) us)
  pub own : Each (λ x. NoHeaderLink x f) xs
  pub right_links : Each (λ b. Each (λ x. NoHeaderLink x b) xs) (starts (f + n) vs)
  pub beyond : (p : ℕ) → (p < a) ⊎ (e ≤ p) → Each (NoLink p) xs

Near-stop :
    (w0 w : Words) (a e n q : ℕ) (us vs : List Chunk) (xs : List ℕ)
    → Loose w0 w a e (stop (a + 16) us) n q us vs xs
    → Near a e (stop (a + 16) us) n us vs xs
unfolding Laid
Near-stop w0 w a e n q us vs xs s =
    let f : ℕ = stop (a + 16) us in
    let cs : List Chunk = us ++ spare n ∷ vs in
    let left = Tiles-Laid w (a + 16) 1 f us s.before in
    let right = Tiles-Laid w (f + n) q e vs s.behind in
    let laid : Laid (a + 16) e cs =
      Laid-join (a + 16) e us (spare n ∷ vs) left (s.eight, s.room, right) in
    let listed : Perm xs (frees (a + 16) cs) =
      subst (λ l. Perm xs l) (sym (frees-append (a + 16) us (spare n ∷ vs))) s.listed in
    let links =
      Each-map (λ b. Each (λ x. NoHeaderLink x b) (frees (a + 16) cs))
        (λ b. Each (λ x. NoHeaderLink x b) xs) (starts (a + 16) cs)
        (λ b. Each-Perm (λ x. NoHeaderLink x b) (λ x. hlevel) xs (frees (a + 16) cs) listed)
        (Laid-no_links (a + 16) e cs laid) in
    let links' =
      subst (Each (λ b. Each (λ x. NoHeaderLink x b) xs)) (starts-append (a + 16) us (spare n ∷ vs))
        links in
    let (wl, below) = Laid-within (a + 16) f (a + 16) us (omega arith) left in
    let (wr, inside) = Laid-within (f + n) e (f + n) vs (omega arith) right in
    let there =
      Each-right (λ b. Each (λ x. NoHeaderLink x b) xs) (starts (a + 16) us) (f ∷ starts (f + n) vs)
        links' in
    record {
      below = below;
      inside = inside;
      left = wl;
      right = wr;
      left_links =
          Each-left (λ b. Each (λ x. NoHeaderLink x b) xs) (starts (a + 16) us)
            (f ∷ starts (f + n) vs) links';
      own = there.0;
      right_links = there.1;
      beyond = λ p side.
          Each-Perm (NoLink p) (λ x. hlevel) xs (frees (a + 16) cs) listed
            (Each-frees (NoLink p) (a + 16) cs (
              Each-map (λ x. (a + 16 ≤ x) × (x + 16 ≤ e)) (NoLink p) (starts (a + 16) cs)
                (λ x k. let lo = k.0 in let hi = k.1 in (ground arith, ground arith))
                (Laid-within (a + 16) e (a + 16) cs (omega arith) laid).0));
    }

pub Loose-Near :
    (w0 w : Words) (a e f n q : ℕ) (us vs : List Chunk) (xs : List ℕ)
    → Loose w0 w a e f n q us vs xs
    → Near a e f n us vs xs
Loose-Near w0 w a e f n q us vs xs s =
    subst (λ g. Near a e g n us vs xs) (sym s.place)
      (Near-stop w0 w a e n q us vs xs (subst (λ g. Loose w0 w a e g n q us vs xs) s.place s))

-- A store in a cell of a header.
pub Links-at :
    (w : Words) (a q v : ℕ) (xs : List ℕ)
    → a + 16 ≤ q
    → Each (NoLink q) xs
    → Links w a xs
    → Links (store q v w) a xs
Links-at w a q v xs lo clear h =
    let magic = h.magic in
    let w' : Words = store q v w in
    let k0 : w' a ≡ w a = ground arith in
    let k4 : w' (a + 4) ≡ w (a + 4) = ground arith in
    let k8 : w' (a + 8) ≡ w (a + 8) = ground arith in
    let k12 : w' (a + 12) ≡ w (a + 12) = ground arith in
    record {
      list =
          FreeList-frame w w' 0 (w' (a_freelist a)) xs
            (Each-map (NoLink q)
              (λ x. (w' (f_prev x) ≡ w (f_prev x)) × (w' (f_next x) ≡ w (f_next x))) xs
              (λ x k. let k1 = k.0 in let k2 = k.1 in (ground arith, ground arith)) clear)
            (subst (λ p. FreeList w 0 p xs) (sym k4) h.list);
      spaced = h.spaced;
      behind = h.behind;
      magic = rw (k0, k4, k8, k12) magic;
    }

-- The chunk `x` leaves the list, and the chunk `g` has another size.
pub relink :
    (w : Words) (a g x v : ℕ) (ls rs : List ℕ)
    → a + 16 ≤ g
    → Each (λ z. NoHeaderLink z g) (ls ++ x ∷ rs)
    → Links w a (ls ++ x ∷ rs)
    → (w1 : Words) × ((free_chunk_unlink a x w ≡ ok w1)
        × Kept w w1 a (ls ++ x ∷ rs)
        × Links (store (c_size g) v w1) a (ls ++ rs)
        × Outer w (store (c_size g) v w1) a g (g + 16) (ls ++ x ∷ rs)
        × (store (c_size g) v w1 (c_prev_size g) ≡ w (c_prev_size g))
        × (store (c_size g) v w1 (a_length a) ≡ w (a_length a))
        × (store (c_size g) v w1 (a_next a) ≡ w (a_next a)))
unfolding Kept
relink w a g x v ls rs lo clear h =
    let (w1, (e1, l1, k1)) = free_chunk_unlink-Links w a x ls rs h in
    let behind =
      Each-map (λ z. a + 16 ≤ z) (NoLink a) (ls ++ x ∷ rs) (λ z k. (omega arith, omega arith))
        h.behind in
    let same : w1 g ≡ w g =
      k1 g (omega arith) (omega arith)
        (Each-map (λ z. NoHeaderLink z g) (NoLink g) (ls ++ x ∷ rs) (λ z k. k.0) clear) in
    let behind8 =
      Each-map (λ z. a + 16 ≤ z) (NoLink (a + 8)) (ls ++ x ∷ rs) (λ z k. (omega arith, omega arith))
        h.behind in
    let long : w1 a ≡ w a = k1 a (omega arith) (omega arith) behind in
    let next : w1 (a + 8) ≡ w (a + 8) = k1 (a + 8) (omega arith) (omega arith) behind8 in
    (
      w1,
      (
        e1,
        k1,
        Links-at w1 a (c_size g) v (ls ++ rs) (omega arith)
            (Each-map (λ z. NoHeaderLink z g) (NoLink (c_size g)) (ls ++ rs) (λ z k. k.1)
              (Each-without (λ z. NoHeaderLink z g) ls rs x clear))
            l1,
        λ q n1 n2 nl side. ground (arith, k1 q n1 n2 nl),
        ground arith,
        ground arith,
        ground arith,
      ),
    )

pub unlisted :
    (x : ℕ) (ls rs ys zs : List ℕ) → Perm (ls ++ x ∷ rs) (ys ++ x ∷ zs) → Perm (ls ++ rs) (ys ++ zs)
unlisted x ls rs ys zs p =
    (perm-cons x).0 (Perm.trans (Perm.symm (perm_middle ls rs)) (Perm.trans p (perm_middle ys zs)))

-- A chunk of a permutation's list, in that list.
pub record Place (x : ℕ) (xs : List ℕ) : Type 0 where
  pub ls : List ℕ
  pub rs : List ℕ
  pub eq : xs ≡ ls ++ x ∷ rs

find_chunk : (x : ℕ) (xs : List ℕ) → Place x xs ⊎ Each (λ y. (y == x) ≡ false) xs
find_chunk x [] = inr tt
find_chunk x (y ∷ xs) = elim (Bool-cases (y == x)) [
  | inl same ↦ inl (record { ls = []; rs = xs; eq = ap (λ z. z ∷ xs) (ground arith) })
  | inr other ↦ elim (find_chunk x xs) [
    | inl p ↦ inl (record { ls = y ∷ p.ls; rs = p.rs; eq = ap (λ l. y ∷ l) p.eq })
    | inr none_there ↦ inr (other, none_there)
  ]
]

pub placed : (x : ℕ) (xs ys zs : List ℕ) → Perm xs (ys ++ x ∷ zs) → Place x xs
placed x xs ys zs p = elim (find_chunk x xs) [
  | inl there ↦ there
  | inr nowhere ↦
      let here =
        (Each-right (λ y. (y == x) ≡ false) ys (x ∷ zs)
          (Each-Perm (λ y. (y == x) ≡ false) (λ y. hlevel) (ys ++ x ∷ zs) xs (Perm.symm p)
            nowhere)).0 in
      absurd (ground arith)
]

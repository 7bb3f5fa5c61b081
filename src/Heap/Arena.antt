-- ===== src/Heap/Arena.antt =====
-- What an arena is: its header, its chunks, its list of free chunks and its checksum together.
use loom_bootloader.Base.{
  ℕ, ◌+◌, ◌-◌, ◌%◌, ◌≤◌, ◌<◌, ◌^◌, ◌≡◌, ◌≢◌, List, [], ◌∷◌, arith, refl, sym, ap, ◌∙◌, ◌⊎◌, inl,
  Bool, true, false, not, ◌&&◌, ◌||◌, ◌==◌, ltb, if◌then◌else◌, ok, panic, checked_add, some,
}
use mathlib.Core.Path.{subst}
use mathlib.Core.List.{Perm}
use loom_bootloader.Memory.{store}
use loom_bootloader.Heap.{
  Words, c_prev_size, c_size, f_prev, f_next, a_length, a_freelist, a_magic, size_of, in_use,
  arena_end, min_alloc, update_at, chunk_update_next,
}
use loom_bootloader.Heap.Free.{Each, Each-map, NoLink, FreeList, FreeList-frame, Links}
use loom_bootloader.Heap.Tiles.{
  Chunk, bytes, size_word, starts, frees, Tiles, Tiles-frame, Tiles-behind, SameHeader,
  NoHeaderLink, starts-within, Each-Perm, Each-frees,
}

-- The arena at `a` of the chunks `cs`; `xs` is its list of free chunks, in the list's order.
pub record IsArena (w : Words) (a : ℕ) (cs : List Chunk) (xs : List ℕ) : Type 0 where
  pub aligned : a % 8 ≡ 0
  pub allocated : 0 < a
  pub fits : a + w (a_length a) < 2 ^ 32
  pub tiles : Tiles w (a + 16) 1 (a + w (a_length a)) cs
  pub links : Links w a xs
  pub listed : Perm xs (frees (a + 16) cs)

-- Stores alike but at the cells of an arena's links, and from `f` to `g`.
abbrev pub Outer : Words → Words → (a f g : ℕ) → List ℕ → Type 0
Outer w w' a f g xs =
    (q : ℕ) → q ≢ a_freelist a → q ≢ a_magic a → Each (NoLink q) xs → (q < f) ⊎ (g ≤ q) → w' q ≡ w q

-- A header before `f` or from `g` on.
abbrev pub Side : (a f g : ℕ) → ℕ → Type 0
Side a f g b = (a + 16 ≤ b) × ((b + 16 ≤ f) ⊎ (g ≤ b))

pub Outer-headers :
    (w w' : Words) (a f g : ℕ) (xs bs : List ℕ)
    → Outer w w' a f g xs
    → Each (Side a f g) bs
    → Each (λ b. Each (λ x. NoHeaderLink x b) xs) bs
    → Each (SameHeader w w') bs
Outer-headers w w' a f g xs [] same h k = tt
Outer-headers w w' a f g xs (b ∷ bs) same ((lo, side), h) (nolink, k) = (
  (
    same b (omega arith) (omega arith)
        (Each-map (λ x. NoHeaderLink x b) (NoLink b) xs (λ x l. l.0) nolink) (ground arith),
    same (b + 4) (omega arith) (omega arith)
        (Each-map (λ x. NoHeaderLink x b) (NoLink (b + 4)) xs (λ x l. l.1) nolink) (ground arith),
  ),
  Outer-headers w w' a f g xs bs same h k,
)

-- A chunk whose first words are not between `f` and `g`.
abbrev pub Clear : ℕ → ℕ → ℕ → Type 0
Clear f g x = (ltb f (x + 16) && ltb x g) ≡ false

Clear-links :
    (w w' : Words) (f g : ℕ) (xs : List ℕ)
    → ((q : ℕ) → (q < f) ⊎ (g < q) → w' q ≡ w q)
    → Each (Clear f g) xs
    → Each (λ x. (w' (f_prev x) ≡ w (f_prev x)) × (w' (f_next x) ≡ w (f_next x))) xs
Clear-links w w' f g [] same h = tt
Clear-links w w' f g (x ∷ xs) same h =
    let c = h.0 in
    ((same (x + 8) (ground arith), same (x + 12) (ground arith)), Clear-links w w' f g xs same h.1)

-- A change between `f` and `g`, away from the free chunks, leaves their list.
pub Links-outside :
    (w w' : Words) (a f g : ℕ) (xs : List ℕ)
    → a + 16 ≤ f
    → ((q : ℕ) → (q < f) ⊎ (g < q) → w' q ≡ w q)
    → Each (Clear f g) xs
    → Links w a xs
    → Links w' a xs
Links-outside w w' a f g xs lo same clear h =
    let head : w' (a + 4) ≡ w (a + 4) = same (a + 4) (inl (omega arith)) in
    let k0 : w' a ≡ w a = same a (inl (omega arith)) in
    let k8 : w' (a + 8) ≡ w (a + 8) = same (a + 8) (inl (omega arith)) in
    let k12 : w' (a + 12) ≡ w (a + 12) = same (a + 12) (inl (omega arith)) in
    let magic = h.magic in
    record {
      list =
          FreeList-frame w w' 0 (w' (a_freelist a)) xs (Clear-links w w' f g xs same clear)
            (subst (λ p. FreeList w 0 p xs) (sym head) h.list);
      spaced = h.spaced;
      behind = h.behind;
      magic = rw (head, k0, k8, k12) magic;
    }

by_parity :
    (d : Bool) (x : Words)
    → (if not d then (if d then panic else ok x) else (if d then ok x else panic)) ≡ ok x
by_parity true x = refl
by_parity false x = refl

-- chunkUpdateNext after the last chunk or before another: the chunk behind gets the size word.
pub update_tail :
    (w : Words) (a c n p e : ℕ) (differ : Bool) (vs : List Chunk)
    → e < 2 ^ 32
    → arena_end w a ≡ e
    → size_of (w (c_size c)) ≡ n
    → (c + n) % 8 ≡ 0
    → (in_use (w (c_size c)) == in_use p) ≡ not differ
    → Tiles w (c + n) p e vs
    → (w' : Words) × ((chunk_update_next a c differ w ≡ ok w')
        × Tiles w' (c + n) (w (c_size c)) e vs
        × ((q : ℕ) → (q < c + n) ⊎ ((c + n < q) ⊎ (e ≤ q)) → w' q ≡ w q))
unfolding chunk_update_next update_at Tiles
update_tail w a c n p e differ [] small end size aligned parity h =
    let address : checked_add c (size_of (w (c_size c))) ≡ some (c + n) = ground (arith, h) in
    let inside : ltb (arena_end w a) (c + n) ≡ false = ground (arith, h) in
    let at_end : (c + n == arena_end w a) ≡ true = ground (arith, h) in
    (w, (rw (chunk_update_next, address) rw (inside, at_end) refl, h, λ q side. refl))
update_tail w a c n p e differ (v ∷ vs) small end size aligned parity (h1, h2, h3, h4, h) =
    let (within, le) =
      starts-within w (c + n + bytes v) (size_word v) e (c + n + 16) vs (omega arith) h in
    let w' : Words = store (c_prev_size (c + n)) (w (c_size c)) w in
    let address : checked_add c (size_of (w (c_size c))) ≡ some (c + n) = ground arith in
    let inside : ltb (arena_end w a) (c + n) ≡ false = ground arith in
    let not_end : (c + n == arena_end w a) ≡ false = ground arith in
    let room : (ltb (arena_end w a - (c + n)) min_alloc || not ((c + n) % 8 == 0)) ≡ false =
      ground arith in
    let parity' : (in_use (w (c_size c)) == in_use (w (c_prev_size (c + n)))) ≡ not differ =
      ap (λ x. in_use (w (c_size c)) == in_use x) h1 ∙ parity in
    let behind =
      Each-map (λ x. (c + n + 16 ≤ x) × (x + 16 ≤ e)) (SameHeader w w')
        (starts (c + n + bytes v) vs) (λ x k. let lo = k.0 in (ground arith, ground arith))
        within in
    (
      w',
      (
        rw (chunk_update_next, address) rw (inside, not_end) rw (room, parity')
            (by_parity differ w'),
        Tiles-behind w w' (c + n) p (w (c_size c)) e v vs (ground arith) (ground arith) behind
            (h1, h2, h3, h4, h),
        λ q side. ground arith,
      ),
    )

-- The cells outside an arena are no links of its chunks.
pub beyond-NoLink :
    (w : Words) (a q : ℕ) (cs : List Chunk) (xs : List ℕ)
    → IsArena w a cs xs
    → (q < a) ⊎ (a + w (a_length a) ≤ q)
    → Each (NoLink q) xs
beyond-NoLink w a q cs xs h side =
    let e : ℕ = a + w (a_length a) in
    Each-Perm (NoLink q) (λ x. hlevel) xs (frees (a + 16) cs) h.listed
      (Each-frees (NoLink q) (a + 16) cs (
        Each-map (λ x. (a + 16 ≤ x) × (x + 16 ≤ e)) (NoLink q) (starts (a + 16) cs)
          (λ x k. let lo = k.0 in let hi = k.1 in (ground arith, ground arith))
          (starts-within w (a + 16) 1 e (a + 16) cs (omega arith) h.tiles).0))

pub IsArena-large :
    (w : Words) (a : ℕ) (cs : List Chunk) (xs : List ℕ) → IsArena w a cs xs → 16 ≤ w (a_length a)
IsArena-large w a cs xs h =
    let (within, large) =
      starts-within w (a + 16) 1 (a + w (a_length a)) (a + 16) cs (omega arith) h.tiles in
    omega arith

-- An arena stays one while its cells are the same.
pub IsArena-frame :
    (w w' : Words) (a : ℕ) (cs : List Chunk) (xs : List ℕ)
    → IsArena w a cs xs
    → ((q : ℕ) → a ≤ q → q < a + w (a_length a) → w' q ≡ w q)
    → IsArena w' a cs xs
IsArena-frame w w' a cs xs h same =
    let e : ℕ = a + w (a_length a) in
    let links = h.links in
    let magic = links.magic in
    let (within, large) = starts-within w (a + 16) 1 e (a + 16) cs (omega arith) h.tiles in
    let k0 : w' a ≡ w a = same a (omega arith) (omega arith) in
    let k4 : w' (a + 4) ≡ w (a + 4) = same (a + 4) (omega arith) (omega arith) in
    let k8 : w' (a + 8) ≡ w (a + 8) = same (a + 8) (omega arith) (omega arith) in
    let k12 : w' (a + 12) ≡ w (a + 12) = same (a + 12) (omega arith) (omega arith) in
    let inner : Each (λ x. (ltb x a || ltb e (x + 16)) ≡ false) xs =
      Each-Perm (λ x. (ltb x a || ltb e (x + 16)) ≡ false) (λ x. hlevel) xs (frees (a + 16) cs)
        h.listed
        (Each-frees (λ x. (ltb x a || ltb e (x + 16)) ≡ false) (a + 16) cs
          (Each-map (λ x. (a + 16 ≤ x) × (x + 16 ≤ e)) (λ x. (ltb x a || ltb e (x + 16)) ≡ false)
            (starts (a + 16) cs) (λ x k. let lo = k.0 in let hi = k.1 in ground arith) within)) in
    record {
      aligned = h.aligned;
      allocated = h.allocated;
      fits = subst (λ l. a + l < 2 ^ 32) (sym k0) h.fits;
      tiles =
          subst (λ l. Tiles w' (a + 16) 1 (a + l) cs) (sym k0)
            (Tiles-frame w w' (a + 16) 1 e cs
              (Each-map (λ x. (a + 16 ≤ x) × (x + 16 ≤ e)) (SameHeader w w') (starts (a + 16) cs)
                (λ x k.
                  let lo = k.0 in
                  let hi = k.1 in
                  (same x (omega arith) (omega arith), same (x + 4) (omega arith) (omega arith)))
                within)
              h.tiles);
      links = record {
        list =
            FreeList-frame w w' 0 (w' (a_freelist a)) xs
              (Each-map (λ x. (ltb x a || ltb e (x + 16)) ≡ false)
                (λ x. (w' (f_prev x) ≡ w (f_prev x)) × (w' (f_next x) ≡ w (f_next x))) xs
                (λ x k. (
                  same (x + 8) (ground arith) (ground arith),
                  same (x + 12) (ground arith) (ground arith),
                ))
                inner)
              (subst (λ p. FreeList w 0 p xs) (sym k4) links.list);
        spaced = links.spaced;
        behind = links.behind;
        magic = rw (k0, k4, k8, k12) magic;
      };
      listed = h.listed;
    }

-- ===== src/Heap/Search.antt =====
-- The search for a free chunk in an arena, and the allocation there.
use loom_bootloader.Base.{
  ℕ, zero, suc, ◌+◌, ◌-◌, ◌%◌, ◌≤◌, ◌<◌, ◌≡◌, List, [], ◌∷◌, ◌++◌, arith, refl, sym, ap, ◌∙◌, ◌⊎◌,
  inl, inr, true, false, ◌==◌, leb, ok, length, Bool-cases,
}
use mathlib.Core.Path.{subst}
use loom_bootloader.Heap.{
  Words, c_size, f_next, a_length, a_next, size_of, in_use, min_alloc, free_chunk_split, first_fit,
}
use loom_bootloader.Heap.Free.{Each, Each-map, FreeList, NoLink}
use loom_bootloader.Heap.Tiles.{Chunk, spare, taken, stop, frees, Tiles, Tiles-split, Each-Perm}
use loom_bootloader.Heap.Arena.{Outer, IsArena}
use loom_bootloader.Heap.Hole.{Beyond, hole}
use loom_bootloader.Heap.Split.{carve, relist_if, free_chunk_split-IsArena}

-- A free chunk, told from its address.
record Found (b f : ℕ) (cs : List Chunk) : Type 0 where
  pub before : List Chunk
  pub size : ℕ
  pub behind : List Chunk
  pub split : cs ≡ before ++ spare size ∷ behind
  pub at : f ≡ stop b before

find_chunk : (b f : ℕ) (cs : List Chunk) → Found b f cs ⊎ Each (λ x. (x == f) ≡ false) (frees b cs)
find_chunk b f [] = inr tt
find_chunk b f (taken n ∷ cs) = elim (find_chunk (b + n) f cs) [
  | inl k ↦ inl (record {
    before = taken n ∷ k.before;
    size = k.size;
    behind = k.behind;
    split = ap (λ l. taken n ∷ l) k.split;
    at = k.at;
  })
  | inr k ↦ inr k
]
find_chunk b f (spare n ∷ cs) = elim (Bool-cases (b == f)) [
  | inl e ↦ inl (record { before = []; size = n; behind = cs; split = refl; at = ground arith })
  | inr ne ↦ elim (find_chunk (b + n) f cs) [
    | inl k ↦ inl (record {
      before = spare n ∷ k.before;
      size = k.size;
      behind = k.behind;
      split = ap (λ l. spare n ∷ l) k.split;
      at = k.at;
    })
    | inr k ↦ inr (ne, k)
  ]
]

-- The free chunks of an arena with their sizes, as its headers have them.
pub spare_words :
    (w : Words) (b p e : ℕ) (cs : List Chunk)
    → Tiles w b p e cs
    → Each (λ x. in_use (w (c_size x)) ≡ 0) (frees b cs)
unfolding Tiles
spare_words w b p e [] t = tt
spare_words w b p e (taken n ∷ cs) (h1, h2, h3, h4, t) = spare_words w (b + n) (n + 1) e cs t
spare_words w b p e (spare n ∷ cs) (h1, h2, h3, h4, t) =
    (omega arith, spare_words w (b + n) n e cs t)

-- No free chunk has `size` bytes.
abbrev pub NoFit : ℕ → List Chunk → Type 0
NoFit size [] = Unit {0}
NoFit size (spare n ∷ cs) = (n < size) × NoFit size cs
NoFit size (taken n ∷ cs) = NoFit size cs

pub none_fits :
    (w : Words) (b p e size : ℕ) (cs : List Chunk)
    → Tiles w b p e cs
    → Each (λ x. leb size (size_of (w (c_size x))) ≡ false) (frees b cs)
    → NoFit size cs
unfolding Tiles
none_fits w b p e size [] t h = tt
none_fits w b p e size (taken n ∷ cs) (h1, h2, h3, h4, t) h =
    none_fits w (b + n) (n + 1) e size cs t h
none_fits w b p e size (spare n ∷ cs) (h1, h2, h3, h4, t) h =
    let h0 = h.0 in (ground arith, none_fits w (b + n) n e size cs t h.1)

-- Where the search in a list of free chunks stops.
pub record Fit (w : Words) (size g : ℕ) (xs : List ℕ) : Type 0 where
  pub before : List ℕ
  pub behind : List ℕ
  pub split : xs ≡ before ++ g ∷ behind
  pub large : leb size (size_of (w (c_size g))) ≡ true

pub first_fit_lem :
    (fuel f size prev : ℕ) (w : Words) (xs : List ℕ)
    → length xs < fuel
    → FreeList w prev f xs
    → Each (λ x. in_use (w (c_size x)) ≡ 0) xs
    → ((first_fit fuel f size w ≡ ok 0) × Each (λ x. leb size (size_of (w (c_size x))) ≡ false) xs)
      ⊎ ((g : ℕ) × ((first_fit fuel f size w ≡ ok g) × (0 < g) × Fit w size g xs))
unfolding FreeList first_fit
first_fit_lem zero f size prev w xs short h even = absurd (omega arith)
first_fit_lem (suc n) f size prev w [] short h even =
    let none : (f == 0) ≡ true = ground (arith, h) in inl (rw none refl, tt)
first_fit_lem (suc n) f size prev w (x ∷ xs) short (e, pos, back, h) even =
    let some_head : (f == 0) ≡ false = ground arith in
    let at_head : w (c_size f) ≡ w (c_size x) = ap (λ y. w (c_size y)) e in
    let free : (in_use (w (c_size f)) == 0) ≡ true = ground (arith, even.0) in
    let next : w (f_next f) ≡ w (f_next x) = ap (λ y. w (f_next y)) e in
    elim (Bool-cases (leb size (size_of (w (c_size x))))) [
      | inl fits ↦
          let here : leb size (size_of (w (c_size f))) ≡ true =
            ap (λ y. leb size (size_of y)) at_head ∙ fits in
          inr (
            f,
            (
              rw (some_head, free) rw here refl,
              omega arith,
              record { before = []; behind = xs; split = ap (λ y. y ∷ xs) (sym e); large = here },
            ),
          )
      | inr small ↦
          let there : leb size (size_of (w (c_size f))) ≡ false =
            ap (λ y. leb size (size_of y)) at_head ∙ small in
          elim (first_fit_lem n (w (f_next x)) size x w xs (omega arith) h even.1) [
            | inl (run, nothing) ↦ inl (rw (some_head, free) rw there rw next run, (small, nothing))
            | inr (g, (run, some_g, k)) ↦ inr (
              g,
              (
                rw (some_head, free) rw there rw next run,
                some_g,
                record {
                  before = x ∷ k.before;
                  behind = k.behind;
                  split = ap (λ l. x ∷ l) k.split;
                  large = k.large;
                },
              ),
            )
          ]
    ]

-- The search, and the split where it finds a chunk, in one arena.
pub record Served (w w' : Words) (a size addr : ℕ) (cs : List Chunk) (xs : List ℕ) : Type 0 where
  pub before : List Chunk
  pub bytes : ℕ
  pub behind : List Chunk
  pub split : cs ≡ before ++ spare bytes ∷ behind
  pub fits : size ≤ bytes
  pub at : addr ≡ stop (a + 16) before + 8
  pub list : List ℕ
  pub arena : IsArena w' a (before ++ (carve bytes size ++ behind)) list
  pub beyond : Beyond w w' a
  pub length : w' (a_length a) ≡ w (a_length a)
  pub next : w' (a_next a) ≡ w (a_next a)

not_listed : (f : ℕ) (ls rs : List ℕ) → Each (λ x. (x == f) ≡ false) (ls ++ f ∷ rs) → ⊥
not_listed f [] rs h = let h0 = h.0 in ground arith
not_listed f (x ∷ ls) rs h = not_listed f ls rs h.1

-- The arena's length and its link are no cells of chunks.
header_kept :
    (w w' : Words) (a n : ℕ) (us vs : List Chunk) (ls rs : List ℕ)
    → IsArena w a (us ++ spare n ∷ vs) (ls ++ stop (a + 16) us ∷ rs)
    → Outer w w' a (stop (a + 16) us) (stop (a + 16) us + n + 1) (ls ++ stop (a + 16) us ∷ rs)
    → (w' (a_length a) ≡ w (a_length a)) × (w' (a_next a) ≡ w (a_next a))
header_kept w w' a n us vs ls rs h outer =
    let f : ℕ = stop (a + 16) us in
    let below = (hole w a n us vs ls rs h).below in
    let behind = h.links.behind in
    (
      outer a (omega arith) (omega arith)
          (Each-map (λ x. a + 16 ≤ x) (NoLink a) (ls ++ f ∷ rs) (λ x k. (omega arith, omega arith))
            behind)
          (inl (omega arith)),
      outer (a + 8) (omega arith) (omega arith)
          (Each-map (λ x. a + 16 ≤ x) (NoLink (a + 8)) (ls ++ f ∷ rs)
            (λ x k. (omega arith, omega arith)) behind)
          (inl (omega arith)),
    )

pub arena-Served :
    (w : Words) (a g size : ℕ) (cs : List Chunk) (xs : List ℕ)
    → IsArena w a cs xs
    → Fit w size g xs
    → size % 8 ≡ 0
    → 16 ≤ size
    → (addr : ℕ) × ((w' : Words) × ((free_chunk_split a g 0 size w ≡ ok (addr, w'))
          × Served w w' a size addr cs xs))
unfolding Tiles
arena-Served w a g size cs xs h k eight sixteen = elim (find_chunk (a + 16) g cs) [
  | inr far ↦ absurd (
      not_listed g k.before k.behind (
        subst (Each (λ x. (x == g) ≡ false)) k.split
          (Each-Perm (λ x. (x == g) ≡ false) (λ x. hlevel) xs (frees (a + 16) cs) h.listed far)))
  | inl found ↦
      let h1 : IsArena w a (found.before ++ spare found.size ∷ found.behind)
          (k.before ++ stop (a + 16) found.before ∷ k.behind) =
        subst
          (λ f.
            IsArena w a (found.before ++ spare found.size ∷ found.behind)
              (k.before ++ f ∷ k.behind))
          found.at
          (subst (IsArena w a (found.before ++ spare found.size ∷ found.behind)) k.split
            (subst (λ l. IsArena w a l xs) found.split h)) in
      let header =
        (Tiles-split w (a + 16) 1 (a + w (a_length a)) found.before
          (spare found.size ∷ found.behind) h1.tiles).1 in
      let size_eq : w (c_size g) ≡ found.size = ap (λ y. w (c_size y)) found.at ∙ header.1 in
      let large = k.large in
      let le : size ≤ found.size = ground arith in
      let (w', (e, arena, outer, beyond)) =
        free_chunk_split-IsArena w a found.size size found.before found.behind k.before k.behind h1
          eight sixteen le in
      let kept =
        header_kept w w' a found.size found.before found.behind k.before k.behind h1 outer in
      (
        stop (a + 16) found.before + 8,
        (
          w',
          (
            ap (λ f. free_chunk_split a f 0 size w) found.at ∙ e,
            record {
              before = found.before;
              bytes = found.size;
              behind = found.behind;
              split = found.split;
              fits = le;
              at = refl;
              list =
                  relist_if (leb min_alloc (found.size - size)) (stop (a + 16) found.before + size)
                    (k.before ++ k.behind);
              arena = arena;
              beyond = beyond;
              length = kept.0;
              next = kept.1;
            },
          ),
        ),
      )
]

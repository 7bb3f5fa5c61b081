-- ===== src/Heap/Segment.antt =====
-- The list of free chunks up to a chunk and from it on.
use loom_bootloader.Base.{
  ℕ, ◌<◌, ◌≡◌, ◌≢◌, List, [], ◌∷◌, ◌++◌, arith, refl, sym, ◌∙◌, ◌⊎◌, inl, inr,
}
use mathlib.Core.Path.{subst}
use loom_bootloader.LinkedList.Chain.{last}
use loom_bootloader.Heap.{Words, f_prev, f_next}
use loom_bootloader.Heap.Free.{
  Each, Each-append, Each-left, Each-right, Apart, Spaced, FreeList, FreeList-frame,
}

-- The links from `p`, behind `prev`, through the chunks to `q`.
unfoldable pub Segment : Words → (prev p : ℕ) → List ℕ → ℕ → Type 0
Segment w prev p [] q = p ≡ q
Segment w prev p (x ∷ xs) q =
    (p ≡ x) × (0 < x) × (w (f_prev x) ≡ prev) × Segment w x (w (f_next x)) xs q

-- A list up to a chunk, and from it on.
pub FreeList-split :
    (w : Words) (prev p f : ℕ) (xs ys : List ℕ)
    → FreeList w prev p (xs ++ f ∷ ys)
    → Segment w prev p xs f
      × (0 < f)
      × (w (f_prev f) ≡ last prev xs)
      × FreeList w f (w (f_next f)) ys
unfolding FreeList Segment
FreeList-split w prev p f [] ys (e, pos, k, h) = (e, pos, k, h)
FreeList-split w prev p f (x ∷ xs) ys (e, pos, k, h) =
    let (s, pos', k', h') = FreeList-split w x (w (f_next x)) f xs ys h in
    ((e, pos, k, s), pos', k', h')

pub FreeList-join :
    (w : Words) (prev p q : ℕ) (xs ys : List ℕ)
    → Segment w prev p xs q
    → FreeList w (last prev xs) q ys
    → FreeList w prev p (xs ++ ys)
unfolding FreeList Segment
FreeList-join w prev p q [] ys s h = subst (λ r. FreeList w prev r ys) (sym s) h
FreeList-join w prev p q (x ∷ xs) ys (e, pos, k, s) h =
    (e, pos, k, FreeList-join w x (w (f_next x)) q xs ys s h)

pub Each-last : (P : ℕ → Type 0) (x : ℕ) (xs : List ℕ) → Each P (x ∷ xs) → P (last x xs)
Each-last P x [] h = h.0
Each-last P x (y ∷ xs) h = Each-last P y xs h.1

pub Apart-ne : (x y : ℕ) → Apart x y → x ≢ y
Apart-ne x y h = ground arith

-- Where the links of `x ∷ xs` are the same, but the last leads to another chunk.
pub Segment-retarget :
    (w w' : Words) (prev p q q' x : ℕ) (xs : List ℕ)
    → Spaced (x ∷ xs)
    → Each
        (λ z. (w' (f_prev z) ≡ w (f_prev z)) × (z ≢ last x xs → w' (f_next z) ≡ w (f_next z)))
        (x ∷ xs)
    → w' (f_next (last x xs)) ≡ q'
    → Segment w prev p (x ∷ xs) q
    → Segment w' prev p (x ∷ xs) q'
unfolding Segment
Segment-retarget w w' prev p q q' x [] sp same new (e, pos, k, s) = (e, pos, same.0.0 ∙ k, new)
Segment-retarget w w' prev p q q' x (y ∷ xs) sp same new (e, pos, k, s) = (
  e,
  pos,
  same.0.0 ∙ k,
  Segment-retarget w w' x (w' (f_next x)) q q' y xs sp.1 same.1 new (
      subst (λ r. Segment w x r (y ∷ xs) q)
        (sym (same.0.1 (Apart-ne x (last y xs) (Each-last (Apart x) y xs sp.0)))) s),
)

-- The list behind, whose first chunk gets another one before it.
pub FreeList-behind :
    (w w' : Words) (prev prev' p y : ℕ) (ys : List ℕ)
    → w' (f_prev y) ≡ prev'
    → w' (f_next y) ≡ w (f_next y)
    → Each (λ z. (w' (f_prev z) ≡ w (f_prev z)) × (w' (f_next z) ≡ w (f_next z))) ys
    → FreeList w prev p (y ∷ ys)
    → FreeList w' prev' p (y ∷ ys)
unfolding FreeList
FreeList-behind w w' prev prev' p y ys before next same (e, pos, k, h) = (
  e,
  pos,
  before,
  FreeList-frame w w' y (w' (f_next y)) ys same (subst (λ q. FreeList w y q ys) (sym next) h),
)

-- The chunks of a list, told from the last of it.
pub near_last :
    (x : ℕ) (xs : List ℕ)
    → Spaced (x ∷ xs)
    → Each (λ z. (z ≡ last x xs) ⊎ Apart z (last x xs)) (x ∷ xs)
near_last x [] sp = (inl refl, tt)
near_last x (y ∷ xs) sp = (inr (Each-last (Apart x) y xs sp.0), near_last y xs sp.1)

pub Each-both : (P Q : ℕ → Type 0) (xs : List ℕ) → Each P xs → Each Q xs → Each (λ x. P x × Q x) xs
Each-both P Q [] h k = tt
Each-both P Q (x ∷ xs) h k = ((h.0, k.0), Each-both P Q xs h.1 k.1)

-- The parts of a list without the chunk between them.
pub Spaced-left : (xs ys : List ℕ) → Spaced (xs ++ ys) → Spaced xs
Spaced-left [] ys h = tt
Spaced-left (x ∷ xs) ys h = (Each-left (Apart x) xs ys h.0, Spaced-left xs ys h.1)

pub Spaced-right : (xs ys : List ℕ) → Spaced (xs ++ ys) → Spaced ys
Spaced-right [] ys h = h
Spaced-right (x ∷ xs) ys h = Spaced-right xs ys h.1

pub Spaced-without : (xs ys : List ℕ) (f : ℕ) → Spaced (xs ++ f ∷ ys) → Spaced (xs ++ ys)
Spaced-without [] ys f h = h.1
Spaced-without (x ∷ xs) ys f h = (
  Each-append (Apart x) xs ys (Each-left (Apart x) xs (f ∷ ys) h.0)
      (Each-right (Apart x) xs (f ∷ ys) h.0).1,
  Spaced-without xs ys f h.1,
)

pub Each-without :
    (P : ℕ → Type 0) (xs ys : List ℕ) (f : ℕ) → Each P (xs ++ f ∷ ys) → Each P (xs ++ ys)
Each-without P xs ys f h =
    Each-append P xs ys (Each-left P xs (f ∷ ys) h) (Each-right P xs (f ∷ ys) h).1

-- The chunks before are away from `f` and those behind it.
pub Spaced-before : (xs ys : List ℕ) → Spaced (xs ++ ys) → Each (λ x. Each (Apart x) ys) xs
Spaced-before [] ys h = tt
Spaced-before (x ∷ xs) ys h = (Each-right (Apart x) xs ys h.0, Spaced-before xs ys h.1)

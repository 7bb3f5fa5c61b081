-- ===== src/Base/Split.antt =====
-- The parts of a text between separators, as a reference for the loops that cut one up.
use Prim.Native.Nat.{ℕ}
use mathlib.Core.Path.{◌≡◌, refl, ap}
use mathlib.Core.Bool.{true, false}
use mathlib.Core.List.{List, [], ◌∷◌, ◌++◌}
use native.Mathlib.Omega.{arith}
use mathlib.Core.Logic.{inl, inr}
use loom_bootloader.Base.Tests.{Bool-cases, ◌==◌, if◌then◌else◌}

-- Cut at each separator; the parts may be empty.
abbrev pub cons_head : ℕ → List (List ℕ) → List (List ℕ)
cons_head c [] = (c ∷ []) ∷ []
cons_head c (w ∷ ws) = (c ∷ w) ∷ ws

pub split_on : (sep : ℕ) → List ℕ → List (List ℕ)
split_on sep [] = [] ∷ []
split_on sep (c ∷ cs) = if c == sep then [] ∷ split_on sep cs else cons_head c (split_on sep cs)

abbrev pub non_empty : List (List ℕ) → List (List ℕ)
non_empty [] = []
non_empty ([] ∷ ws) = non_empty ws
non_empty ((c ∷ w) ∷ ws) = (c ∷ w) ∷ non_empty ws

-- The parts that are not empty.
unfoldable pub pieces : (sep : ℕ) → List ℕ → List (List ℕ)
pieces sep s = non_empty (split_on sep s)

-- A part without the separator.
abbrev pub Solid : (sep : ℕ) → List ℕ → Type 0
Solid sep [] = Unit {0}
Solid sep (c ∷ cs) = ((c == sep) ≡ false) × Solid sep cs

pub pieces-nil : (sep : ℕ) → pieces sep [] ≡ []
unfolding pieces split_on
pieces-nil sep = refl

pub pieces-sep : (sep : ℕ) (s : List ℕ) → pieces sep (sep ∷ s) ≡ pieces sep s
unfolding pieces split_on
pieces-sep sep s = let same : (sep == sep) ≡ true = ground arith in rw same refl

pub split_on-Solid :
    (sep : ℕ) (w s : List ℕ) → Solid sep w → split_on sep (w ++ sep ∷ s) ≡ w ∷ split_on sep s
unfolding split_on
split_on-Solid sep [] s h = let same : (sep == sep) ≡ true = ground arith in rw same refl
split_on-Solid sep (c ∷ w) s h = rw (h.0) (ap (cons_head c) (split_on-Solid sep w s h.1))

pub split_on-last : (sep : ℕ) (w : List ℕ) → Solid sep w → split_on sep w ≡ w ∷ []
unfolding split_on
split_on-last sep [] h = refl
split_on-last sep (c ∷ w) h = rw (h.0) (ap (cons_head c) (split_on-last sep w h.1))

-- There is always a part.
pub split_on-cons :
    (sep : ℕ) (s : List ℕ) → (v : List ℕ) × ((ws : List (List ℕ)) × (split_on sep s ≡ v ∷ ws))
unfolding split_on
split_on-cons sep [] = ([], ([], refl))
split_on-cons sep (c ∷ s) = elim (Bool-cases (c == sep)) [
  | inl here ↦ ([], (split_on sep s, rw here refl))
  | inr other ↦
      let (v, (ws, e)) = split_on-cons sep s in (c ∷ v, (ws, rw other (ap (cons_head c) e)))
]

-- A part, with what follows the separator behind it, or as the last one.
pub pieces-Solid :
    (sep c : ℕ) (w s : List ℕ)
    → Solid sep (c ∷ w)
    → pieces sep (c ∷ (w ++ sep ∷ s)) ≡ (c ∷ w) ∷ pieces sep s
unfolding pieces
pieces-Solid sep c w s h = ap non_empty (split_on-Solid sep (c ∷ w) s h)

pub pieces-last : (sep c : ℕ) (w : List ℕ) → Solid sep (c ∷ w) → pieces sep (c ∷ w) ≡ (c ∷ w) ∷ []
unfolding pieces
pieces-last sep c w h = ap non_empty (split_on-last sep (c ∷ w) h)

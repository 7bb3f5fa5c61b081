-- ===== src/Base/Text.antt =====
-- Texts in a buffer, that a zero byte ends.
use Prim.Native.Nat.{ℕ, suc, ◌+◌, ◌≤◌, ◌<◌}
use mathlib.Core.Path.{◌≡◌, refl, sym, ap, ◌∙◌, subst}
use mathlib.Core.Logic.{◌⊎◌, inl, inr}
use mathlib.Core.List.{List, [], ◌∷◌, ◌++◌, append-nil}
use native.Mathlib.Omega.{arith}
use loom_bootloader.Base.Tests.{◌==◌, Bool-cases}
use loom_bootloader.Base.Lists.{length}
use loom_bootloader.Base.Split.{Solid}

-- The buffer has this text from an index on, and a zero byte behind it.
abbrev pub Text : (ℕ → ℕ) → ℕ → List ℕ → Type 0
Text b p [] = b p ≡ 0
Text b p (c ∷ cs) = (b p ≡ c) × (0 < c) × Text b (p + 1) cs

pub nothing_more : (p : ℕ) → p ≡ p + 0
nothing_more p = omega arith

pub behind : (p n : ℕ) → p + 1 + n ≡ p + suc n
behind p n = omega arith

pub Text-frame :
    (b b' : (ℕ → ℕ)) (p : ℕ) (s : List ℕ)
    → ((i : ℕ) → p ≤ i → i ≤ p + length s → b' i ≡ b i)
    → Text b p s
    → Text b' p s
Text-frame b b' p [] same h = same p (omega arith) (omega arith) ∙ h
Text-frame b b' p (c ∷ cs) same (e, pos, h) = (
  same p (omega arith) (omega arith) ∙ e,
  pos,
  Text-frame b b' (p + 1) cs (λ i lo hi. same i (omega arith) (omega arith)) h,
)

pub Text-behind : (b : (ℕ → ℕ)) (p : ℕ) (w t : List ℕ) → Text b p (w ++ t) → Text b (p + length w) t
Text-behind b p [] t h = subst (λ i. Text b i t) (nothing_more p) h
Text-behind b p (c ∷ w) t h =
    subst (λ i. Text b i t) (ap (λ i. i) (behind p (length w))) (Text-behind b (p + 1) w t h.2)

-- A text is cut off by a zero byte.
pub Text-cut :
    (b b' : (ℕ → ℕ)) (p : ℕ) (w t : List ℕ)
    → ((i : ℕ) → p ≤ i → i < p + length w → b' i ≡ b i)
    → b' (p + length w) ≡ 0
    → Text b p (w ++ t)
    → Text b' p w
Text-cut b b' p [] t same stop h = subst (λ i. b' i ≡ 0) (sym (nothing_more p)) stop
Text-cut b b' p (c ∷ w) t same stop (e, above, h) = (
  same p (omega arith) (omega arith) ∙ e,
  above,
  Text-cut b b' (p + 1) w t (λ i lo hi. same i (omega arith) (omega arith))
      (subst (λ i. b' i ≡ 0) (sym (behind p (length w))) stop) h,
)

-- A word from the start of a text: what it is, and what is behind it.
pub record Word (sep : ℕ) (s : List ℕ) : Type 0 where
  pub word : List ℕ
  pub rest : List ℕ
  pub solid : Solid sep word
  pub split : (s ≡ word) ⊎ (s ≡ word ++ sep ∷ rest)

pub cut_at : (sep : ℕ) (s : List ℕ) → Word sep s
cut_at sep [] = record { word = []; rest = []; solid = tt; split = inl refl }
cut_at sep (c ∷ s) = elim (Bool-cases (c == sep)) [
  | inl space ↦ record {
    word = [];
    rest = s;
    solid = tt;
    split = inr (ap (λ x. x ∷ s) (ground arith));
  }
  | inr char ↦
      let k = cut_at sep s in
      record {
        word = c ∷ k.word;
        rest = k.rest;
        solid = (char, k.solid);
        split = elim k.split [ inl e ↦ inl (ap (λ l. c ∷ l) e) | inr e ↦ inr (ap (λ l. c ∷ l) e) ];
      }
]

pub Word-text :
    (sep : ℕ) (s : List ℕ) (k : Word sep s)
    → (t : List ℕ) × ((s ≡ k.word ++ t) × ((t ≡ []) ⊎ ((r : List ℕ) × (t ≡ sep ∷ r))))
Word-text sep s k = elim k.split [
  | inl e ↦ ([], (e ∙ sym (append-nil k.word), inl refl))
  | inr e ↦ (sep ∷ k.rest, (e, inr (k.rest, refl)))
]

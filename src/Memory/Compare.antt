-- ===== src/Memory/Compare.antt =====
-- `loomMemCmp` finds whether two byte sequences are equal, and which is greater where they differ.
use loom_bootloader.Base.{
  ℕ, zero, suc, ◌+◌, ◌<◌, ◌≡◌, ◌≢◌, ◌↔◌, arith, ok, ◌==◌, inl, inr, Bool-cases, ap, ◌∙◌, refl,
}
use loom_bootloader.Base.Int.{ℤ, pos}
use loom_bootloader.Memory.{Memory, null, compare_loop, mem_cmp}

-- The two sequences hold the same `n` bytes.
abbrev pub SameBytes : (l r n : ℕ) → Memory → Type 0
SameBytes l r n m = (i : ℕ) → i < n → m (l + i) ≡ m (r + i)

SameBytes-suc :
    (l r n : ℕ) (m : Memory) → m l ≡ m r → SameBytes (l + 1) (r + 1) n m → SameBytes l r (suc n) m
SameBytes-suc l r n m e h zero lt = ap m (omega arith) ∙ e ∙ ap m (omega arith)
SameBytes-suc l r n m e h (suc i) lt =
    ap m {x = l + suc i} (omega arith) ∙ h i (omega arith) ∙ ap m {x = r + 1 + i} (omega arith)

SameBytes-tail : (l r n : ℕ) (m : Memory) → SameBytes l r (suc n) m → SameBytes (l + 1) (r + 1) n m
SameBytes-tail l r n m h i lt =
    ap m {x = l + 1 + i} (omega arith)
    ∙ h (suc i) (omega arith)
    ∙ ap m {x = r + suc i} (omega arith)

SameBytes-head : (l r n : ℕ) (m : Memory) → SameBytes l r (suc n) m → m l ≡ m r
SameBytes-head l r n m h =
    ap m {x = l} (omega arith) ∙ h 0 (omega arith) ∙ ap m {x = r + 0} (omega arith)

compare_loop-zero_iff :
    (l r n : ℕ) (m : Memory) → (compare_loop l r n m ≡ pos 0) ↔ SameBytes l r n m
unfolding compare_loop
compare_loop-zero_iff l r zero m = (λ e i lt. absurd (omega arith), λ h. refl)
compare_loop-zero_iff l r (suc n) m = elim (Bool-cases (m l == m r)) [
  | inl e ↦
      let ih = compare_loop-zero_iff (l + 1) (r + 1) n m in
      rw e
        (λ z. SameBytes-suc l r n m (ground arith) (ih.0 z), λ h. ih.1 (SameBytes-tail l r n m h))
  | inr e ↦
      rw e (λ z. absurd (ground arith), λ h. absurd (ground (arith, SameBytes-head l r n m h)))
]

-- `loomMemCmp` of two non-null objects returns 0 exactly when their first `count` bytes are equal.
pub mem_cmp-zero_iff :
    (l r n : ℕ) (m : Memory)
    → l ≢ null
    → r ≢ null
    → (z : ℤ) × (mem_cmp l r n m ≡ ok z) × ((z ≡ pos 0) ↔ SameBytes l r n m)
unfolding mem_cmp
mem_cmp-zero_iff l r n m hl hr = (compare_loop l r n m, ground arith, compare_loop-zero_iff l r n m)

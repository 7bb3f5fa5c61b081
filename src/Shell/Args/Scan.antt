-- ===== src/Shell/Args/Scan.antt =====
-- The loop of `shellParseArg` stops behind the first word.
use loom_bootloader.Base.{
  ℕ, zero, suc, ◌+◌, ◌≤◌, ◌<◌, ◌≡◌, List, [], ◌∷◌, ◌++◌, true, false, Exec, ok, ◌==◌, length, arith,
  refl, ap, ap₂, ◌∙◌, Bool-cases, inl, inr, ◌⊎◌, length-append,
}
use mathlib.Core.Path.{subst}
use loom_bootloader.Base.Split.{pieces, pieces-nil, pieces-sep, Solid}
use loom_bootloader.Base.Text.{Text, behind, cut_at, Word-text}
use loom_bootloader.Shell.{Buffer}
use loom_bootloader.Shell.Args.{parse_loop}

-- Each argument is the text of a word.
abbrev pub Spell : Buffer → List ℕ → List (List ℕ) → Type 0
Spell b [] [] = Unit {0}
Spell b (p ∷ ps) (w ∷ ws) = Text b p w × Spell b ps ws
Spell b _ _ = ⊥

same_place : (p n : ℕ) → ◌≡◌ {A = Exec (ℕ × ℕ)} (ok (p, n)) (ok (p + 0, n + 0))
same_place p n =
    let p_eq : p ≡ p + 0 = omega arith in
    let n_eq : n ≡ n + 0 = omega arith in ap₂ (λ (x y : ℕ). ok (x, y)) p_eq n_eq

-- The loop inside a word stops behind it.
pub parse_loop-word :
    (k p n : ℕ) (b : Buffer) (w t : List ℕ)
    → length w < k
    → Solid 32 w
    → Text b p (w ++ t)
    → (t ≡ []) ⊎ ((r : List ℕ) × (t ≡ 32 ∷ r))
    → (0 < n)
    → parse_loop k p n b ≡ ok (p + length w, n + length w)
unfolding parse_loop
parse_loop-word zero p n b w t lt solid h end pos = absurd (omega arith)
parse_loop-word (suc k) p n b [] t lt solid h (inl e) pos =
    let zero_byte : b p ≡ 0 = subst (Text b p) e h in
    let stop : (b p == 0) ≡ true = ground arith in rw stop (same_place p n)
parse_loop-word (suc k) p n b [] t lt solid h (inr (r, e)) pos =
    let (is_space, above, more) = subst (Text b p) e h in
    let go : (b p == 0) ≡ false = ground arith in
    let space : (b p == 32) ≡ true = ground arith in
    let late : (n == 0) ≡ false = ground arith in rw (go, space) rw late (same_place p n)
parse_loop-word (suc k) p n b (c ∷ w) t lt solid (e, above, h) end pos =
    let char : (b p == 0) ≡ false = ground arith in
    let dark : (b p == 32) ≡ false = ground (arith, solid.0) in
    let p_eq : p + 1 + length w ≡ p + suc (length w) = omega arith in
    let n_eq : n + 1 + length w ≡ n + suc (length w) = omega arith in
    rw (char, dark)
      (parse_loop-word k (p + 1) (n + 1) b w t (omega arith) solid.1 h end (omega arith)
        ∙ ap₂ (λ (x y : ℕ). ok (x, y)) p_eq n_eq)

-- Spaces before a word are skipped.
parse_loop-space :
    (k p : ℕ) (b : Buffer) → b p ≡ 32 → parse_loop (suc k) p 0 b ≡ parse_loop k (p + 1) 0 b
unfolding parse_loop
parse_loop-space k p b e =
    let go : (b p == 0) ≡ false = ground arith in
    let space : (b p == 32) ≡ true = ground arith in rw (go, space) refl

parse_loop-char :
    (k p c : ℕ) (b : Buffer)
    → b p ≡ c
    → 0 < c
    → (c == 32) ≡ false
    → parse_loop (suc k) p 0 b ≡ parse_loop k (p + 1) 1 b
unfolding parse_loop
parse_loop-char k p c b e above dark =
    let go : (b p == 0) ≡ false = ground arith in
    let char : (b p == 32) ≡ false = ground arith in
    rw (go, char) (ap (λ n. parse_loop k (p + 1) n b) (omega arith))

parse_loop-end : (k p : ℕ) (b : Buffer) → b p ≡ 0 → parse_loop (suc k) p 0 b ≡ ok (p + 0, 0)
unfolding parse_loop
parse_loop-end k p b h =
    let stop : (b p == 0) ≡ true = ground arith in rw stop (ap (λ (y : ℕ). ok (y, 0)) (omega arith))

counted : (n : ℕ) → 1 + n ≡ suc n
counted n = omega arith

-- Where the loop stops that began before a text: behind its spaces, or behind the word `c ∷ w`.
pub record Stopped (b : Buffer) (p : ℕ) (s : List ℕ) (run : Exec (ℕ × ℕ)) : Type 0 where
  pub c : ℕ
  pub w : List ℕ
  pub t : List ℕ
  pub q : ℕ
  pub run_eq : run ≡ ok (q + suc (length w), suc (length w))
  pub from : p ≤ q
  pub text : Text b q (c ∷ (w ++ t))
  pub solid : Solid 32 (c ∷ w)
  pub end : (t ≡ []) ⊎ ((r : List ℕ) × (t ≡ 32 ∷ r))
  pub same : pieces 32 s ≡ pieces 32 (c ∷ (w ++ t))
  pub total : q + suc (length (w ++ t)) ≡ p + length s

pub parse_loop-Stopped :
    (k p : ℕ) (b : Buffer) (s : List ℕ)
    → length s < k
    → Text b p s
    → ((pieces 32 s ≡ []) × (parse_loop k p 0 b ≡ ok (p + length s, 0)))
      ⊎ Stopped b p s (parse_loop k p 0 b)
parse_loop-Stopped zero p b s lt h = absurd (omega arith)
parse_loop-Stopped (suc k) p b [] lt h = inl (pieces-nil 32, parse_loop-end k p b h)
parse_loop-Stopped (suc k) p b (x ∷ s) lt (e, above, h) = elim (Bool-cases (x == 32)) [
  | inl space ↦
      let at : x ≡ 32 = ground arith in
      let step = parse_loop-space k p b (e ∙ at) in
      let same : pieces 32 (x ∷ s) ≡ pieces 32 s =
        ap (λ y. pieces 32 (y ∷ s)) at ∙ pieces-sep 32 s in
      elim (parse_loop-Stopped k (p + 1) b s (omega arith) h) [
        | inl (nothing, run) ↦
            inl (same ∙ nothing, step ∙ run ∙ ap (λ (y : ℕ). ok (y, 0)) (omega arith))
        | inr u ↦ inr (record {
          c = u.c;
          w = u.w;
          t = u.t;
          q = u.q;
          run_eq = step ∙ u.run_eq;
          from = let lo = u.from in omega arith;
          text = u.text;
          solid = u.solid;
          end = u.end;
          same = same ∙ u.same;
          total = omega (arith, u.total);
        })
      ]
  | inr char ↦
      let word = cut_at 32 s in
      let (t, (split, end)) = Word-text 32 s word in
      let h' : Text b (p + 1) (word.word ++ t) = subst (Text b (p + 1)) split h in
      let total : length s ≡ length word.word + length t =
        ap length split ∙ length-append word.word t in
      inr (record {
        c = x;
        w = word.word;
        t = t;
        q = p;
        run_eq =
            parse_loop-char k p x b e above char
            ∙ parse_loop-word k (p + 1) 1 b word.word t (omega arith) word.solid h' end
                (omega arith)
            ∙ ap₂ (λ (y z : ℕ). ok (y, z)) (behind p (length word.word))
                (counted (length word.word));
        from = omega arith;
        text = (e, above, h');
        solid = (char, word.solid);
        end = end;
        same = ap (λ l. pieces 32 (x ∷ l)) split;
        total = omega (arith, length-append word.word t);
      })
]

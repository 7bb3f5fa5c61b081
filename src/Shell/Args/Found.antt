-- ===== src/Shell/Args/Found.antt =====
-- `shellParseArg` cuts the first word off.
use loom_bootloader.Base.{
  ℕ, suc, ◌+◌, ◌-◌, ◌≤◌, ◌<◌, ◌≡◌, List, [], ◌∷◌, ◌++◌, true, false, Option, none, some, Exec, ok,
  ◌>>=◌, ◌==◌, length, arith, refl, sym, ap, ◌∙◌, inl, inr, ◌⊎◌, length-append,
}
use mathlib.Core.Path.{subst}
use mathlib.Core.List.{append-nil}
use loom_bootloader.Base.Split.{pieces, pieces-nil, pieces-Solid, pieces-last}
use loom_bootloader.Memory.{store}
use loom_bootloader.Base.Text.{Text, Text-frame, Text-behind, Text-cut}
use loom_bootloader.Shell.{Buffer}
use loom_bootloader.Shell.Args.{parse_loop, found_arg, parse_arg}
use loom_bootloader.Shell.Args.Scan.{Stopped, parse_loop-Stopped}

-- What a call does that finds a word.
pub record Parsed (b : Buffer) (pos : ℕ) (s : List ℕ) (run : Exec (Option ℕ × ℕ × Buffer))
    : Type 0 where
  pub arg : ℕ
  pub next : ℕ
  pub after : Buffer
  pub word : List ℕ
  pub rest : List ℕ
  pub run_eq : run ≡ ok (some arg, next, after)
  pub same : pieces 32 s ≡ word ∷ pieces 32 rest
  pub arg_text : Text after arg word
  pub text : Text after next rest
  pub apart : (i : ℕ) → arg ≤ i → i ≤ arg + length word → (i < next) ⊎ (next + length rest ≤ i)
  pub total : next + length rest ≤ pos + length s
  pub above : pos < next
  pub less : length rest < length s
  pub frame : (i : ℕ) → (i < pos) ⊎ (pos + length s ≤ i) → after i ≡ b i

before_or_end : (i n : ℕ) → i ≤ n → (i < n) ⊎ (n + 0 ≤ i)
before_or_end i n le = ground arith

store_apart : (i p : ℕ) (b : Buffer) → (i < p) ⊎ (p < i) → store p 0 b i ≡ b i
store_apart i p b apart = let other : (i == p) ≡ false = ground arith in rw other refl

store_there : (p : ℕ) (b : Buffer) → store p 0 b p ≡ 0
store_there p b = let this : (p == p) ≡ true = ground arith in rw this refl

found_arg-last :
    (pos q m : ℕ) (b : Buffer)
    → b (q + suc m) ≡ 0
    → found_arg pos b (q + suc m, suc m) ≡ (some q, q + suc m, b)
found_arg-last pos q m b e =
    let some_byte : (suc m == 0) ≡ false = ground arith in
    let stop : (b (q + suc m) == 0) ≡ true = ground arith in
    let back : q + suc m - suc m ≡ q = omega arith in rw (some_byte, stop) rw back refl

found_arg-space :
    (pos q m : ℕ) (b : Buffer)
    → b (q + suc m) ≡ 32
    → found_arg pos b (q + suc m, suc m) ≡ (some q, q + suc m + 1, store (q + suc m) 0 b)
found_arg-space pos q m b e =
    let some_byte : (suc m == 0) ≡ false = ground arith in
    let go : (b (q + suc m) == 0) ≡ false = ground arith in
    let back : q + suc m - suc m ≡ q = omega arith in rw (some_byte, go) rw back refl

pub Stopped-Parsed :
    (k pos : ℕ) (b : Buffer) (s : List ℕ)
    → Stopped b pos s (parse_loop k pos 0 b)
    → Parsed b pos s (parse_arg k pos b)
unfolding parse_arg
Stopped-Parsed k pos b s u = elim u.end [
  | inl e ↦
      let h : Text b u.q (u.c ∷ (u.w ++ [])) =
        subst (λ t. Text b u.q (u.c ∷ (u.w ++ t))) e u.text in
      let stop = Text-behind b u.q (u.c ∷ u.w) [] h in
      let total : u.q + suc (length u.w + length u.t) ≡ pos + length s =
        omega (arith, u.total, length-append u.w u.t) in
      let from = u.from in
      record {
        arg = u.q;
        next = u.q + suc (length u.w);
        after = b;
        word = u.c ∷ u.w;
        rest = [];
        run_eq =
            ap (λ r. r >>= λ x. ok (found_arg pos b x)) u.run_eq
            ∙ ap ok (found_arg-last pos u.q (length u.w) b stop);
        same =
            u.same
            ∙ ap (λ t. pieces 32 (u.c ∷ (u.w ++ t))) e
            ∙ ap (λ l. pieces 32 (u.c ∷ l)) (append-nil u.w)
            ∙ pieces-last 32 u.c u.w u.solid
            ∙ ap (λ l. (u.c ∷ u.w) ∷ l) (sym (pieces-nil 32));
        arg_text = Text-cut b b u.q (u.c ∷ u.w) [] (λ i lo hi. refl) stop h;
        text = stop;
        apart = λ i lo hi. before_or_end i (u.q + suc (length u.w)) hi;
        total = omega arith;
        above = omega arith;
        less = omega arith;
        frame = λ i out. refl;
      }
  | inr (r, e) ↦
      let h : Text b u.q (u.c ∷ (u.w ++ 32 ∷ r)) =
        subst (λ t. Text b u.q (u.c ∷ (u.w ++ t))) e u.text in
      let (space, nonzero, more) = Text-behind b u.q (u.c ∷ u.w) (32 ∷ r) h in
      let size : length u.t ≡ suc (length r) = ap length e in
      let total : u.q + suc (length u.w + length u.t) ≡ pos + length s =
        omega (arith, u.total, length-append u.w u.t) in
      let from = u.from in
      let b' : Buffer = store (u.q + suc (length u.w)) 0 b in
      record {
        arg = u.q;
        next = u.q + suc (length u.w) + 1;
        after = b';
        word = u.c ∷ u.w;
        rest = r;
        run_eq =
            ap (λ r. r >>= λ x. ok (found_arg pos b x)) u.run_eq
            ∙ ap ok (found_arg-space pos u.q (length u.w) b space);
        same =
            u.same ∙ ap (λ t. pieces 32 (u.c ∷ (u.w ++ t))) e ∙ pieces-Solid 32 u.c u.w r u.solid;
        arg_text =
            Text-cut b b' u.q (u.c ∷ u.w) (32 ∷ r)
              (λ i lo hi. store_apart i (u.q + suc (length u.w)) b (ground arith))
              (store_there (u.q + suc (length u.w)) b) h;
        text =
            Text-frame b b' (u.q + suc (length u.w) + 1) r
              (λ i lo hi. store_apart i (u.q + suc (length u.w)) b (ground arith)) more;
        apart = λ i lo hi. inl (omega arith);
        total = omega arith;
        above = omega arith;
        less = omega arith;
        frame = λ i out. store_apart i (u.q + suc (length u.w)) b (ground arith);
      }
]

pub parse_arg-Parsed :
    (k pos : ℕ) (b : Buffer) (s : List ℕ)
    → length s < k
    → Text b pos s
    → ((pieces 32 s ≡ []) × (parse_arg k pos b ≡ ok (none, pos, b)))
      ⊎ Parsed b pos s (parse_arg k pos b)
unfolding parse_arg
parse_arg-Parsed k pos b s lt h = elim (parse_loop-Stopped k pos b s lt h) [
  | inl (nothing, run) ↦ inl (nothing, ap (λ r. r >>= λ x. ok (found_arg pos b x)) run)
  | inr u ↦ inr (Stopped-Parsed k pos b s u)
]

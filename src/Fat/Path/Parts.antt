-- ===== src/Fat/Path/Parts.antt =====
-- The parts of a path, and the loops of `fatSearchPath` that find them.
use loom_bootloader.Base.{
  not, ◌&&◌, has_flag, if◌then◌else◌, ℕ, zero, suc, ◌+◌, ◌≤◌, ◌<◌, ◌≡◌, List, [], ◌∷◌, ◌++◌, Bool,
  true, false, ◌||◌, Exec, ok, ◌>>=◌, ◌==◌, length, arith, refl, ap, ◌∙◌, Bool-cases, inl, inr, ◌⊎◌,
}
use mathlib.Core.Path.{subst}
use loom_bootloader.Base.Split.{split_on, split_on-Solid, Solid}
use loom_bootloader.Base.Text.{Text, behind, nothing_more}
use loom_bootloader.Error.{LoomError}
use loom_bootloader.Fat.Name.{Name}
use loom_bootloader.Fat.Dir.{IteratorCtx, Outcome}
use loom_bootloader.Fat.Dir.Lookup.{in_directory}
use loom_bootloader.Fat.Path.{skip_slashes, part_length, Lookup, failed, done, Find}

-- A text as a name.
abbrev pub chars : List ℕ → Name
chars [] i = 0
chars (c ∷ cs) zero = c
chars (c ∷ cs) (suc i) = chars cs i

-- Into the directory just found, if its attributes tell that it is one.
abbrev pub step_into : LoomError × IteratorCtx → (IteratorCtx → Outcome) → Outcome
step_into (LoomError.none, ctx) rest =
    if not (has_flag ctx.entry.attribs 0x8) && has_flag ctx.entry.attribs 0x10
    then rest (in_directory ctx.entry ctx)
    else ok (LoomError.notdir, ctx)
step_into (e, ctx) rest = ok (e, ctx)

-- The parts of a path, from a directory on: an empty part stays there, another one is found in it;
-- what is followed by a part, an empty one too, is a directory.
unfoldable pub follow : Find → List (List ℕ) → IteratorCtx → Outcome
follow find [] ctx = ok (LoomError.none, ctx)
follow find ([] ∷ ws) ctx = follow find ws ctx
follow find ((c ∷ w) ∷ []) ctx = find (length (c ∷ w)) (chars (c ∷ w)) ctx
follow find ((c ∷ w) ∷ (v ∷ ws)) ctx =
    let rest = follow find (v ∷ ws) in
    find (length (c ∷ w)) (chars (c ∷ w)) ctx >>= λ r. step_into r rest

-- A path with a part that is not empty.
unfoldable pub any_part : List (List ℕ) → Bool
any_part [] = false
any_part ([] ∷ ws) = any_part ws
any_part ((c ∷ w) ∷ ws) = true

abbrev pub ended : (found root : Bool) → LoomError × IteratorCtx → Exec Lookup
ended found root (LoomError.none, ctx) = ok (done ctx found root)
ended found root (e, ctx) = ok (failed e ctx)

-- Behind the slashes.
pub record Skipped (path : Name) (p : ℕ) (s : List ℕ) (run : Exec ℕ) : Type 0 where
  pub at : ℕ
  pub rest : List ℕ
  pub returns : run ≡ ok at
  pub text : Text path at rest
  pub shorter : length rest ≤ length s
  pub no_slash : (path at == 47) ≡ false
  pub same :
      (find : Find) (ctx : IteratorCtx)
      → follow find (split_on 47 s) ctx ≡ follow find (split_on 47 rest) ctx
  pub same_any : any_part (split_on 47 s) ≡ any_part (split_on 47 rest)

skip_slashes-stop :
    (k : ℕ) (path : Name) (p : ℕ) → (path p == 47) ≡ false → skip_slashes (suc k) path p ≡ ok p
unfolding skip_slashes
skip_slashes-stop k path p h = rw h refl

skip_slashes-slash :
    (k : ℕ) (path : Name) (p : ℕ)
    → (path p == 47) ≡ true
    → skip_slashes (suc k) path p ≡ skip_slashes k path (p + 1)
unfolding skip_slashes
skip_slashes-slash k path p h = rw h refl

pub split_on-sep : (s : List ℕ) → split_on 47 (47 ∷ s) ≡ [] ∷ split_on 47 s
split_on-sep s = split_on-Solid 47 [] s tt

pub skip_slashes-Skipped :
    (k : ℕ) (path : Name) (p : ℕ) (s : List ℕ)
    → length s < k
    → Text path p s
    → Skipped path p s (skip_slashes k path p)
unfolding follow any_part
skip_slashes-Skipped zero path p s lt h = absurd (omega arith)
skip_slashes-Skipped (suc k) path p [] lt h = record {
  at = p;
  rest = [];
  returns = skip_slashes-stop k path p (ground arith);
  text = h;
  shorter = omega arith;
  no_slash = ground arith;
  same = λ find ctx. refl;
  same_any = refl;
}
skip_slashes-Skipped (suc k) path p (c ∷ s) lt (e, above, h) = elim (Bool-cases (c == 47)) [
  | inl slash ↦
      let r = skip_slashes-Skipped k path (p + 1) s (omega arith) h in
      let shorter = r.shorter in
      let parts : split_on 47 (c ∷ s) ≡ [] ∷ split_on 47 s =
        ap (λ x. split_on 47 (x ∷ s)) (ground arith) ∙ split_on-sep s in
      record {
        at = r.at;
        rest = r.rest;
        returns = skip_slashes-slash k path p (ground arith) ∙ r.returns;
        text = r.text;
        shorter = omega arith;
        no_slash = r.no_slash;
        same = λ find ctx. ap (λ ws. follow find ws ctx) parts ∙ r.same find ctx;
        same_any = ap any_part parts ∙ r.same_any;
      }
  | inr other ↦ record {
    at = p;
    rest = c ∷ s;
    returns = skip_slashes-stop k path p (ground arith);
    text = (e, above, h);
    shorter = omega arith;
    no_slash = ground arith;
    same = λ find ctx. refl;
    same_any = refl;
  }
]

-- The second loop counts the characters of a part.
pub part_length-word :
    (k : ℕ) (path : Name) (i n : ℕ) (w t : List ℕ)
    → length w < k
    → Solid 47 w
    → Text path (i + n) (w ++ t)
    → (t ≡ []) ⊎ ((r : List ℕ) × (t ≡ 47 ∷ r))
    → part_length k path i n ≡ ok (n + length w)
unfolding part_length
part_length-word zero path i n w t lt solid h end = absurd (omega arith)
part_length-word (suc k) path i n [] t lt solid h (inl e) =
    let last : path (i + n) ≡ 0 = subst (Text path (i + n)) e h in
    let stop : (path (i + n) == 0 || path (i + n) == 47) ≡ true = ground arith in
    rw stop (ap ok (nothing_more n))
part_length-word (suc k) path i n [] t lt solid h (inr (r, e)) =
    let (slash, above, more) = subst (Text path (i + n)) e h in
    let stop : (path (i + n) == 0 || path (i + n) == 47) ≡ true = ground arith in
    rw stop (ap ok (nothing_more n))
part_length-word (suc k) path i n (c ∷ w) t lt solid (e, above, h) end =
    let other : (c == 47) ≡ false = solid.0 in
    let go : (path (i + n) == 0 || path (i + n) == 47) ≡ false = ground arith in
    let on : i + n + 1 ≡ i + (n + 1) = omega arith in
    rw go (
      part_length-word k path i (n + 1) w t (omega arith) solid.1
        (subst (λ j. Text path j (w ++ t)) on h) end
      ∙ ap ok (behind n (length w)))

-- The name at a part's place is the part.
pub chars-Text :
    (path : Name) (p : ℕ) (w t : List ℕ) (i : ℕ)
    → i < length w
    → Text path p (w ++ t)
    → path (p + i) ≡ chars w i
chars-Text path p [] t i lt h = absurd (omega arith)
chars-Text path p (c ∷ w) t zero lt (e, above, h) = subst (λ j. path j ≡ c) (nothing_more p) e
chars-Text path p (c ∷ w) t (suc i) lt (e, above, h) =
    subst (λ j. path j ≡ chars w i) (behind p i) (chars-Text path (p + 1) w t i (omega arith) h)

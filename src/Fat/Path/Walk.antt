-- ===== src/Fat/Path/Walk.antt =====
-- A path leads part by part: what `fatSearchPath` does with the text of a path.
use loom_bootloader.Base.{
  has_flag, if◌then◌else◌, ℕ, zero, suc, ◌+◌, ◌<◌, ◌≡◌, List, [], ◌∷◌, ◌++◌, Bool, true, false, not,
  ◌||◌, ◌&&◌, Exec, ok, ◌>>=◌, ◌==◌, length, arith, refl, sym, ap, ap₂, ◌∙◌, inl, inr, ◌⊎◌,
  length-append, bind_cong, bind_assoc,
}
use mathlib.Core.Path.{subst}
use loom_bootloader.Base.Split.{split_on, split_on-Solid, split_on-last, split_on-cons, Solid}
use mathlib.Core.List.{append-nil}
use loom_bootloader.Base.Text.{Text, Text-behind, nothing_more, cut_at, Word-text}
use loom_bootloader.Error.{LoomError}
use loom_bootloader.Fat.{FatFs}
use loom_bootloader.Fat.Name.{Name}
use loom_bootloader.Fat.Dir.{Entry, IteratorCtx, Outcome}
use loom_bootloader.Fat.Dir.Lookup.{Looks, in_directory, iterator_reset-entry}
use loom_bootloader.Fat.Path.{
  part_length, Lookup, done, Find, part_entered, part_found, search_round, search_loop,
}
use loom_bootloader.Fat.Path.Parts.{
  chars, step_into, follow, any_part, ended, split_on-sep, skip_slashes-Skipped, part_length-word,
  chars-Text,
}

part_found-last :
    (fs : FatFs) (ch : ℕ) (r : LoomError × IteratorCtx) (rest : IteratorCtx → Exec Lookup)
    → (ch == 0) ≡ true
    → part_found fs ch r rest ≡ ended true false r
unfolding part_found
part_found-last fs ch (LoomError.none, ctx) rest h = rw h refl
part_found-last fs ch (_, ctx) rest h = refl

-- A directory is entered, something else ends the walk.
part_entered-ended :
    (is_dir : Bool) (e : Entry) (ctx : IteratorCtx) (rest : IteratorCtx → Exec Lookup)
    (on : IteratorCtx → Outcome)
    → ((ctx : IteratorCtx) → rest ctx ≡ (on ctx >>= ended true false))
    → part_entered
        (if is_dir then (LoomError.none, in_directory e ctx) else (LoomError.notdir, ctx))
        rest
      ≡ ((if is_dir then on (in_directory e ctx) else ok (LoomError.notdir, ctx))
          >>= ended true false)
unfolding part_entered
part_entered-ended true e ctx rest on h = h (in_directory e ctx)
part_entered-ended false e ctx rest on h = refl

part_found-more :
    (fs : FatFs) (ch : ℕ) (r : LoomError × IteratorCtx) (rest : IteratorCtx → Exec Lookup)
    (on : IteratorCtx → Outcome)
    → (ch == 0) ≡ false
    → ((ctx : IteratorCtx) → rest ctx ≡ (on ctx >>= ended true false))
    → part_found fs ch r rest ≡ (step_into r on >>= ended true false)
unfolding part_found
part_found-more fs ch (LoomError.none, ctx) rest on h k = rw h (
    ap (λ r. part_entered r rest) (iterator_reset-entry ctx.entry fs ctx)
    ∙ part_entered-ended (not (has_flag ctx.entry.attribs 0x8) && has_flag ctx.entry.attribs 0x10)
        ctx.entry ctx rest on k)
part_found-more fs ch (_, ctx) rest on h k = refl

-- What the loop gives, from a place in the path on.
abbrev pub Followed :
    Find → List (List ℕ) → IteratorCtx → (found root : Bool) → Exec Lookup → Type 0
Followed find ws ctx found root run =
    run ≡ (follow find ws ctx >>= ended (found || any_part ws) (root && not (any_part ws)))

or_false : (b : Bool) → b ≡ (b || false)
or_false true = refl
or_false false = refl

and_true : (b : Bool) → b ≡ (b && true)
and_true true = refl
and_true false = refl

or_true : (b : Bool) → true ≡ (b || true)
or_true true = refl
or_true false = refl

and_false : (b : Bool) → false ≡ (b && false)
and_false true = refl
and_false false = refl

-- A round at the end of the path.
round_end :
    (find : Find) (fs : FatFs) (path : Name) (q : ℕ) (ctx : IteratorCtx) (found root : Bool)
    (rest : IteratorCtx → Bool → Bool → ℕ → Exec Lookup)
    → path q ≡ 0
    → Followed find ([] ∷ []) ctx found root (search_round find fs path q 0 ctx found root rest)
unfolding search_round follow any_part
round_end find fs path q ctx found root rest h =
    let here : path (q + 0) ≡ 0 = subst (λ j. path j ≡ 0) (nothing_more q) h in
    let last : (path (q + 0) == 0) ≡ true = ground arith in
    rw last (ap₂ (λ f r. ok (done ctx f r)) (or_false found) (and_true root))

-- The lookup of a part that is not empty.
round_found :
    (find : Find) (fs : FatFs) (path : Name) (q c : ℕ) (w t : List ℕ) (ctx : IteratorCtx)
    (found root : Bool) (rest : IteratorCtx → Bool → Bool → ℕ → Exec Lookup)
    (then_on : LoomError × IteratorCtx → Exec Lookup)
    → Looks find
    → Text path q ((c ∷ w) ++ t)
    → ((r : LoomError × IteratorCtx)
        → part_found fs
            (path (q + suc (length w)))
            r
            (λ ctx1. rest ctx1 true false (q + suc (length w)))
          ≡ then_on r)
    → search_round find fs path q (suc (length w)) ctx found root rest
      ≡ (find (suc (length w)) (chars (c ∷ w)) ctx >>= then_on)
unfolding search_round
round_found find fs path q c w t ctx found root rest then_on looks h k =
    let some_part : (suc (length w) == 0) ≡ false = ground arith in
    let find_eq =
      looks (suc (length w)) (λ j. path (q + j)) (chars (c ∷ w)) ctx
        (λ i lt. chars-Text path q (c ∷ w) t i lt h) in
    rw some_part (
      bind_cong (find (suc (length w)) (λ j. path (q + j)) ctx)
        (λ r.
          part_found fs (path (q + suc (length w))) r
            (λ ctx1. rest ctx1 true false (q + suc (length w))))
        then_on k
      ∙ ap (λ m. m >>= then_on) find_eq)

search_part :
    (l k : ℕ) (find : Find) (fs : FatFs) (path : Name) (ctx : IteratorCtx) (found root : Bool)
    (q : ℕ) (w t : List ℕ)
    → Looks find
    → Solid 47 w
    → Text path q (w ++ t)
    → (path q == 47) ≡ false
    → (t ≡ []) ⊎ ((r : List ℕ) × (t ≡ 47 ∷ r))
    → ((ctx1 : IteratorCtx) (p : ℕ)
        → length t < length (w ++ t)
        → Text path p t
        → Followed find
            (split_on 47 t)
            ctx1
            true
            false
            (search_loop l k find fs path ctx1 true false p))
    → Followed find
        (split_on 47 (w ++ t))
        ctx
        found
        root
        (search_round find fs path q (length w) ctx found root (search_loop l k find fs path))
unfolding follow any_part
search_part l k find fs path ctx found root q [] t looks solid h no_slash (inl e) rest =
    subst
      (λ ws.
        Followed find ws ctx found root
          (search_round find fs path q 0 ctx found root (search_loop l k find fs path)))
      (sym (ap (split_on 47) e ∙ split_on-last 47 [] tt))
      (round_end find fs path q ctx found root (search_loop l k find fs path)
        (subst (Text path q) e h))
search_part l k find fs path ctx found root q [] t looks solid h no_slash (inr (r, e)) rest =
    let (slash, above, more) = subst (Text path q) e h in absurd (ground arith)
search_part l k find fs path ctx found root q (c ∷ w) t looks solid h no_slash (inl e) rest =
    let last : path (q + suc (length w)) ≡ 0 =
      subst (Text path (q + suc (length w))) e (Text-behind path q (c ∷ w) t h) in
    let parts : split_on 47 ((c ∷ w) ++ t) ≡ (c ∷ w) ∷ [] =
      ap (λ l. split_on 47 ((c ∷ w) ++ l)) e
      ∙ ap (split_on 47) (append-nil (c ∷ w))
      ∙ split_on-last 47 (c ∷ w) solid in
    subst
      (λ ws. Followed find ws ctx found root (
        search_round find fs path q (suc (length w)) ctx found root (search_loop l k find fs path)))
      (sym parts)
      (round_found find fs path q c w t ctx found root (search_loop l k find fs path)
          (ended true false) looks h
          (λ r.
            part_found-last fs (path (q + suc (length w))) r
              (λ ctx1. search_loop l k find fs path ctx1 true false (q + suc (length w)))
              (ground arith))
        ∙ ap₂ (λ f r. find (suc (length w)) (chars (c ∷ w)) ctx >>= ended f r) (or_true found)
            (and_false root))
search_part l k find fs path ctx found root q (c ∷ w) t looks solid h no_slash (inr (r, e)) rest =
    let h1 = Text-behind path q (c ∷ w) t h in
    let (slash, above, more) = subst (Text path (q + suc (length w))) e h1 in
    let (v, (vs, cons)) = split_on-cons 47 r in
    let on = follow find (v ∷ vs) in
    let parts : split_on 47 ((c ∷ w) ++ t) ≡ (c ∷ w) ∷ (v ∷ vs) =
      ap (λ l. split_on 47 ((c ∷ w) ++ l)) e
      ∙ split_on-Solid 47 (c ∷ w) r solid
      ∙ ap (λ l. (c ∷ w) ∷ l) cons in
    let parts_t : split_on 47 t ≡ [] ∷ (v ∷ vs) =
      ap (split_on 47) e ∙ split_on-sep r ∙ ap (λ l. [] ∷ l) cons in
    let later : (ctx1 : IteratorCtx)
        → search_loop l k find fs path ctx1 true false (q + suc (length w))
          ≡ (on ctx1 >>= ended true false) =
      λ ctx1.
        subst
          (λ ws.
            Followed find ws ctx1 true false
              (search_loop l k find fs path ctx1 true false (q + suc (length w))))
          parts_t (rest ctx1 (q + suc (length w)) (omega (arith, length-append (c ∷ w) t)) h1) in
    subst
      (λ ws. Followed find ws ctx found root (
        search_round find fs path q (suc (length w)) ctx found root (search_loop l k find fs path)))
      (sym parts)
      (round_found find fs path q c w t ctx found root (search_loop l k find fs path)
          (λ r1. step_into r1 on >>= ended true false) looks h
          (λ r1.
            part_found-more fs (path (q + suc (length w))) r1
              (λ ctx1. search_loop l k find fs path ctx1 true false (q + suc (length w))) on
              (ground arith) later)
        ∙ sym (
            bind_assoc (find (suc (length w)) (chars (c ∷ w)) ctx) (λ r1. step_into r1 on)
              (ended true false))
        ∙ ap₂
            (λ f r1.
              (find (suc (length w)) (chars (c ∷ w)) ctx >>= λ r2. step_into r2 on) >>= ended f r1)
            (or_true found) (and_false root))

pub search_loop-Followed :
    (l k : ℕ) (find : Find) (fs : FatFs) (path : Name) (ctx : IteratorCtx) (found root : Bool)
    (p : ℕ) (s : List ℕ)
    → Looks find
    → length s < l
    → length s < k
    → Text path p s
    → Followed find (split_on 47 s) ctx found root (search_loop l k find fs path ctx found root p)
unfolding search_loop
search_loop-Followed zero k find fs path ctx found root p s looks ltl ltk h = absurd (omega arith)
search_loop-Followed (suc l) k find fs path ctx found root p s looks ltl ltk h =
    let skip = skip_slashes-Skipped k path p s ltk h in
    let shorter = skip.shorter in
    let word = cut_at 47 skip.rest in
    let (t, (split, end)) = Word-text 47 skip.rest word in
    let size : length skip.rest ≡ length word.word + length t =
      ap length split ∙ length-append word.word t in
    let on : skip.at ≡ skip.at + 0 = omega arith in
    let h1 : Text path (skip.at + 0) (word.word ++ t) =
      subst (λ j. Text path j (word.word ++ t)) on (subst (Text path skip.at) split skip.text) in
    let run = part_length-word k path skip.at 0 word.word t (omega arith) word.solid h1 end in
    let zero_more : 0 + length word.word ≡ length word.word = omega arith in
    let h2 = subst (Text path skip.at) split skip.text in
    let part =
      search_part l k find fs path ctx found root skip.at word.word t looks word.solid h2
        skip.no_slash end
        (λ ctx1 p1 lt1 h3.
          search_loop-Followed l k find fs path ctx1 true false p1 t looks
            (omega (arith, ap length split)) (omega (arith, ap length split)) h3) in
    let run_eq =
      ap
        (λ r. r >>= λ i. part_length k path i 0 >>= λ n.
          search_round find fs path i n ctx found root (search_loop l k find fs path))
        skip.returns
      ∙ ap
          (λ r. r >>= λ n.
            search_round find fs path skip.at n ctx found root (search_loop l k find fs path))
          (run ∙ ap ok zero_more) in
    let all : Followed find (split_on 47 skip.rest) ctx found root
        (search_loop (suc l) k find fs path ctx found root p) =
      subst
        (λ l1.
          Followed find (split_on 47 l1) ctx found root
            (search_loop (suc l) k find fs path ctx found root p))
        (sym split) (run_eq ∙ part) in
    all
    ∙ ap₂ (λ m b. m >>= ended (found || b) (root && not b)) (sym (skip.same find ctx))
        (sym skip.same_any)

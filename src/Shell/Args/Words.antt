-- ===== src/Shell/Args/Words.antt =====
-- The arguments are the words of the line.
use loom_bootloader.Base.{
  ℕ, zero, suc, ◌+◌, ◌*◌, ◌^◌, ◌≤◌, ◌<◌, ◌≡◌, List, [], ◌∷◌, ◌++◌, Bool, false, none, Exec, ok,
  panic, ◌>>=◌, ◌==◌, if◌then◌else◌, length, usize, arith, refl, sym, ap, ◌∙◌, Bool-cases, inl, inr,
  ◌⊎◌, length-append,
}
use mathlib.Core.Path.{subst}
use mathlib.Core.List.{append-nil}
use loom_bootloader.Base.Split.{pieces}
use loom_bootloader.Shell.{Buffer}
use loom_bootloader.Shell.Args.{parse_arg, Argv, make_room, add_arg, with_arg, args_loop, exec_args}
use loom_bootloader.Base.Text.{Text, Text-frame}
use loom_bootloader.Shell.Args.Scan.{Spell}
use loom_bootloader.Shell.Args.Found.{Parsed, parse_arg-Parsed}

-- What the loop does from a place in the line on: the heap refuses, or each word becomes an argument.
pub record Cut (b : Buffer) (pos : ℕ) (s : List ℕ) (v : Argv) (run : Exec (Argv × Buffer))
    : Type 0 where
  pub news : List ℕ
  pub room : ℕ
  pub bytes : ℕ
  pub after : Buffer
  pub run_eq : run ≡ ok (record { args = v.args ++ news; argvc = room; bytes = bytes }, after)
  pub words : Spell after news (pieces 32 s)
  pub fits : 4 * length (v.args ++ news) ≤ bytes
  pub frame : (i : ℕ) → (i < pos) ⊎ (pos + length s ≤ i) → after i ≡ b i

append_assoc : (xs ys zs : List ℕ) → xs ++ (ys ++ zs) ≡ (xs ++ ys) ++ zs
append_assoc [] ys zs = refl
append_assoc (x ∷ xs) ys zs = ap (λ l. x ∷ l) (append_assoc xs ys zs)

-- The heap has no room for a block of at most eight bytes a word.
abbrev pub Refused : (realloc : ℕ → Bool) (words : ℕ) {A : Type 0} → Exec A → Type 0
Refused realloc words run = (run ≡ panic) × ((n : ℕ) × ((n ≤ 8 * words) × (realloc n ≡ false)))

abbrev pub Room : Argv → Type 0
Room v = (length v.args ≤ v.argvc) × (v.argvc ≤ 2 * length v.args) × (v.bytes ≡ 4 * v.argvc)

grown-bounds :
    (n c : ℕ)
    → n ≡ c
    → n < 2 ^ 28
    → (n < (if c == 0 then 1 else usize (c * 2)))
      × ((if c == 0 then 1 else usize (c * 2)) ≤ 2 * suc n)
      × (usize ((if c == 0 then 1 else usize (c * 2)) * 4)
          ≡ 4 * (if c == 0 then 1 else usize (c * 2)))
      × (usize ((if c == 0 then 1 else usize (c * 2)) * 4) ≤ 8 * suc n)
grown-bounds n c e small = ground arith

make_room-lem :
    (realloc : ℕ → Bool) (v : Argv)
    → Room v
    → length v.args < 2 ^ 28
    → Refused realloc (suc (length v.args)) (make_room realloc v)
      ⊎ ((c z : ℕ) × ((make_room realloc v ≡ ok (record { args = v.args; argvc = c; bytes = z }))
            × (length v.args < c)
            × (c ≤ 2 * suc (length v.args))
            × (z ≡ 4 * c)))
unfolding make_room
make_room-lem realloc v (lo, hi, block) small = elim (Bool-cases (length v.args == v.argvc)) [
  | inl full ↦
      let more : ℕ = if v.argvc == 0 then 1 else usize (v.argvc * 2) in
      let bounds = grown-bounds (length v.args) v.argvc (ground arith) small in
      elim (Bool-cases (realloc (usize (more * 4)))) [
        | inl given ↦
            inr (more, usize (more * 4), (rw (full, given) refl, bounds.0, bounds.1, bounds.2))
        | inr refused ↦ inl (rw (full, refused) refl, (usize (more * 4), (bounds.3, refused)))
      ]
  | inr free ↦ inr (v.argvc, v.bytes, (rw free refl, ground arith, omega arith, block))
]

args_loop-found :
    (realloc : ℕ → Bool) (l k pos : ℕ) (b : Buffer) (s : List ℕ) (v : Argv)
    → (u : Parsed b pos s (parse_arg k pos b))
    → args_loop realloc (suc l) k pos v b
      ≡ (make_room realloc v >>= λ v1. args_loop realloc l k u.next (add_arg u.arg v1) u.after)
unfolding args_loop with_arg
args_loop-found realloc l k pos b s v u =
    ap (λ r. r >>= λ x. with_arg realloc x v (args_loop realloc l k)) u.run_eq

Cut-end :
    (realloc : ℕ → Bool) (l k pos : ℕ) (b : Buffer) (s : List ℕ) (v : Argv)
    → pieces 32 s ≡ []
    → parse_arg k pos b ≡ ok (none, pos, b)
    → 4 * length v.args ≤ v.bytes
    → Cut b pos s v (args_loop realloc (suc l) k pos v b)
unfolding args_loop with_arg
Cut-end realloc l k pos b s v nothing run room = record {
  news = [];
  room = v.argvc;
  bytes = v.bytes;
  after = b;
  run_eq =
      ap (λ r. r >>= λ x. with_arg realloc x v (args_loop realloc l k)) run
      ∙ ap (λ l. ok (record { args = l; argvc = v.argvc; bytes = v.bytes }, b))
          (sym (append-nil v.args));
  words = subst (Spell b []) (sym nothing) tt;
  fits = subst (λ l. 4 * length l ≤ v.bytes) (sym (append-nil v.args)) room;
  frame = λ i out. refl;
}

-- One more word in front of what the rest of the loop does.
Cut-step :
    (realloc : ℕ → Bool) (l k pos : ℕ) (b : Buffer) (s : List ℕ) (v : Argv) (c z : ℕ)
    → (u : Parsed b pos s (parse_arg k pos b))
    → make_room realloc v ≡ ok (record { args = v.args; argvc = c; bytes = z })
    → Cut u.after u.next u.rest
        (record { args = v.args ++ u.arg ∷ []; argvc = c; bytes = z })
        (args_loop realloc l k u.next
          (record { args = v.args ++ u.arg ∷ []; argvc = c; bytes = z })
          u.after)
    → Cut b pos s v (args_loop realloc (suc l) k pos v b)
unfolding args_loop with_arg
Cut-step realloc l k pos b s v c z u room cut =
    let total = u.total in
    let above = u.above in
    let same = append_assoc v.args (u.arg ∷ []) cut.news in
    record {
      news = u.arg ∷ cut.news;
      room = cut.room;
      bytes = cut.bytes;
      after = cut.after;
      run_eq =
          args_loop-found realloc l k pos b s v u
          ∙ ap (λ r. r >>= λ v1. args_loop realloc l k u.next (add_arg u.arg v1) u.after) room
          ∙ cut.run_eq
          ∙ ap (λ l. ok (record { args = l; argvc = cut.room; bytes = cut.bytes }, cut.after))
              (sym same);
      words = subst (Spell cut.after (u.arg ∷ cut.news)) (sym u.same) (
        Text-frame u.after cut.after u.arg u.word (λ i lo hi. cut.frame i (u.apart i lo hi))
            u.arg_text,
        cut.words,
      );
      fits = subst (λ l. 4 * length l ≤ cut.bytes) (sym same) cut.fits;
      frame = λ i out. cut.frame i (ground arith) ∙ u.frame i out;
    }

args_loop-Cut :
    (realloc : ℕ → Bool) (l k pos : ℕ) (b : Buffer) (s : List ℕ) (v : Argv) (words : ℕ)
    → length s < l
    → length s < k
    → Text b pos s
    → Room v
    → length v.args + length s < 2 ^ 28
    → (length v.args + length (pieces 32 s) ≤ words)
    → Refused realloc words (args_loop realloc l k pos v b)
      ⊎ Cut b pos s v (args_loop realloc l k pos v b)
args_loop-Cut realloc zero k pos b s v words ltl ltk h room small few_words = absurd (omega arith)
args_loop-Cut realloc (suc l) k pos b s v words ltl ltk h room small few_words =
    elim (parse_arg-Parsed k pos b s ltk h) [
      | inl (nothing, run) ↦
          inr (Cut-end realloc l k pos b s v nothing run (omega (arith, room.0, room.2)))
      | inr u ↦
          let less = u.less in
          let total = u.total in
          let step = args_loop-found realloc l k pos b s v u in
          elim (make_room-lem realloc v room (omega arith)) [
            | inl (stop, (n, (few, why))) ↦ inl (
              step
                  ∙ ap (λ r. r >>= λ v1. args_loop realloc l k u.next (add_arg u.arg v1) u.after)
                      stop,
              (n, (omega (arith, few, few_words, ap length u.same), why)),
            )
            | inr (c, z, (given, lo, hi, block)) ↦
                let size : length (v.args ++ u.arg ∷ []) ≡ length v.args + 1 =
                  length-append v.args (u.arg ∷ []) in
                elim (args_loop-Cut realloc l k u.next u.after u.rest
                  (record { args = v.args ++ u.arg ∷ []; argvc = c; bytes = z }) words (omega arith)
                  (omega arith) u.text (omega arith, omega arith, block) (omega arith)
                  (omega (arith, few_words, ap length u.same, size))) [
                    | inl (stop, (n, (few, why))) ↦ inl (
                      step
                          ∙ ap
                              (λ r.
                                r >>= λ v1. args_loop realloc l k u.next (add_arg u.arg v1) u.after)
                              given
                          ∙ stop,
                      (n, (few, why)),
                    )
                    | inr cut ↦ inr (Cut-step realloc l k pos b s v c z u given cut)
                  ]
          ]
    ]

-- Without a refusal by the heap, the arguments of a line are its words between spaces, in their
-- order: each argument points to the text of its word, which a zero byte now ends. The block at `argv` has
-- four bytes for each of them at least, and no byte behind the line has changed. The loop always
-- ends, and it panics only when the heap refuses a block of at most eight bytes for each word. The line is a text below 2 ^ 28 bytes.
pub exec_args-Cut :
    (realloc : ℕ → Bool) (fuel : ℕ) (b : Buffer) (line : List ℕ)
    → Text b 0 line
    → length line < fuel
    → length line < 2 ^ 28
    → Refused realloc (length (pieces 32 line)) (exec_args realloc fuel b)
      ⊎ Cut b 0 line (record { args = []; argvc = 0; bytes = 0 }) (exec_args realloc fuel b)
unfolding exec_args
exec_args-Cut realloc fuel b line h lt small =
    args_loop-Cut realloc fuel fuel 0 b line (record { args = []; argvc = 0; bytes = 0 })
      (length (pieces 32 line)) lt lt h (omega arith, omega arith, omega arith) (omega arith)
      (omega arith)

-- ===== src/Str/Strings.antt =====
-- What the routines do on strings.
use loom_bootloader.Base.{
  ◌⊎◌, ℕ, zero, suc, ◌+◌, ◌≤◌, ◌<◌, ◌≡◌, ◌≢◌, ◌↔◌, Exec, ok, ◌==◌, arith, refl, ap, sym, inl, inr,
  Bool-cases, ◌∙◌, false,
}
use loom_bootloader.Base.Int.{ℤ, pos, sub_ℕ}
use loom_bootloader.Memory.{Memory, store}
use loom_bootloader.Str.{
  length_loop, str_length, cmp_loop, str_cmp, lower_char, lower_loop, str_lower,
}

-- `n` bytes from `s` on, none of them zero, and a zero byte behind them.
pub record IsString (m : Memory) (s n : ℕ) : Type 0 where
  pub chars : (k : ℕ) → k < n → m (s + k) ≢ 0
  pub end : m (s + n) ≡ 0

-- The first byte, and the string behind it.
empty_head : (m : Memory) (s : ℕ) → IsString m s 0 → m s ≡ 0
empty_head m s h = ap m {x = s} {y = s + 0} (omega arith) ∙ h.end

char_head : (m : Memory) (s n : ℕ) → IsString m s (suc n) → m s ≢ 0
char_head m s n h e = h.chars 0 (omega arith) (ap m {x = s + 0} {y = s} (omega arith) ∙ e)

shift : (m : Memory) (s k : ℕ) → m (s + 1 + k) ≡ m (s + suc k)
shift m s k = ap m {x = s + 1 + k} {y = s + suc k} (omega arith)

tail_IsString : (m : Memory) (s n : ℕ) → IsString m s (suc n) → IsString m (s + 1) n
tail_IsString m s n h = record {
  chars = λ k lt e. h.chars (suc k) (omega arith) (sym (shift m s k) ∙ e);
  end = shift m s n ∙ h.end;
}

start : (s : ℕ) → s + 0 ≡ s
start s = omega arith

regroup : (s len : ℕ) → s + (len + 1) ≡ s + len + 1
regroup s len = omega arith

next_IsString :
    (m : Memory) (s len n : ℕ) → IsString m (s + len) (suc n) → IsString m (s + (len + 1)) n
next_IsString m s len n h = rw (regroup s len) (tail_IsString m (s + len) n h)

length_loop-IsString :
    (fuel s len n : ℕ) (m : Memory)
    → IsString m (s + len) n
    → n < fuel
    → length_loop fuel s len m ≡ ok (len + n)
unfolding length_loop
length_loop-IsString zero s len n m h lt = absurd (omega arith)
length_loop-IsString (suc f) s len zero m h lt =
    ground (arith, empty_head m (s + len) h, ap ok {x = len} {y = len + 0} (omega arith))
length_loop-IsString (suc f) s len (suc n) m h lt = ground (
  arith,
  char_head m (s + len) n h,
  length_loop-IsString f s (len + 1) n m (next_IsString m s len n h) (omega arith),
)

at_start : (m : Memory) (s n : ℕ) → IsString m s n → IsString m (s + 0) n
at_start m s n h = rw (start s) h

-- loomStrLength of a string that is not null returns the number of bytes before its zero byte; as
-- much fuel, and one more, is enough.
pub str_length-IsString :
    (fuel s n : ℕ) (m : Memory) → s ≢ 0 → IsString m s n → n < fuel → str_length fuel s m ≡ ok n
unfolding str_length
str_length-IsString fuel s n m p h lt =
    ground (arith, length_loop-IsString fuel s 0 n m (at_start m s n h) lt)

-- Both strings have the same bytes.
pub record SameString (m : Memory) (s1 n1 s2 n2 : ℕ) : Type 0 where
  pub length : n1 ≡ n2
  pub chars : (k : ℕ) → k < n1 → m (s1 + k) ≡ m (s2 + k)

SameString-tail :
    (m : Memory) (s1 n1 s2 n2 : ℕ)
    → SameString m s1 (suc n1) s2 (suc n2)
    → SameString m (s1 + 1) n1 (s2 + 1) n2
SameString-tail m s1 n1 s2 n2 h = record {
  length = omega (arith, h.length);
  chars = λ k lt. shift m s1 k ∙ h.chars (suc k) (omega arith) ∙ sym (shift m s2 k);
}

SameString-head : (m : Memory) (s1 n1 s2 n2 : ℕ) → SameString m s1 (suc n1) s2 n2 → m s1 ≡ m s2
SameString-head m s1 n1 s2 n2 h =
    ap m {x = s1} {y = s1 + 0} (omega arith)
    ∙ h.chars 0 (omega arith)
    ∙ ap m {x = s2 + 0} {y = s2} (omega arith)

char_of :
    (m : Memory) (s1 n1 s2 : ℕ)
    → m s1 ≡ m s2
    → ((k : ℕ) → k < n1 → m (s1 + 1 + k) ≡ m (s2 + 1 + k))
    → (k : ℕ) → k < suc n1
    → m (s1 + k) ≡ m (s2 + k)
char_of m s1 n1 s2 e f zero lt =
    ap m {x = s1 + 0} {y = s1} (omega arith) ∙ e ∙ ap m {x = s2} {y = s2 + 0} (omega arith)
char_of m s1 n1 s2 e f (suc k) lt = sym (shift m s1 k) ∙ f k (omega arith) ∙ shift m s2 k

unequal : (a b : ℕ) → a ≢ b → (a == b) ≡ false
unequal a b h = ground arith

SameString-suc :
    (m : Memory) (s1 n1 s2 n2 : ℕ)
    → m s1 ≡ m s2
    → SameString m (s1 + 1) n1 (s2 + 1) n2
    → SameString m s1 (suc n1) s2 (suc n2)
SameString-suc m s1 n1 s2 n2 e h = record {
  length = omega (arith, h.length);
  chars = char_of m s1 n1 s2 e h.chars;
}

-- The outcome of a comparison, and what its being 0 means.
abbrev Decides : Memory → (s1 n1 s2 n2 : ℕ) → Exec ℤ → Type 0
Decides m s1 n1 s2 n2 r = (d : ℤ) × ((r ≡ ok d) × ((d ≡ pos 0) ↔ SameString m s1 n1 s2 n2))

different :
    (m : Memory) (s1 n1 s2 n2 : ℕ)
    → m s1 ≢ m s2
    → (SameString m s1 n1 s2 n2 → m s1 ≡ m s2)
    → Decides m s1 n1 s2 n2 (ok (sub_ℕ (m s1) (m s2)))
different m s1 n1 s2 n2 e f =
    (sub_ℕ (m s1) (m s2), (refl, (λ z. absurd (ground arith), λ h. absurd (e (f h)))))

cmp_loop-Decides :
    (fuel s1 n1 s2 n2 : ℕ) (m : Memory)
    → IsString m s1 n1
    → IsString m s2 n2
    → n1 < fuel
    → Decides m s1 n1 s2 n2 (cmp_loop fuel s1 s2 m)
unfolding cmp_loop
cmp_loop-Decides zero s1 n1 s2 n2 m h k lt = absurd (omega arith)
cmp_loop-Decides (suc f) s1 zero s2 zero m h k lt =
    rw (empty_head m s1 h, empty_head m s2 k)
      (
        pos 0,
        (refl, (λ z. record { length = refl; chars = λ i l. absurd (omega arith) }, λ same. refl)),
      )
cmp_loop-Decides (suc f) s1 zero s2 (suc n2) m h k lt =
    let e = empty_head m s1 h in
    let c = char_head m s2 n2 k in
    rw (unequal (m s1) (m s2) (λ q. c (sym q ∙ e))) (
      different m s1 0 s2 (suc n2) (λ q. c (sym q ∙ e))
        (λ same. absurd (omega (arith, same.length))))
cmp_loop-Decides (suc f) s1 (suc n1) s2 zero m h k lt =
    let e = empty_head m s2 k in
    let c = char_head m s1 n1 h in
    rw (unequal (m s1) (m s2) (λ q. c (q ∙ e)))
      (different m s1 (suc n1) s2 0 (λ q. c (q ∙ e)) (λ same. absurd (omega (arith, same.length))))
cmp_loop-Decides (suc f) s1 (suc n1) s2 (suc n2) m h k lt = elim (Bool-cases (m s1 == m s2)) [
  | inl e ↦
      let (d, (r, (to, from))) =
        cmp_loop-Decides f (s1 + 1) n1 (s2 + 1) n2 m (tail_IsString m s1 n1 h)
          (tail_IsString m s2 n2 k) (omega arith) in
      rw (e, unequal (m s1) 0 (char_head m s1 n1 h))
        (
          d,
          (
            r,
            (
              λ z. SameString-suc m s1 n1 s2 n2 (ground arith) (to z),
              λ same. from (SameString-tail m s1 n1 s2 n2 same),
            ),
          ),
        )
  | inr e ↦
      rw e
        (different m s1 (suc n1) s2 (suc n2) (ground arith) (SameString-head m s1 n1 s2 (suc n2)))
]

-- loomStrCmp of two strings that are not null returns 0 exactly when they have the same length and
-- bytes; as much fuel as the first is long, and one more, is enough.
pub str_cmp-zero_iff :
    (fuel s1 n1 s2 n2 : ℕ) (m : Memory)
    → s1 ≢ 0
    → s2 ≢ 0
    → IsString m s1 n1
    → IsString m s2 n2
    → n1 < fuel
    → (d : ℤ) × ((str_cmp fuel s1 s2 m ≡ ok d) × ((d ≡ pos 0) ↔ SameString m s1 n1 s2 n2))
unfolding str_cmp
str_cmp-zero_iff fuel s1 n1 s2 n2 m p q h k lt =
    let (d, (r, iff)) = cmp_loop-Decides fuel s1 n1 s2 n2 m h k lt in (d, (ground arith, iff))

-- `n` bytes from `s` on made small, and no other changed.
abbrev Lowered : Memory → Memory → (s n : ℕ) → Type 0
Lowered m m' s n =
    ((a : ℕ) → s ≤ a → a < s + n → m' a ≡ lower_char (m a))
    × ((a : ℕ) → a < s → m' a ≡ m a)
    × ((a : ℕ) → s + n ≤ a → m' a ≡ m a)

stored_IsString : (m : Memory) (s v n : ℕ) → IsString m (s + 1) n → IsString (store s v m) (s + 1) n
stored_IsString m s v n h = record {
  chars = λ k lt e. h.chars k lt (ground arith);
  end = ground (arith, h.end);
}

first : (m : Memory) (s a : ℕ) → a ≡ s → store s (lower_char (m s)) m a ≡ lower_char (m a)
first m s a h = ground (arith, ap m h)

other : (m : Memory) (s a : ℕ) → a ≢ s → store s (lower_char (m s)) m a ≡ m a
other m s a h = ground arith

lower_loop-IsString :
    (fuel s n : ℕ) (m : Memory)
    → IsString m s n
    → n < fuel
    → (m' : Memory) × ((lower_loop fuel s m ≡ ok m') × Lowered m m' s n)
unfolding lower_loop
lower_loop-IsString zero s n m h lt = absurd (omega arith)
lower_loop-IsString (suc f) s zero m h lt =
    rw (empty_head m s h) (m, (refl, (λ a l k. absurd (omega arith), λ a l. refl, λ a l. refl)))
lower_loop-IsString (suc f) s (suc n) m h lt =
    let m1 = store s (lower_char (m s)) m in
    let (m', (r, (inside, below, above))) =
      lower_loop-IsString f (s + 1) n m1
        (stored_IsString m s (lower_char (m s)) n (tail_IsString m s n h)) (omega arith) in
    rw (unequal (m s) 0 (char_head m s n h)) (
      m',
      (
        r,
        (
          λ a l k. elim (Bool-cases (a == s)) [
            | inl e ↦ cc (below a (ground arith), first m s a (ground arith))
            | inr e ↦ cc (inside a (ground arith) (omega arith), other m s a (ground arith))
          ],
          λ a l. cc (below a (omega arith), other m s a (omega arith)),
          λ a l. cc (above a (omega arith), other m s a (omega arith)),
        ),
      ),
    )

lower_char-capital : (c : ℕ) → 65 ≤ c → c ≤ 90 → lower_char c ≡ c + 32
lower_char-capital c lo hi = ground arith

lower_char-other : (c : ℕ) → (c < 65) ⊎ (90 < c) → lower_char c ≡ c
lower_char-other c out = ground arith

-- loomStrLower of a string that is not null adds 32 to its capitals, the bytes from 65 to 90, and changes no
-- other byte; as
-- much fuel as the string is long, and one more, is enough.
pub str_lower-IsString :
    (fuel s n : ℕ) (m : Memory)
    → s ≢ 0
    → IsString m s n
    → n < fuel
    → (m' : Memory) × ((str_lower fuel s m ≡ ok m')
        × ((a : ℕ) → s ≤ a → a < s + n → 65 ≤ m a → m a ≤ 90 → m' a ≡ m a + 32)
        × ((a : ℕ) → s ≤ a → a < s + n → (m a < 65) ⊎ (90 < m a) → m' a ≡ m a)
        × ((a : ℕ) → a < s → m' a ≡ m a)
        × ((a : ℕ) → s + n ≤ a → m' a ≡ m a))
unfolding str_lower
str_lower-IsString fuel s n m p h lt =
    let (m', (r, (inside, below, above))) = lower_loop-IsString fuel s n m h lt in
    (
      m',
      (
        ground arith,
        λ a l k lo hi. inside a l k ∙ lower_char-capital (m a) lo hi,
        λ a l k out. inside a l k ∙ lower_char-other (m a) out,
        below,
        above,
      ),
    )

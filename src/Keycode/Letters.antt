-- ===== src/Keycode/Letters.antt =====
-- Letters: shift and caps lock.
use loom_bootloader.Base.{
  ℕ, zero, suc, ◌+◌, ◌≤◌, ◌≡◌, Bool, true, false, not, ◌||◌, ◌&&◌, ◌==◌, leb, get_or, has_flag,
  if◌then◌else◌, arith, refl, ap, inl, inr, Bool-cases,
}
use loom_bootloader.Keycode.{keycode_to_ascii, keycode_to_ascii_alt, table_of, key_code_to_char}

-- The tables' letters, checked one key at a time.
letters : ℕ → Bool
letters n =
    n == 0 || (get_or keycode_to_ascii n 0 == 96 + n && get_or keycode_to_ascii_alt n 0 == 64 + n)

letters_up_to : ℕ → Bool
letters_up_to zero = letters zero
letters_up_to (suc n) = if letters_up_to n then letters (suc n) else false

letters_at : (n k : ℕ) → k ≤ n → letters_up_to n ≡ true → letters k ≡ true
unfolding letters_up_to
letters_at zero zero h e = e
letters_at zero (suc k) h e = absurd (omega arith)
letters_at (suc n) k h e = elim (Bool-cases (leb k n)) [
  | inl le ↦ ground (arith, letters_at n k (ground arith))
  | inr gt ↦ ground (arith, ap letters {x = k} {y = suc n} (ground arith))
]

all_letters : letters_up_to 26 ≡ true
unfolding letters_up_to letters
all_letters = refl

letter_of :
    (k : ℕ)
    → 1 ≤ k
    → letters k ≡ true
    → (get_or keycode_to_ascii k 0 ≡ 96 + k) × (get_or keycode_to_ascii_alt k 0 ≡ 64 + k)
unfolding letters
letter_of k lo h = ground arith

letter :
    (k : ℕ)
    → 1 ≤ k
    → k ≤ 26
    → (get_or keycode_to_ascii k 0 ≡ 96 + k) × (get_or keycode_to_ascii_alt k 0 ≡ 64 + k)
letter k lo hi = letter_of k lo (letters_at 26 k hi all_letters)

abbrev pub is_shifted : ℕ → Bool
is_shifted mods = has_flag mods 2 || has_flag mods 4

abbrev pub is_capital : ℕ → Bool
is_capital mods = if has_flag mods 32 then not (is_shifted mods) else is_shifted mods

letter_table : (mods k : ℕ) → 1 ≤ k → k ≤ 26 → table_of mods k ≡ (if is_capital mods then 1 else 0)
unfolding table_of
letter_table mods k lo hi = ground arith

pick : (b : Bool) (x y : ℕ) → (if (if b then 1 else 0) == 0 then y else x) ≡ (if b then x else y)
pick true x y = refl
pick false x y = refl

-- loomKeyCodeToChar gives a letter's key the capital letter if either a shift key or caps lock is
-- on, but not both, and else the small one, whatever other modifiers are on.
pub key_code_to_char-letter :
    (mods k : ℕ)
    → 1 ≤ k
    → k ≤ 26
    → key_code_to_char mods k ≡ (if is_capital mods then 64 + k else 96 + k)
unfolding key_code_to_char
key_code_to_char-letter mods k lo hi =
    let (small, capital) = letter k lo hi in
    rw (letter_table mods k lo hi, small, capital) (pick (is_capital mods) (64 + k) (96 + k))

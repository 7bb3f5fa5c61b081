-- ===== src/Str/Samples.antt =====
-- The strings `Ab` at 100 and `Ac` at 200.
use loom_bootloader.Base.{
  ◌+◌, ◌⊎◌, ℕ, zero, suc, ◌+◌, ◌-◌, ◌≤◌, ◌<◌, ◌≡◌, ◌↔◌, ok, [], ◌∷◌, get_or, ◌≢◌, refl, arith, ltb,
  if◌then◌else◌,
}
use loom_bootloader.Base.Int.{ℤ, pos}
use loom_bootloader.Memory.{Memory}
use loom_bootloader.Str.{str_length, str_cmp, str_lower}
use loom_bootloader.Str.Strings.{
  IsString, SameString, str_length-IsString, str_cmp-zero_iff, str_lower-IsString,
}

abbrev strings : Memory
strings a =
    if ltb a 200 then get_or (65 ∷ 98 ∷ []) (a - 100) 0 else get_or (65 ∷ 99 ∷ []) (a - 200) 0

first_chars : (k : ℕ) → k < 2 → strings (100 + k) ≢ 0
first_chars zero h = omega arith
first_chars (suc zero) h = omega arith
first_chars (suc (suc k)) h = absurd (omega arith)

second_chars : (k : ℕ) → k < 2 → strings (200 + k) ≢ 0
second_chars zero h = omega arith
second_chars (suc zero) h = omega arith
second_chars (suc (suc k)) h = absurd (omega arith)

first-IsString : IsString strings 100 2
first-IsString = record { chars = first_chars; end = refl }

second-IsString : IsString strings 200 2
second-IsString = record { chars = second_chars; end = refl }

str_length-IsString_example : str_length 3 100 strings ≡ ok 2
str_length-IsString_example =
    str_length-IsString 3 100 2 strings (omega arith) first-IsString (omega arith)

str_cmp-zero_iff_example :
    (d : ℤ) × ((str_cmp 3 100 200 strings ≡ ok d) × ((d ≡ pos 0) ↔ SameString strings 100 2 200 2))
str_cmp-zero_iff_example =
    str_cmp-zero_iff 3 100 2 200 2 strings (omega arith) (omega arith) first-IsString
      second-IsString (omega arith)

str_lower-IsString_example :
    (m' : Memory) × ((str_lower 3 100 strings ≡ ok m')
      × ((a : ℕ) → 100 ≤ a → a < 102 → 65 ≤ strings a → strings a ≤ 90 → m' a ≡ strings a + 32)
      × ((a : ℕ) → 100 ≤ a → a < 102 → (strings a < 65) ⊎ (90 < strings a) → m' a ≡ strings a)
      × ((a : ℕ) → a < 100 → m' a ≡ strings a)
      × ((a : ℕ) → 102 ≤ a → m' a ≡ strings a))
str_lower-IsString_example =
    str_lower-IsString 3 100 2 strings (omega arith) first-IsString (omega arith)

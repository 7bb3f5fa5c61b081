-- ===== src/Arith/Division.antt =====
-- The shift-and-subtract loop computes the quotient and the remainder.
use native.Mathlib.Nat.{pow-suc, one-le-pow, div-div-eq-div-mul, mul-add-div}
use loom_bootloader.Base.{
  ℕ, zero, suc, ◌+◌, ◌-◌, ◌*◌, ◌/◌, ◌%◌, ◌^◌, ◌≤◌, ◌<◌, ◌≡◌, refl, ap, arith, bit_and, bit_or, leb,
  Bool-cases, inl, inr, sym, ◌∙◌, tests,
}
use loom_bootloader.Base.Bits.{bit_and-one, bit_or_sum, pow_add}
use native.Mathlib.Decide.{dec_lt}
use loom_bootloader.Arith.{Partial, start, round, rounds, udivmoddi4, udivdi3, umoddi3}

div-two-pow : (n i : ℕ) → n / 2 ^ suc i ≡ n / 2 ^ i / 2
div-two-pow n i = ap (λ (k : ℕ). n / k) (pow-suc 2 i) ∙ sym (div-div-eq-div-mul n (2 ^ i) 2)

low_bit : (r b : ℕ) → bit_or (r * 2) (bit_and b 1) ≡ r * 2 + b % 2
low_bit r b =
    omega (arith, ap (bit_or (r * 2)) (bit_and-one b), bit_or_sum 1 r (b % 2) (omega arith))

-- After the rounds 63 … i: the bits of `n` from `i` on are divided.
record IsDivided (n d i : ℕ) (s : Partial) : Type 0 where
  top : ℕ
  quotient : s.q ≡ top * 2 ^ i
  divides : n / 2 ^ i ≡ top * d + s.r
  small : s.r < d

module _ (n d i shifted : ℕ) (bound : n / 2 ^ suc i < 2 ^ 63)
    (bit : shifted % 2 ≡ n / 2 ^ i % 2) where
  no_carry : (s : Partial) → IsDivided n d (suc i) s → s.r * 2 % 2 ^ 64 ≡ s.r * 2
  no_carry s v = omega (arith, v.divides)

  round-IsDivided : (s : Partial) → IsDivided n d (suc i) s → IsDivided n d i (round shifted d i s)
  unfolding round
  round-IsDivided s v =
      let r2 : ℕ = s.r * 2 + shifted % 2 in
      let one_more : bit_or (s.r * 2 % 2 ^ 64) (bit_and shifted 1) ≡ r2 =
        ap (λ (k : ℕ). bit_or k (bit_and shifted 1)) (no_carry s v) ∙ low_bit s.r shifted in
      let halves : n / 2 ^ i ≡ v.top * 2 * d + r2 =
        ground (arith, v.divides, div-two-pow n i, bit) in
      let twice : 2 ^ suc i ≡ 2 ^ i * 2 = pow-suc 2 i in
      let low : 2 ^ i < 2 ^ suc i = omega (arith, one-le-pow i 2) in
      elim (Bool-cases (leb d r2)) [
        | inl fits ↦
            rw (one_more, fits)
              (record {
                top = v.top * 2 + 1;
                quotient = rw v.quotient (
                    omega (
                      arith,
                      bit_or_sum (suc i) v.top (2 ^ i) low,
                      ap (λ (k : ℕ). v.top * k) twice,
                    ));
                divides = omega (tests, fits);
                small = omega (tests, fits);
              })
        | inr not_yet ↦
            rw (one_more, not_yet)
              (record {
                top = v.top * 2;
                quotient = rw v.quotient (omega (arith, ap (λ (k : ℕ). v.top * k) twice));
                divides = halves;
                small = ground arith;
              })
      ]

-- The rounds below `i`, on any source of shifted values whose low bits are those of `n`.
module _ (n d : ℕ) (bound : n < 2 ^ 64) (shift : ℕ → ℕ) where
  rounds-IsDivided :
      (i : ℕ) (s : Partial)
      → i ≤ 64
      → ((j : ℕ) → j < 64 → shift j % 2 ≡ n / 2 ^ j % 2)
      → IsDivided n d i s
      → IsDivided n d 0 (rounds shift d i s)
  unfolding rounds
  rounds-IsDivided zero s below bits v = v
  rounds-IsDivided (suc i) s below bits v =
      rounds-IsDivided i (round (shift i) d i s) (omega arith) bits (
        round-IsDivided n d i (shift i) (omega (arith, div-two-pow n i)) (bits i (omega arith)) s v)

  pub rounds-div_mod :
      0 < d
      → ((j : ℕ) → j < 64 → shift j % 2 ≡ n / 2 ^ j % 2)
      → ((rounds shift d 64 start).q ≡ n / d) × ((rounds shift d 64 start).r ≡ n % d)
  rounds-div_mod pos bits =
      let v =
        rounds-IsDivided 64 start (omega arith) bits
          (record { top = 0; quotient = refl; divides = omega arith; small = pos }) in
      (grind (arith, v.quotient, v.divides, v.small), grind (arith, v.quotient, v.divides, v.small))

-- `__udivmoddi4` returns the quotient of a 64-bit number by any divisor but 0, and stores the
-- remainder.
pub udivmoddi4-div_mod :
    (n d : ℕ)
    → n < 2 ^ 64
    → 0 < d
    → ((udivmoddi4 n d).quotient ≡ n / d) × ((udivmoddi4 n d).rem ≡ n % d)
unfolding udivmoddi4
udivmoddi4-div_mod n d bound pos = rounds-div_mod n d bound (λ i. n / 2 ^ i) pos (λ j h. refl)

-- The 32-bit shift instruction of the i686 uses the low five bits of the count.
abbrev pub shr_i686 : ℕ → ℕ → ℕ
shr_i686 n i = n / 2 ^ (i % 32)

-- With that shift the low bits are those of `n` written twice.
low_half : (n j : ℕ) → j < 32 → n / 2 ^ j % 2 ≡ (n * 2 ^ 32 + n) / 2 ^ j % 2
low_half n j low =
    let k : ℕ = 31 - j in
    let split : 2 ^ 32 ≡ 2 ^ j * 2 ^ suc k =
      ap (λ (t : ℕ). 2 ^ t) {x = 32} (omega arith) ∙ pow_add 2 j (suc k) in
    let sum : n * 2 ^ 32 + n ≡ 2 ^ j * (n * 2 ^ k * 2) + n = rw (split, pow-suc) (omega arith) in
    rw (sum, mul-add-div (one-le-pow j 2 (omega arith))) (omega arith)

high_half : (n k : ℕ) → n < 2 ^ 32 → n / 2 ^ k % 2 ≡ (n * 2 ^ 32 + n) / 2 ^ (32 + k) % 2
high_half n k small =
    rw (pow_add 2 32 k, ← div-div-eq-div-mul (n * 2 ^ 32 + n) (2 ^ 32) (2 ^ k))
      (ap (λ (t : ℕ). t / 2 ^ k % 2) (omega arith))

twice_bit : (n j : ℕ) → n < 2 ^ 32 → j < 64 → shr_i686 n j % 2 ≡ (n * 2 ^ 32 + n) / 2 ^ j % 2
twice_bit n j small below = elim (dec_lt j 32) [
  | yes low ↦ ap (λ (t : ℕ). n / 2 ^ t % 2) (omega arith) ∙ low_half n j low
  | no high ↦
      let above : j ≡ 32 + (j - 32) = omega arith in
      ap (λ (t : ℕ). n / 2 ^ t % 2) (omega arith)
      ∙ high_half n (j - 32) small
      ∙ ap (λ (t : ℕ). (n * 2 ^ 32 + n) / 2 ^ t % 2) (sym above)
]

-- With the shift of the i686, `__udivdi3` and `__umoddi3` divide `n * 2^32 + n` in place of `n`.
pub udivdi3-umoddi3_i686 :
    (n d : ℕ)
    → n < 2 ^ 32
    → 0 < d
    → (udivdi3 shr_i686 n d ≡ (n * 2 ^ 32 + n) / d) × (umoddi3 shr_i686 n d ≡ (n * 2 ^ 32 + n) % d)
unfolding udivdi3 umoddi3
udivdi3-umoddi3_i686 n d small pos =
    rounds-div_mod (n * 2 ^ 32 + n) d (omega arith) (shr_i686 n) pos λ j h. twice_bit n j small h

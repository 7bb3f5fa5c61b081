-- ===== src/Shell/Line.antt =====
-- A line as the bytes on either side of the cursor, and what it is for the buffer to hold one.
use loom_bootloader.Base.{
  ℕ, zero, suc, ◌+◌, ◌-◌, ◌≤◌, ◌<◌, ◌≡◌, List, [], ◌∷◌, length, ◌==◌, leb, arith, refl, ap, inl,
  inr, Bool-cases,
}
use loom_bootloader.Memory.{store}
use loom_bootloader.Shell.{Buffer, Shell, shift_down, shift_up}

-- The characters before the cursor, the nearest first, and those from the cursor on.
pub record Line : Type 0 where
  pub before : List ℕ
  pub after : List ℕ

unfoldable pub Before : Buffer → ℕ → List ℕ → Type 0
Before b c [] = c ≡ 0
Before b c (x ∷ xs) = (0 < c) × (b (c - 1) ≡ x) × Before b (c - 1) xs

unfoldable pub After : Buffer → ℕ → ℕ → List ℕ → Type 0
After b c e [] = c ≡ e
After b c e (x ∷ xs) = (c < e) × (b c ≡ x) × After b (suc c) e xs

unfoldable pub Shows : Shell → Line → Type 0
Shows s l = Before s.buf s.cursor l.before × After s.buf s.cursor s.len l.after

pub Before-length : (b : Buffer) (c : ℕ) (xs : List ℕ) → Before b c xs → c ≡ length xs
unfolding Before
Before-length b c [] h = h
Before-length b c (x ∷ xs) (pos, e, h) = omega (arith, Before-length b (c - 1) xs h)

pub After-length : (b : Buffer) (c e : ℕ) (xs : List ℕ) → After b c e xs → e ≡ c + length xs
unfolding After
After-length b c e [] h = omega arith
After-length b c e (x ∷ xs) (lt, q, h) = omega (arith, After-length b (suc c) e xs h)

-- Bytes from the cursor on do not matter to what is before it.
pub Before-frame :
    (b b' : Buffer) (c c' : ℕ) (xs : List ℕ)
    → c' ≡ c
    → ((j : ℕ) → j < c → b' j ≡ b j)
    → Before b c xs
    → Before b' c' xs
unfolding Before
Before-frame b b' c c' [] q f h = omega arith
Before-frame b b' c c' (x ∷ xs) q f (pos, e, h) = (
  omega arith,
  cc (f (c - 1) (omega arith), ap b' {x = c' - 1} {y = c - 1} (omega arith), e),
  Before-frame b b' (c - 1) (c' - 1) xs (omega arith) (λ j k. f j (omega arith)) h,
)

-- The bytes from the cursor on, moved up by one.
pub After-up :
    (b b' : Buffer) (c e c' e' : ℕ) (xs : List ℕ)
    → c' ≡ c + 1
    → e' ≡ e + 1
    → ((j : ℕ) → c ≤ j → j < e → b' (suc j) ≡ b j)
    → After b c e xs
    → After b' c' e' xs
unfolding After
After-up b b' c e c' e' [] q r f h = omega arith
After-up b b' c e c' e' (x ∷ xs) q r f (lt, v, h) = (
  omega arith,
  cc (f c (omega arith) lt, ap b' {x = c'} {y = suc c} (omega arith), v),
  After-up b b' (suc c) e (suc c') e' xs (omega arith) r (λ j k m. f j (omega arith) m) h,
)

-- The bytes from the cursor on, moved down by one.
pub After-down :
    (b b' : Buffer) (c e c' e' : ℕ) (xs : List ℕ)
    → c' ≡ c + 1
    → e' ≡ e + 1
    → ((j : ℕ) → c ≤ j → j < e → b' j ≡ b (suc j))
    → After b c' e' xs
    → After b' c e xs
unfolding After
After-down b b' c e c' e' [] q r f h = omega arith
After-down b b' c e c' e' (x ∷ xs) q r f (lt, v, h) = (
  omega arith,
  cc (f c (omega arith) (omega arith), ap b {x = c'} {y = suc c} (omega arith), v),
  After-down b b' (suc c) e (suc c') e' xs (omega arith) r (λ j k m. f j (omega arith) m) h,
)

-- The two loops.
pub shift_down-below : (n i : ℕ) (b : Buffer) (j : ℕ) → j < i → shift_down n i b j ≡ b j
unfolding shift_down
shift_down-below zero i b j h = refl
shift_down-below (suc n) i b j h =
    ground (arith, shift_down-below n (suc i) (store i (b (suc i)) b) j (omega arith))

pub shift_down-inside :
    (n i : ℕ) (b : Buffer) (j : ℕ) → i ≤ j → j < i + n → shift_down n i b j ≡ b (suc j)
unfolding shift_down
shift_down-inside zero i b j h k = absurd (omega arith)
shift_down-inside (suc n) i b j h k = elim (Bool-cases (i == j)) [
  | inl e ↦ ground (
    arith,
    shift_down-below n (suc i) (store i (b (suc i)) b) j (ground arith),
    ap b {x = suc i} {y = suc j} (ground arith),
  )
  | inr e ↦
      ground
        (arith, shift_down-inside n (suc i) (store i (b (suc i)) b) j (ground arith) (ground arith))
]

pub shift_up-above : (i c : ℕ) (b : Buffer) (j : ℕ) → c ≤ suc i → suc i < j → shift_up i c b j ≡ b j
unfolding shift_up
shift_up-above zero c b j h k = ground arith
shift_up-above (suc i) c b j h k = elim (Bool-cases (leb c (suc i))) [
  | inl e ↦
      ground (
        arith,
        shift_up-above i c (store (suc (suc i)) (b (suc i)) b) j (ground arith) (omega arith),
      )
  | inr e ↦ ground arith
]

pub shift_up-below : (i c : ℕ) (b : Buffer) (j : ℕ) → j ≤ c → shift_up i c b j ≡ b j
unfolding shift_up
shift_up-below zero c b j h = ground arith
shift_up-below (suc i) c b j h =
    ground (arith, shift_up-below i c (store (suc (suc i)) (b (suc i)) b) j h)

pub shift_up-inside : (i c : ℕ) (b : Buffer) (j : ℕ) → c ≤ j → j ≤ i → shift_up i c b (suc j) ≡ b j
unfolding shift_up
shift_up-inside zero c b j h k = ground (arith, ap b {x = 0} {y = j} (omega arith))
shift_up-inside (suc i) c b j h k = elim (Bool-cases (leb j i)) [
  | inl e ↦
      ground (arith, shift_up-inside i c (store (suc (suc i)) (b (suc i)) b) j h (ground arith))
  | inr e ↦ elim (Bool-cases (leb c i)) [
    | inl low ↦ ground (
      arith,
      shift_up-above i c (store (suc (suc i)) (b (suc i)) b) (suc j) (ground arith) (ground arith),
      ap b {x = suc i} {y = j} (ground arith),
    )
    | inr at ↦ ground (
      arith,
      shift_up-above i c (store (suc (suc i)) (b (suc i)) b) (suc j) (ground arith) (ground arith),
      ap b {x = suc i} {y = j} (ground arith),
    )
  ]
]

-- ===== src/Scheme/Offers.antt =====
-- What becomes of the partitions of a table, one after the other.
use loom_bootloader.Base.{
  ℕ, zero, suc, ◌+◌, ◌*◌, ◌^◌, ◌≡◌, List, [], ◌∷◌, Bool, true, false, arith, refl, ap, ◌∙◌,
}
use loom_bootloader.Base.Int.{ℤ, pos, negsuc}
use loom_bootloader.Error.{LoomError}
use loom_bootloader.Scheme.{End, Init, Hook, hooked, load_le}

-- A table, as far as it is read: the partitions in order, and whether a bad entry follows the last.
pub record Table : Type 0 where
  pub parts : List (ℕ × ℕ)
  pub bad : Bool

abbrev pub more : ℕ → ℕ → Table → Table
more offset blocks t = record t { parts = (offset, blocks) ∷ t.parts }

-- The number that four or eight bytes store, the lowest first.
abbrev pub le4 : (ℕ → ℕ) → ℕ → ℕ
le4 b p = b p + 256 * b (p + 1) + 65536 * b (p + 2) + 16777216 * b (p + 3)

abbrev pub le8 : (ℕ → ℕ) → ℕ → ℕ
le8 b p = le4 b p + 2 ^ 32 * le4 b (p + 4)

-- The hook lets the run go on by 0 alone; another value ends it.
abbrev pub answered {ℓ} : {S : Type ℓ} → ℤ × S → (S → End S) → End S
answered (pos zero, s) rest = rest s
answered (pos (suc n), s) rest = record { ret = pos (suc n); error = LoomError.hook; state = s }
answered (negsuc n, s) rest = record { ret = negsuc n; error = LoomError.hook; state = s }

pub hooked-answered {ℓ} :
    {S : Type ℓ} (r : ℤ × S) (rest : S → End S) → hooked r rest ≡ answered r rest
hooked-answered (pos zero, s) rest = refl
hooked-answered (pos (suc n), s) rest = refl
hooked-answered (negsuc n, s) rest = refl

-- A partition that cannot be made a device ends a strict run, and is passed over by another.
abbrev pub offer_one {ℓ} :
    {S : Type ℓ} → Bool → ℤ → LoomError × S → (S → End S) → (S → End S) → End S
offer_one strict ret (LoomError.none, s) call rest = call s
offer_one true ret (e, s) call rest = record { ret = ret; error = e; state = s }
offer_one false ret (e, s) call rest = rest s

abbrev pub at_end {ℓ} : {S : Type ℓ} → Bool → ℤ → S → End S
at_end true ret s = record { ret = ret; error = LoomError.bad_part_scheme; state = s }
at_end false ret s = record { ret = pos 0; error = LoomError.none; state = s }

-- The hook gets the partitions in order until it refuses one; a bad entry ends the run with an error,
-- and with `ret` if the hook has taken no partition, with 0 otherwise.
unfoldable pub offer_all {ℓ} :
    {S : Type ℓ} → Init S → Hook S → (strict : Bool) → ℤ → List (ℕ × ℕ) → (bad : Bool) → S → End S
offer_all init hook strict ret [] bad s = at_end bad ret s
offer_all init hook strict ret ((o, b) ∷ ps) bad s =
    offer_one strict ret (init o b s)
      (λ s1. answered (hook o b s1) (offer_all init hook strict (pos 0) ps bad))
      (offer_all init hook strict ret ps bad)

-- `load_le` reads the same numbers.
pub load_le-suc :
    (n p q : ℕ) (b : ℕ → ℕ) → p + 1 ≡ q → load_le (suc n) p b ≡ b p + 256 * load_le n q b
unfolding load_le
load_le-suc n p q b e = ap (λ x. b p + 256 * load_le n x b) e

load_le-zero : (p : ℕ) (b : ℕ → ℕ) → load_le 0 p b ≡ 0
unfolding load_le
load_le-zero p b = refl

pub load_le-two : (p : ℕ) (b : ℕ → ℕ) → load_le 2 p b ≡ b p + 256 * b (p + 1)
load_le-two p b = omega (
  arith,
  load_le-suc 1 p (p + 1) b refl,
  load_le-suc 0 (p + 1) (p + 2) b (omega arith),
  load_le-zero (p + 2) b,
)

-- Four bytes in front of others.
pub load_le-more :
    (n p : ℕ) (b : ℕ → ℕ)
    → load_le (suc (suc (suc (suc n)))) p b ≡ le4 b p + 2 ^ 32 * load_le n (p + 4) b
load_le-more n p b = omega (
  arith,
  load_le-suc (suc (suc (suc n))) p (p + 1) b refl,
  load_le-suc (suc (suc n)) (p + 1) (p + 2) b (omega arith),
  load_le-suc (suc n) (p + 2) (p + 3) b (omega arith),
  load_le-suc n (p + 3) (p + 4) b (omega arith),
)

pub load_le-four : (p : ℕ) (b : ℕ → ℕ) → load_le 4 p b ≡ le4 b p
load_le-four p b = omega (arith, load_le-more 0 p b, load_le-zero (p + 4) b)

pub load_le-eight : (p : ℕ) (b : ℕ → ℕ) → load_le 8 p b ≡ le8 b p
load_le-eight p b = load_le-more 4 p b ∙ ap (λ x. le4 b p + 2 ^ 32 * x) (load_le-four (p + 4) b)

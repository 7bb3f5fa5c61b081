-- ===== src/Fat/Probe/Powers.antt =====
-- A byte that shares no bit with its predecessor is a power of two.
use loom_bootloader.Base.{
  ℕ, zero, suc, ◌-◌, ◌≤◌, ◌<◌, ◌≡◌, Bool, true, false, ◌||◌, not, arith, refl, ◌==◌, has_flag,
  if◌then◌else◌, Bool-cases, inl, inr, leb, ap,
}

abbrev pub is_cluster_size : ℕ → Bool
is_cluster_size n =
    n == 1 || n == 2 || n == 4 || n == 8 || n == 16 || n == 32 || n == 64 || n == 128

-- The two tests agree on every byte but 0, checked one byte at a time.
agree : ℕ → Bool
agree n = n == 0 || (if has_flag n (n - 1) then not (is_cluster_size n) else is_cluster_size n)

agree_up_to : ℕ → Bool
agree_up_to zero = agree zero
agree_up_to (suc n) = if agree_up_to n then agree (suc n) else false

agree_at : (n k : ℕ) → k ≤ n → agree_up_to n ≡ true → agree k ≡ true
unfolding agree_up_to
agree_at zero zero h e = e
agree_at zero (suc k) h e = absurd (omega arith)
agree_at (suc n) k h e = elim (Bool-cases (leb k n)) [
  | inl le ↦ ground (arith, agree_at n k (ground arith))
  | inr lt ↦ ground (arith, ap agree {x = k} {y = suc n} (ground arith))
]

bytes_agree : agree_up_to 255 ≡ true
unfolding agree_up_to agree
bytes_agree = refl

pub power_iff : (n : ℕ) → n < 256 → 0 < n → has_flag n (n - 1) ≡ false → is_cluster_size n ≡ true
unfolding agree
power_iff n h pos e = ground (arith, agree_at 255 n (omega arith) bytes_agree)

-- ===== src/Fat/Name/Print.antt =====
-- What `fatAllocSFN` prints: the base, with 0xE5 for a first byte 0x05, and a dot and the
-- extension if there is one.
use loom_bootloader.Base.{
  ℕ, zero, suc, ◌+◌, ◌≤◌, ◌<◌, ◌≡◌, ◌≢◌, ◌==◌, if◌then◌else◌, arith, refl, ap,
}
use loom_bootloader.Memory.{store}
use loom_bootloader.Fat.Name.{
  Name, base_size, ext_size, base_char, sfn_base_size, sfn_ext_size, copy_between, sfn_base,
  alloc_sfn,
}

pub copy_between-below :
    (p : ℕ) (src : Name) (s n : ℕ) (b : Name) (j : ℕ) → j < p → copy_between p src s n b j ≡ b j
unfolding copy_between
copy_between-below p src s zero b j h = refl
copy_between-below p src s (suc n) b j h =
    ground (arith, copy_between-below (suc p) src (suc s) n (store p (src s) b) j (omega arith))

pub copy_between-inside :
    (p : ℕ) (src : Name) (s n : ℕ) (b : Name) (k : ℕ)
    → k < n
    → copy_between p src s n b (p + k) ≡ src (s + k)
unfolding copy_between
copy_between-inside p src s zero b k h = absurd (omega arith)
copy_between-inside p src s (suc n) b zero h = ground (
  arith,
  copy_between-below (suc p) src (suc s) n (store p (src s) b) (p + 0) (omega arith),
  ap src {x = s} {y = s + 0} (omega arith),
)
copy_between-inside p src s (suc n) b (suc k) h = cc (
  copy_between-inside (suc p) src (suc s) n (store p (src s) b) k (omega arith),
  ap (copy_between (suc p) src (suc s) n (store p (src s) b)) {x = p + suc k} {y = suc p + k}
      (omega arith),
  ap src {x = suc s + k} {y = s + suc k} (omega arith),
)

pub sfn_base_size_lem : (n : ℕ) (d : Name) → d 0 ≢ 0x20 → sfn_base_size (suc n) d ≡ base_size n d
unfolding sfn_base_size base_size
sfn_base_size_lem zero d h = ground arith
sfn_base_size_lem (suc n) d h = ground (arith, sfn_base_size_lem n d h)

pub sfn_ext_size_lem : (d : Name) → sfn_ext_size d ≡ ext_size 3 d
unfolding sfn_ext_size ext_size
sfn_ext_size_lem d = ground arith

pub base_size-bounds : (n : ℕ) (d : Name) → (1 ≤ base_size n d) × (base_size n d ≤ suc n)
unfolding base_size
base_size-bounds zero d = omega arith
base_size-bounds (suc n) d = ground (arith, base_size-bounds n d)

pub ext_size-bound : (n : ℕ) (d : Name) → ext_size n d ≤ n
unfolding ext_size
ext_size-bound zero d = omega arith
ext_size-bound (suc n) d = ground (arith, ext_size-bound n d)

pub sfn_base_lem : (n : ℕ) (d : Name) (i : ℕ) → i < n → sfn_base n d i ≡ base_char d i
unfolding sfn_base
sfn_base_lem n d i h = ground (
  arith,
  copy_between-inside 0 d 0 n (λ k. 0) 0 (omega arith),
  copy_between-inside 0 d 0 n (λ k. 0) i h,
  ap d {x = 0 + i} {y = i} (omega arith),
  ap (copy_between 0 d 0 n (λ k. 0)) {x = 0 + i} {y = i} (omega arith),
)

-- The text printed: its base, the dot, its extension, its size.
pub alloc_sfn-base :
    (d : Name) (i : ℕ) → d 0 ≢ 0x20 → i < base_size 7 d → (alloc_sfn d).buf i ≡ base_char d i
unfolding alloc_sfn
alloc_sfn-base d i h k =
    rw (sfn_base_size_lem 7 d h, sfn_ext_size_lem d)
      (let n = base_size 7 d in
        ground (
          arith,
          sfn_base_lem n d i k,
          copy_between-below (n + 1) d 8 (ext_size 3 d) (store n 0x2e (sfn_base n d)) i
              (omega arith),
        ))

pub alloc_sfn-dot :
    (d : Name) → d 0 ≢ 0x20 → ext_size 3 d ≢ 0 → (alloc_sfn d).buf (base_size 7 d) ≡ 0x2e
unfolding alloc_sfn
alloc_sfn-dot d h k =
    rw (sfn_base_size_lem 7 d h, sfn_ext_size_lem d)
      (let n = base_size 7 d in
        ground (
          arith,
          copy_between-below (n + 1) d 8 (ext_size 3 d) (store n 0x2e (sfn_base n d)) n
              (omega arith),
        ))

pub alloc_sfn-ext :
    (d : Name) (i : ℕ)
    → d 0 ≢ 0x20
    → i < ext_size 3 d
    → (alloc_sfn d).buf (base_size 7 d + 1 + i) ≡ d (8 + i)
unfolding alloc_sfn
alloc_sfn-ext d i h k =
    rw (sfn_base_size_lem 7 d h, sfn_ext_size_lem d)
      (let n = base_size 7 d in
        ground
          (arith, copy_between-inside (n + 1) d 8 (ext_size 3 d) (store n 0x2e (sfn_base n d)) i k))

pub alloc_sfn-size :
    (d : Name)
    → d 0 ≢ 0x20
    → (alloc_sfn d).size
      ≡ (if ext_size 3 d == 0 then base_size 7 d + 1 else base_size 7 d + 1 + ext_size 3 d + 1)
unfolding alloc_sfn
alloc_sfn-size d h = ground (arith, sfn_base_size_lem 7 d h, sfn_ext_size_lem d)

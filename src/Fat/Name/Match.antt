-- ===== src/Fat/Name/Match.antt =====
-- The comparison of names against the name that is printed.
use loom_bootloader.Base.{
  ℕ, zero, suc, ◌+◌, ◌-◌, ◌≤◌, ◌<◌, ◌≡◌, ◌≢◌, true, false, ◌∙◌, ◌&&◌, not, ◌==◌, ltb, arith, refl,
  ap, inl, inr, Bool-cases, ◌⊎◌, sym,
}
use loom_bootloader.Fat.Name.{
  Name, char_conv, base_size, ext_size, base_char, same_chars, ext_cmp, filename_cmp, alloc_sfn,
}
use loom_bootloader.Fat.Name.Print.{
  base_size-bounds, ext_size-bound, alloc_sfn-base, alloc_sfn-dot, alloc_sfn-ext, alloc_sfn-size,
}

-- An entry in use whose name is not blank.
pub record Named (d : Name) : Type 0 where
  pub not_end : d 0 ≢ 0
  pub not_free : d 0 ≢ 0xe5
  pub not_blank : d 0 ≢ 0x20

same_chars-true :
    (n i j : ℕ) (f d : Name)
    → ((k : ℕ) → k < n → f (i + k) ≡ d (j + k))
    → same_chars n i j f d ≡ true
unfolding same_chars
same_chars-true zero i j f d h = refl
same_chars-true (suc n) i j f d h = ground (
  arith,
  same_chars-true n (suc i) (suc j) f d (λ k lt. cc (
    h (suc k) (omega arith),
    ap f {x = suc i + k} {y = i + suc k} (omega arith),
    ap d {x = suc j + k} {y = j + suc k} (omega arith),
  )),
  h 0 (omega arith),
  ap f {x = i + 0} {y = i} (omega arith),
  ap d {x = j + 0} {y = j} (omega arith),
)

pub same_chars→same :
    (n i j : ℕ) (f d : Name)
    → same_chars n i j f d ≡ true
    → (k : ℕ) → k < n
    → char_conv (f (i + k)) ≡ char_conv (d (j + k))
unfolding same_chars
same_chars→same zero i j f d h k lt = absurd (omega arith)
same_chars→same (suc n) i j f d h zero lt =
    ground (arith, ap f {x = i + 0} {y = i} (omega arith), ap d {x = j + 0} {y = j} (omega arith))
same_chars→same (suc n) i j f d h (suc k) lt =
    let rest = same_chars→same n (suc i) (suc j) f d (ground arith) k (omega arith) in
    cc (
      rest,
      ap f {x = suc i + k} {y = i + suc k} (omega arith),
      ap d {x = suc j + k} {y = j + suc k} (omega arith),
    )

sfn-base_same :
    (d : Name) → Named d → same_chars (base_size 7 d) 0 0 (alloc_sfn d).buf (base_char d) ≡ true
sfn-base_same d h = same_chars-true (base_size 7 d) 0 0 (alloc_sfn d).buf (base_char d) (λ k lt.
    cc (
      alloc_sfn-base d k h.not_blank lt,
      ap (alloc_sfn d).buf {x = 0 + k} {y = k} (omega arith),
      ap (base_char d) {x = 0 + k} {y = k} (omega arith),
    ))

sfn-ext_same :
    (d : Name)
    → Named d
    → ext_cmp ((alloc_sfn d).size - 1) (base_size 7 d) (ext_size 3 d) (alloc_sfn d).buf d ≡ true
unfolding ext_cmp
sfn-ext_same d h = elim (Bool-cases (ext_size 3 d == 0)) [
  | inl e ↦ ground (arith, alloc_sfn-size d h.not_blank)
  | inr e ↦ ground (
    arith,
    alloc_sfn-size d h.not_blank,
    alloc_sfn-dot d h.not_blank (ground arith),
    same_chars-true (ext_size 3 d) (base_size 7 d + 1) 8 (alloc_sfn d).buf d
        (λ k lt. alloc_sfn-ext d k h.not_blank lt),
  )
]

-- The name that fatAllocSFN prints for an entry in use is one that fatFilenameCmp finds it by.
pub filename_cmp-alloc_sfn :
    (d : Name) → Named d → filename_cmp ((alloc_sfn d).size - 1) (alloc_sfn d).buf d ≡ true
unfolding filename_cmp
filename_cmp-alloc_sfn d h = ground (
  arith,
  h.not_end,
  h.not_free,
  h.not_blank,
  base_size-bounds 7 d,
  ext_size-bound 3 d,
  alloc_sfn-size d h.not_blank,
  sfn-base_same d h,
  sfn-ext_same d h,
)

filename_cmp-parts :
    (size : ℕ) (f d : Name)
    → filename_cmp size f d ≡ true
    → Named d
      × (base_size 7 d ≤ size)
      × (same_chars (base_size 7 d) 0 0 f (base_char d) ≡ true)
      × (ext_cmp size (base_size 7 d) (ext_size 3 d) f d ≡ true)
unfolding filename_cmp
filename_cmp-parts size f d h = (
  record { not_end = ground arith; not_free = ground arith; not_blank = ground arith },
  ground arith,
  ground arith,
  ground arith,
)

ext_cmp-none :
    (size b : ℕ) (f d : Name)
    → b ≤ size
    → ext_cmp size b 0 f d ≡ true
    → (size ≡ b) ⊎ ((size ≡ b + 1) × (f b ≡ 0x2e))
unfolding ext_cmp
ext_cmp-none size b f d h e = elim (Bool-cases (not (size - b == 0) && f b == 0x2e)) [
  | inl dot ↦ inr (ground arith)
  | inr plain ↦ inl (ground arith)
]

ext_cmp-some :
    (size b e : ℕ) (f d : Name)
    → b ≤ size
    → e ≢ 0
    → ext_cmp size b e f d ≡ true
    → (size ≡ b + 1 + e) × (f b ≡ 0x2e) × (same_chars e (b + 1) 8 f d ≡ true)
unfolding ext_cmp
ext_cmp-some size b e f d h k t = ground arith

-- The same byte, or the same letter in another case.
abbrev pub Alike : (x y : ℕ) → Type 0
Alike x y =
    (x ≡ y) ⊎ (((97 ≤ x) × (x ≤ 122) × (x ≡ y + 32)) ⊎ ((97 ≤ y) × (y ≤ 122) × (y ≡ x + 32)))

char_conv-Alike : (x y : ℕ) → char_conv x ≡ char_conv y → Alike x y
char_conv-Alike x y e = ground arith

-- `size` characters of `f` spell the printed name of the entry, letters of either case; a name
-- without an extension may have a dot behind it.
pub record Spells (size : ℕ) (f d : Name) : Type 0 where
  pub length :
      (size + 1 ≡ (alloc_sfn d).size)
      ⊎ ((size ≡ (alloc_sfn d).size)
          × (d 8 ≡ 0x20)
          × (d 9 ≡ 0x20)
          × (d 10 ≡ 0x20)
          × (f (size - 1) ≡ 0x2e))
  pub chars : (k : ℕ) → k + 1 < (alloc_sfn d).size → Alike (f k) ((alloc_sfn d).buf k)

base_Spells :
    (f d : Name)
    → Named d
    → same_chars (base_size 7 d) 0 0 f (base_char d) ≡ true
    → (k : ℕ) → k < base_size 7 d
    → char_conv (f k) ≡ char_conv ((alloc_sfn d).buf k)
base_Spells f d n h k lt = cc (
  same_chars→same (base_size 7 d) 0 0 f (base_char d) h k lt,
  alloc_sfn-base d k n.not_blank lt,
  ap f {x = 0 + k} {y = k} (omega arith),
  ap (base_char d) {x = 0 + k} {y = k} (omega arith),
)

ext_Spells :
    (f d : Name)
    → Named d
    → same_chars (ext_size 3 d) (base_size 7 d + 1) 8 f d ≡ true
    → (k : ℕ) → base_size 7 d < k
    → k < base_size 7 d + 1 + ext_size 3 d
    → char_conv (f k) ≡ char_conv ((alloc_sfn d).buf k)
ext_Spells f d n h k gt lt =
    let i = k - (base_size 7 d + 1) in
    cc (
      same_chars→same (ext_size 3 d) (base_size 7 d + 1) 8 f d h i (omega arith),
      alloc_sfn-ext d i n.not_blank (omega arith),
      ap f {x = base_size 7 d + 1 + i} {y = k} (omega arith),
      ap (alloc_sfn d).buf {x = base_size 7 d + 1 + i} {y = k} (omega arith),
    )

with_ext :
    (size : ℕ) (f d : Name)
    → Named d
    → ext_size 3 d ≢ 0
    → (size ≡ base_size 7 d + 1 + ext_size 3 d)
    → f (base_size 7 d) ≡ 0x2e
    → same_chars (base_size 7 d) 0 0 f (base_char d) ≡ true
    → same_chars (ext_size 3 d) (base_size 7 d + 1) 8 f d ≡ true
    → Spells size f d
with_ext size f d n e q dot base ext =
    let b = base_size 7 d in
    let total = alloc_sfn-size d n.not_blank in
    record {
      length = inl (ground arith);
      chars = λ k lt. char_conv-Alike (f k) ((alloc_sfn d).buf k) (elim (Bool-cases (ltb k b)) [
        | inl low ↦ base_Spells f d n base k (ground arith)
        | inr high ↦ elim (Bool-cases (k == b)) [
          | inl at ↦ cc (
            ap f {x = k} {y = b} (ground arith),
            ap (alloc_sfn d).buf {x = k} {y = b} (ground arith),
            dot,
            alloc_sfn-dot d n.not_blank e,
          )
          | inr above ↦ ext_Spells f d n ext k (ground arith) (ground arith)
        ]
      ]);
    }

no_ext-blank : (d : Name) → ext_size 3 d ≡ 0 → (d 8 ≡ 0x20) × (d 9 ≡ 0x20) × (d 10 ≡ 0x20)
unfolding ext_size
no_ext-blank d e = ground arith

without_ext :
    (size : ℕ) (f d : Name)
    → Named d
    → ext_size 3 d ≡ 0
    → (size ≡ base_size 7 d) ⊎ ((size ≡ base_size 7 d + 1) × (f (base_size 7 d) ≡ 0x2e))
    → same_chars (base_size 7 d) 0 0 f (base_char d) ≡ true
    → Spells size f d
without_ext size f d n e q base =
    let total = alloc_sfn-size d n.not_blank in
    record {
      length = elim q [
        | inl same ↦ inl (ground arith)
        | inr (more, dot) ↦
            let blank = no_ext-blank d e in
            inr (
              ground arith,
              blank.0,
              blank.1,
              blank.2,
              cc (ap f {x = size - 1} {y = base_size 7 d} (omega arith), dot),
            )
      ];
      chars = λ k lt.
          char_conv-Alike (f k) ((alloc_sfn d).buf k) (base_Spells f d n base k (ground arith));
    }

no_ext : (d : Name) → (ext_size 3 d == 0) ≡ true → ext_size 3 d ≡ 0
no_ext d h = ground arith

has_ext : (d : Name) → (ext_size 3 d == 0) ≡ false → ext_size 3 d ≢ 0
has_ext d h = ground arith

-- fatFilenameCmp finds an entry by a name only if the entry is in use and the name spells what
-- fatAllocSFN prints for it, letters of either case; where there is no extension, a dot may follow.
pub filename_cmp-Spells :
    (size : ℕ) (f d : Name) → filename_cmp size f d ≡ true → Named d × Spells size f d
filename_cmp-Spells size f d h =
    let (n, le, base, ext) = filename_cmp-parts size f d h in
    (
      n,
      elim (Bool-cases (ext_size 3 d == 0)) [
        | inl none ↦
            let e = no_ext d none in
            without_ext size f d n e
              (ext_cmp-none size (base_size 7 d) f d le
                (ap (λ x. ext_cmp size (base_size 7 d) x f d) (sym e) ∙ ext))
              base
        | inr some ↦
            let e = has_ext d some in
            let (q, dot, chars) = ext_cmp-some size (base_size 7 d) (ext_size 3 d) f d le e ext in
            with_ext size f d n e q dot base chars
      ],
    )

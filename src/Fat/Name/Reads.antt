-- ===== src/Fat/Name/Reads.antt =====
-- The comparison with a name reads the name's characters alone.
use loom_bootloader.Base.{
  ℕ, zero, suc, ◌+◌, ◌-◌, ◌≤◌, ◌<◌, ◌≡◌, true, false, not, ◌||◌, ◌==◌, ltb, if◌then◌else◌, arith,
  refl, ap, ap₂, ◌∙◌, Bool-cases, inl, inr,
}
use loom_bootloader.Fat.Name.{
  Name, char_conv, same_chars, ext_cmp, filename_cmp, base_size, base_char, ext_size,
}

same_chars-cong :
    (n i j m : ℕ) (f g d : Name)
    → ((x : ℕ) → x < m → f x ≡ g x)
    → i + n ≤ m
    → same_chars n i j f d ≡ same_chars n i j g d
unfolding same_chars
same_chars-cong zero i j m f g d h le = refl
same_chars-cong (suc n) i j m f g d h le =
    let rest = same_chars-cong n (suc i) (suc j) m f g d h (omega arith) in
    ap₂ (λ x r. if char_conv x == char_conv (d j) then r else false) (h i (omega arith)) rest

ext_cmp-cong :
    (m b e : ℕ) (f g d : Name)
    → ((x : ℕ) → x < m → f x ≡ g x)
    → b ≤ m
    → ext_cmp m b e f d ≡ ext_cmp m b e g d
unfolding ext_cmp
ext_cmp-cong m b e f g d h le = elim (Bool-cases (m - b == 0)) [
  | inl over ↦ rw over refl
  | inr more ↦
      let same : f b ≡ g b = h b (ground arith) in
      elim (Bool-cases (g b == 0x2e)) [
        | inr no_dot ↦ rw (more, ap (λ x. x == 0x2e) same ∙ no_dot, no_dot) refl
        | inl dot ↦
            rw (more, ap (λ x. x == 0x2e) same ∙ dot, dot)
              elim (Bool-cases (e == m - (b + 1))) [
                | inr other ↦ rw other refl
                | inl all ↦
                    ap
                      (λ s.
                        if e == 0
                        then m - (b + 1) == 0
                        else if not true || not (e == m - (b + 1))
                        then false
                        else s)
                      (same_chars-cong e (b + 1) 8 m f g d h (ground arith))
              ]
      ]
]

pub filename_cmp-cong :
    (m : ℕ) (f g d : Name) → ((x : ℕ) → x < m → f x ≡ g x) → filename_cmp m f d ≡ filename_cmp m g d
unfolding filename_cmp
filename_cmp-cong m f g d h = elim (Bool-cases (ltb m (base_size 7 d))) [
  | inl short ↦ rw short refl
  | inr enough ↦
      ap₂
        (λ s x.
          if m == 0 || ltb 12 m || d 0 == 0 || d 0 == 0xe5 || d 0 == 0x20
          then false
          else if ltb m (base_size 7 d)
          then false
          else if s
          then x
          else false)
        (same_chars-cong (base_size 7 d) 0 0 m f g (base_char d) h (ground arith))
        (ext_cmp-cong m (base_size 7 d) (ext_size 3 d) f g d h (ground arith))
]

-- ===== src/Heap/Free.antt =====
-- The list of free chunks of an arena: doubly linked, from its `freelist` field on.
use loom_bootloader.Base.{
  ℕ, ◌+◌, ◌≤◌, ◌<◌, ◌≡◌, ◌≢◌, List, [], ◌∷◌, ◌++◌, ok, arith, refl, sym, ap, ◌∙◌, ◌⊎◌, ◌==◌, true,
  false,
}
use mathlib.Core.Path.{subst}
use loom_bootloader.Memory.{store}
use loom_bootloader.Heap.{
  Words, a_freelist, a_magic, f_prev, f_next, magic_of, set_magic, free_chunk_link,
}

abbrev pub Each : (ℕ → Type 0) → List ℕ → Type 0
Each P [] = Unit {0}
Each P (x ∷ xs) = P x × Each P xs

pub Each-map : (P Q : ℕ → Type 0) (xs : List ℕ) → ((x : ℕ) → P x → Q x) → Each P xs → Each Q xs
Each-map P Q [] f h = tt
Each-map P Q (x ∷ xs) f h = (f x h.0, Each-map P Q xs f h.1)

pub Each-append : (P : ℕ → Type 0) (xs ys : List ℕ) → Each P xs → Each P ys → Each P (xs ++ ys)
Each-append P [] ys h k = k
Each-append P (x ∷ xs) ys h k = (h.0, Each-append P xs ys h.1 k)

pub Each-left : (P : ℕ → Type 0) (xs ys : List ℕ) → Each P (xs ++ ys) → Each P xs
Each-left P [] ys h = tt
Each-left P (x ∷ xs) ys h = (h.0, Each-left P xs ys h.1)

pub Each-right : (P : ℕ → Type 0) (xs ys : List ℕ) → Each P (xs ++ ys) → Each P ys
Each-right P [] ys h = h
Each-right P (x ∷ xs) ys h = Each-right P xs ys h.1

-- Two chunks do not overlap in their first 16 bytes.
abbrev pub Apart : ℕ → ℕ → Type 0
Apart x y = (x + 16 ≤ y) ⊎ (y + 16 ≤ x)

abbrev pub Spaced : List ℕ → Type 0
Spaced [] = Unit {0}
Spaced (x ∷ xs) = Each (Apart x) xs × Spaced xs

-- The list from `p` on, behind `prev`.
unfoldable pub FreeList : Words → (prev p : ℕ) → List ℕ → Type 0
FreeList w prev p [] = p ≡ 0
FreeList w prev p (x ∷ xs) =
    (p ≡ x) × (0 < x) × (w (f_prev x) ≡ prev) × FreeList w x (w (f_next x)) xs

-- A cell that is no link of these chunks.
abbrev pub NoLink : ℕ → ℕ → Type 0
NoLink q x = (q ≢ x + 8) × (q ≢ x + 12)

pub FreeList-frame :
    (w w' : Words) (prev p : ℕ) (xs : List ℕ)
    → Each (λ x. (w' (f_prev x) ≡ w (f_prev x)) × (w' (f_next x) ≡ w (f_next x))) xs
    → FreeList w prev p xs
    → FreeList w' prev p xs
unfolding FreeList
FreeList-frame w w' prev p [] same h = h
FreeList-frame w w' prev p (x ∷ xs) same (e, pos, k, h) = (
  e,
  pos,
  same.0.0 ∙ k,
  FreeList-frame w w' x (w' (f_next x)) xs same.1 (subst (λ q. FreeList w x q xs) (sym same.0.1) h),
)

-- The links of an arena: its list of free chunks, behind its header, and the checksum.
pub record Links (w : Words) (a : ℕ) (xs : List ℕ) : Type 0 where
  pub list : FreeList w 0 (w (a_freelist a)) xs
  pub spaced : Spaced xs
  pub behind : Each (λ x. a + 16 ≤ x) xs
  pub magic : magic_of w a ≡ w (a_magic a)

-- What an operation on the list leaves alone: every cell but the head's, the checksum's and the links'.
unfoldable pub Kept : Words → Words → (a : ℕ) → List ℕ → Type 0
Kept w w' a xs = (q : ℕ) → q ≢ a_freelist a → q ≢ a_magic a → Each (NoLink q) xs → w' q ≡ w q

pub set_magic-magic : (w : Words) (a : ℕ) → magic_of (set_magic a w) a ≡ set_magic a w (a_magic a)
set_magic-magic w a = ground arith

-- The links of chunks away from `u` and `v`, in a store that changed at those and at the head.
same_links :
    (w w' : Words) (a u v : ℕ) (xs : List ℕ)
    → ((q : ℕ) → q ≢ a_freelist a → q ≢ a_magic a → NoLink q u → NoLink q v → w' q ≡ w q)
    → Each (Apart u) xs
    → Each (Apart v) xs
    → Each (λ x. a + 16 ≤ x) xs
    → Each (λ x. (w' (f_prev x) ≡ w (f_prev x)) × (w' (f_next x) ≡ w (f_next x))) xs
same_links w w' a u v [] same h k l = tt
same_links w w' a u v (x ∷ xs) same h k l =
    let hu = h.0 in
    let kv = k.0 in
    let lo = l.0 in
    (
      (
        same (x + 8) (omega arith) (omega arith) (omega arith, omega arith)
            (omega arith, omega arith),
        same (x + 12) (omega arith) (omega arith) (omega arith, omega arith)
            (omega arith, omega arith),
      ),
      same_links w w' a u v xs same h.1 k.1 l.1,
    )

pub free_chunk_link-Links :
    (w : Words) (a f : ℕ) (xs : List ℕ)
    → Links w a xs
    → a + 16 ≤ f
    → Each (Apart f) xs
    → (w' : Words) × ((free_chunk_link a f w ≡ ok w') × Links w' a (f ∷ xs) × Kept w w' a (f ∷ xs))
unfolding free_chunk_link FreeList Kept
free_chunk_link-Links w a f [] h lo far =
    let w1 : Words = store (f_next f) (w (a_freelist a)) (store (f_prev f) 0 w) in
    let w' : Words = set_magic a (store (a_freelist a) f w1) in
    let empty : (w (a_freelist a) == 0) ≡ true = ground (arith, h.list) in
    (
      w',
      (
        rw empty refl,
        record {
          list = (ground arith, omega arith, ground arith, ground (arith, h.list));
          spaced = (tt, tt);
          behind = (lo, tt);
          magic = set_magic-magic (store (a_freelist a) f w1) a;
        },
        λ q n1 n2 l. let n3 = l.0 in ground arith,
      ),
    )
free_chunk_link-Links w a f (x ∷ xs) h lo far =
    let (head, pos, before, rest) = h.list in
    let fx = far.0 in
    let xlo = h.behind.0 in
    let w1 : Words = store (f_next f) (w (a_freelist a)) (store (f_prev f) 0 w) in
    let w2 : Words = store (f_prev (w (a_freelist a))) f w1 in
    let w' : Words = set_magic a (store (a_freelist a) f w2) in
    let some_head : (w (a_freelist a) == 0) ≡ false = ground arith in
    let first : (w1 (f_prev (w (a_freelist a))) == 0) ≡ true =
      ground (arith, ap w {x = f_prev (w (a_freelist a))} {y = f_prev x} (omega arith)) in
    let same : (q : ℕ) → q ≢ a_freelist a → q ≢ a_magic a → NoLink q f → NoLink q x → w' q ≡ w q =
      λ q n1 n2 n3 n4. ground arith in
    let keep_next : w' (f_next x) ≡ w (f_next x) = ground arith in
    (
      w',
      (
        rw (some_head, first) refl,
        record {
          list = (
            ground arith,
            omega arith,
            ground arith,
            (
              ground arith,
              pos,
              ground arith,
              FreeList-frame w w' x (w' (f_next x)) xs
                  (same_links w w' a f x xs same far.1 h.spaced.0 h.behind.1)
                  (subst (λ q. FreeList w x q xs) (sym keep_next) rest),
            ),
          );
          spaced = (far, h.spaced);
          behind = (lo, h.behind);
          magic = set_magic-magic (store (a_freelist a) f w2) a;
        },
        λ q n1 n2 l. same q n1 n2 l.0 l.1.0,
      ),
    )

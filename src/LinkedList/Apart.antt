-- ===== src/LinkedList/Apart.antt =====
-- Lists of nodes that share none.
use loom_bootloader.Base.{ℕ, List, [], ◌∷◌, ◌++◌, sym}
use loom_bootloader.LinkedList.Chain.{
  Outside, Outside-left, Outside-right, Outside-append, Distinct, last,
}

abbrev pub Apart : List ℕ → List ℕ → Type 0
Apart [] zs = Unit {0}
Apart (x ∷ xs) zs = Outside x zs × Apart xs zs

Apart-nil : (xs : List ℕ) → Apart xs []
Apart-nil [] = tt
Apart-nil (x ∷ xs) = (tt, Apart-nil xs)

pub Apart-cons : (z : ℕ) (xs zs : List ℕ) → Outside z xs → Apart xs zs → Apart xs (z ∷ zs)
Apart-cons z [] zs h a = tt
Apart-cons z (x ∷ xs) zs h a = ((λ e. h.0 (sym e), a.0), Apart-cons z xs zs h.1 a.1)

pub Apart-symm : (xs zs : List ℕ) → Apart xs zs → Apart zs xs
Apart-symm [] zs a = Apart-nil zs
Apart-symm (x ∷ xs) zs a = Apart-cons x zs xs a.0 (Apart-symm xs zs a.1)

pub Outside-last : (p : ℕ) (xs zs : List ℕ) → Apart (p ∷ xs) zs → Outside (last p xs) zs
Outside-last p [] zs a = a.0
Outside-last p (x ∷ xs) zs a = Outside-last x xs zs a.1

-- The two parts of a list without repetition.
pub Distinct-left : (xs zs : List ℕ) → Distinct (xs ++ zs) → Distinct xs
Distinct-left [] zs d = tt
Distinct-left (x ∷ xs) zs d = (Outside-left x xs zs d.0, Distinct-left xs zs d.1)

pub Distinct-right : (xs zs : List ℕ) → Distinct (xs ++ zs) → Distinct zs
Distinct-right [] zs d = d
Distinct-right (x ∷ xs) zs d = Distinct-right xs zs d.1

pub Distinct-Apart : (xs zs : List ℕ) → Distinct (xs ++ zs) → Apart xs zs
Distinct-Apart [] zs d = tt
Distinct-Apart (x ∷ xs) zs d = (Outside-right x xs zs d.0, Distinct-Apart xs zs d.1)

pub Distinct-append :
    (xs zs : List ℕ) → Distinct xs → Distinct zs → Apart xs zs → Distinct (xs ++ zs)
Distinct-append [] zs d e a = e
Distinct-append (x ∷ xs) zs d e a =
    (Outside-append x xs zs d.0 a.0, Distinct-append xs zs d.1 e a.1)

pub Apart-tail : (z : ℕ) (xs zs : List ℕ) → Apart xs (z ∷ zs) → Apart xs zs
Apart-tail z [] zs a = tt
Apart-tail z (x ∷ xs) zs a = (a.0.1, Apart-tail z xs zs a.1)

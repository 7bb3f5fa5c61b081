-- ===== src/BlockDev/Cache/Ring.antt =====
-- The ring of a cache's entries, from the most recently used one on, and how a use reorders it.
use loom_bootloader.Base.{ℕ, ◌≡◌, ◌≢◌, List, [], ◌∷◌, ◌++◌, refl, sym, ap, ◌⊎◌, inl, inr}
use mathlib.Core.Path.{subst}
use mathlib.Core.List.{append-nil}
use loom_bootloader.LinkedList.{Links, null, insert_before, unlink}
use loom_bootloader.LinkedList.Chain.{
  Outside, Distinct, IsList, Chain-split, Chain-join, last, Outside-left, Outside-right,
}
use loom_bootloader.LinkedList.Remove.{
  remaining-Distinct, remaining-Outside, node-Outside, unlink-Chain,
}
use loom_bootloader.LinkedList.Apart.{Distinct-left}
use loom_bootloader.LinkedList.Insert.{insert_before-Chain}

-- A property of every entry.
abbrev pub All : (ℕ → Type 0) → List ℕ → Type 0
All P [] = Unit {0}
All P (x ∷ xs) = P x × All P xs

pub All-append : (P : ℕ → Type 0) (xs ys : List ℕ) → All P xs → All P ys → All P (xs ++ ys)
All-append P [] ys h k = k
All-append P (x ∷ xs) ys h k = (h.0, All-append P xs ys h.1 k)

pub All-left : (P : ℕ → Type 0) (xs ys : List ℕ) → All P (xs ++ ys) → All P xs
All-left P [] ys h = tt
All-left P (x ∷ xs) ys h = (h.0, All-left P xs ys h.1)

pub All-right : (P : ℕ → Type 0) (xs ys : List ℕ) → All P (xs ++ ys) → All P ys
All-right P [] ys h = h
All-right P (x ∷ xs) ys h = All-right P xs ys h.1

pub All-map : (P Q : ℕ → Type 0) (xs : List ℕ) → ((x : ℕ) → P x → Q x) → All P xs → All Q xs
All-map P Q [] f h = tt
All-map P Q (x ∷ xs) f h = (f x h.0, All-map P Q xs f h.1)

-- The entries other than `e`.
pub All-outside :
    (P Q : ℕ → Type 0) (e : ℕ) (xs : List ℕ)
    → ((x : ℕ) → x ≢ e → P x → Q x)
    → Outside e xs
    → All P xs
    → All Q xs
All-outside P Q e [] f o h = tt
All-outside P Q e (x ∷ xs) f o h = (f x (λ q. o.0 (sym q)) h.0, All-outside P Q e xs f o.1 h.1)

-- A list that is not empty has a last node.
pub snoc_view : (xs : List ℕ) → (xs ≡ []) ⊎ ((ys : List ℕ) × ((e : ℕ) × (xs ≡ ys ++ e ∷ [])))
snoc_view [] = inl refl
snoc_view (x ∷ xs) = elim (snoc_view xs) [
  | inl q ↦ inr ([], (x, ap (λ l. x ∷ l) q))
  | inr (ys, (e, q)) ↦ inr (x ∷ ys, (e, ap (λ l. x ∷ l) q))
]

pub last-snoc : (p e : ℕ) (ys : List ℕ) → last p (ys ++ e ∷ []) ≡ e
last-snoc p e [] = refl
last-snoc p e (y ∷ ys) = last-snoc y e ys

last-Outside :
    (m : Links) (h e : ℕ) (ys : List ℕ) → Distinct (h ∷ ys ++ e ∷ []) → Outside e (h ∷ ys)
last-Outside m h e ys d = subst (Outside e) (append-nil (h ∷ ys)) (node-Outside m h e (h ∷ ys) [] d)

-- The ring seen from its last entry.
pub rotate : (m : Links) (h e : ℕ) (ys : List ℕ) → IsList m h (ys ++ e ∷ []) → IsList m e (h ∷ ys)
rotate m h e ys v =
    let (a, b) = Chain-split m h h e ys [] v.chain in
    record {
      chain = Chain-join m e e h [] ys b a;
      distinct = (last-Outside m h e ys v.distinct, Distinct-left (h ∷ ys) (e ∷ []) v.distinct);
      allocated = (
        (Outside-right null (h ∷ ys) (e ∷ []) v.allocated).0,
        Outside-left null (h ∷ ys) (e ∷ []) v.allocated,
      );
    }

-- Taking an entry out of the ring and putting it before the others.
pub touched :
    (m : Links) (h e : ℕ) (ys zs : List ℕ)
    → IsList m h (ys ++ e ∷ zs)
    → IsList (insert_before h e (unlink e m)) e (h ∷ ys ++ zs)
touched m h e ys zs v =
    let m1 = unlink e m in
    let c1 = unlink-Chain m h e ys zs v.distinct v.chain in
    let d1 = remaining-Distinct m h e (h ∷ ys) zs v.distinct in
    let out = node-Outside m h e (h ∷ ys) zs v.distinct in
    let c2 = insert_before-Chain m1 h e (ys ++ zs) d1 out c1 in
    let (a, b) = Chain-split (insert_before h e m1) h h e (ys ++ zs) [] c2 in
    record {
      chain = Chain-join (insert_before h e m1) e e h [] (ys ++ zs) b a;
      distinct = (out, d1);
      allocated = (
        (Outside-right null (h ∷ ys) (e ∷ zs) v.allocated).0,
        remaining-Outside m h e null (h ∷ ys) zs v.allocated,
      );
    }

-- Putting a new entry before the others.
pub inserted :
    (m : Links) (h e : ℕ) (xs : List ℕ)
    → IsList m h xs
    → Outside e (h ∷ xs)
    → e ≢ null
    → IsList (insert_before h e m) e (h ∷ xs)
inserted m h e xs v out ne =
    let c = insert_before-Chain m h e xs v.distinct out v.chain in
    let (a, b) = Chain-split (insert_before h e m) h h e xs [] c in
    record {
      chain = Chain-join (insert_before h e m) e e h [] xs b a;
      distinct = (out, v.distinct);
      allocated = ((λ q. ne (sym q)), v.allocated);
    }

pub Outside-of_All :
    (P : ℕ → Type 0) (e : ℕ) (xs : List ℕ) → ((x : ℕ) → P x → e ≢ x) → All P xs → Outside e xs
Outside-of_All P e [] f h = tt
Outside-of_All P e (x ∷ xs) f h = (f x h.0, Outside-of_All P e xs f h.1)

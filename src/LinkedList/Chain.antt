-- ===== src/LinkedList/Chain.antt =====
-- What a circular list stands for: the nodes from one node to the next, in order.
use loom_bootloader.Base.{ℕ, ◌≡◌, ◌≢◌, List, [], ◌∷◌, ◌++◌, arith, sym, ◌∙◌, false}
use loom_bootloader.LinkedList.{Links, null, is_unlinked}

-- `a` is none of `xs`.
abbrev pub Outside : ℕ → List ℕ → Type 0
Outside a [] = Unit {0}
Outside a (x ∷ xs) = (a ≢ x) × Outside a xs

abbrev pub Distinct : List ℕ → Type 0
Distinct [] = Unit {0}
Distinct (x ∷ xs) = Outside x xs × Distinct xs

-- The `next` fields lead from `p` through `xs` to `q`, and the `prev` fields back.
abbrev pub Chain : Links → ℕ → List ℕ → ℕ → Type 0
Chain m p [] q = (m.next p ≡ q) × (m.prev q ≡ p)
Chain m p (x ∷ xs) q = (m.next p ≡ x) × (m.prev x ≡ p) × Chain m x xs q

-- A list with its head: a chain from the head back to it, through other nodes, each once.
pub record IsList (m : Links) (head : ℕ) (xs : List ℕ) : Type 0 where
  pub chain : Chain m head xs head
  pub distinct : Distinct (head ∷ xs)
  pub allocated : Outside null (head ∷ xs)

pub Outside-append : (a : ℕ) (xs ys : List ℕ) → Outside a xs → Outside a ys → Outside a (xs ++ ys)
Outside-append a [] ys h k = k
Outside-append a (x ∷ xs) ys h k = (h.0, Outside-append a xs ys h.1 k)

pub Outside-left : (a : ℕ) (xs ys : List ℕ) → Outside a (xs ++ ys) → Outside a xs
Outside-left a [] ys h = tt
Outside-left a (x ∷ xs) ys h = (h.0, Outside-left a xs ys h.1)

pub Outside-right : (a : ℕ) (xs ys : List ℕ) → Outside a (xs ++ ys) → Outside a ys
Outside-right a [] ys h = h
Outside-right a (x ∷ xs) ys h = Outside-right a xs ys h.1

-- The last node before the end.
abbrev pub last : ℕ → List ℕ → ℕ
last p [] = p
last p (x ∷ xs) = last x xs

pub prev-eq-last : (m : Links) (p q : ℕ) (xs : List ℕ) → Chain m p xs q → m.prev q ≡ last p xs
prev-eq-last m p q [] c = c.1
prev-eq-last m p q (x ∷ xs) c = prev-eq-last m x q xs c.2

pub last-ne : (a p : ℕ) (xs : List ℕ) → Outside a (p ∷ xs) → a ≢ last p xs
last-ne a p [] h = h.0
last-ne a p (x ∷ xs) h = last-ne a x xs h.1

-- Splitting a chain at a node, and joining two.
pub Chain-split :
    (m : Links) (p q x : ℕ) (xs ys : List ℕ)
    → Chain m p (xs ++ x ∷ ys) q
    → Chain m p xs x × Chain m x ys q
Chain-split m p q x [] ys c = ((c.0, c.1), c.2)
Chain-split m p q x (y ∷ xs) ys c = let (a, b) = Chain-split m y q x xs ys c.2 in ((c.0, c.1, a), b)

pub Chain-join :
    (m : Links) (p q x : ℕ) (xs ys : List ℕ)
    → Chain m p xs x
    → Chain m x ys q
    → Chain m p (xs ++ x ∷ ys) q
Chain-join m p q x [] ys c d = (c.0, c.1, d)
Chain-join m p q x (y ∷ xs) ys c d = (c.0, c.1, Chain-join m y q x xs ys c.2 d)

-- A chain depends on the `next` fields of `p ∷ xs` and the `prev` fields of `xs` and `q` alone.
pub Chain-frame :
    (m m' : Links) (p q : ℕ) (xs : List ℕ) (u v w : ℕ)
    → ((a : ℕ) → a ≢ u → a ≢ w → m'.next a ≡ m.next a)
    → ((a : ℕ) → a ≢ v → a ≢ w → m'.prev a ≡ m.prev a)
    → Outside u (p ∷ xs)
    → Outside v (q ∷ xs)
    → Outside w (p ∷ q ∷ xs)
    → Chain m p xs q
    → Chain m' p xs q
Chain-frame m m' p q [] u v w same_next same_prev hu hv hw c =
    ground (arith, same_next p, same_prev q)
Chain-frame m m' p q (x ∷ xs) u v w same_next same_prev hu hv hw c = (
  ground (arith, same_next p),
  ground (arith, same_prev x),
  Chain-frame m m' x q xs u v w same_next same_prev hu.1 (hv.0, hv.1.1)
      (hw.1.1.0, (hw.1.0, hw.1.1.1)) c.2,
)

-- A chain whose last `next` field is led to another node, `q` in place of `n`.
pub Chain-retarget :
    (m m' : Links) (p n q : ℕ) (xs : List ℕ) (v w : ℕ)
    → m'.next (last p xs) ≡ q
    → m'.prev q ≡ last p xs
    → ((a : ℕ) → a ≢ last p xs → a ≢ w → m'.next a ≡ m.next a)
    → ((a : ℕ) → a ≢ q → a ≢ v → m'.prev a ≡ m.prev a)
    → Distinct (p ∷ xs)
    → Outside q xs
    → Outside v xs
    → Outside w (p ∷ xs)
    → Chain m p xs n
    → Chain m' p xs q
Chain-retarget m m' p n q [] v w e f same_next same_prev d hq hv hw c = (e, f)
Chain-retarget m m' p n q (x ∷ xs) v w e f same_next same_prev d hq hv hw c = (
  ground (arith, same_next p, last-ne p x xs d.0),
  ground (arith, same_prev x),
  Chain-retarget m m' x n q xs v w e f same_next same_prev d.1 hq.1 hv.1 hw.1 c.2,
)

-- The assertions hold of every node that a chain passes through.
pub linked_of_Chain :
    (m : Links) (p q : ℕ) (xs : List ℕ)
    → p ≢ null
    → m.prev p ≢ null
    → q ≢ null
    → Outside null xs
    → Chain m p xs q
    → is_unlinked p m ≡ false
linked_of_Chain m p q [] hp hb hq out c = ground arith
linked_of_Chain m p q (x ∷ xs) hp hb hq out c = ground arith

pub head_linked : (m : Links) (h : ℕ) (xs : List ℕ) → IsList m h xs → is_unlinked h m ≡ false
head_linked m h xs v =
    linked_of_Chain m h h xs (λ e. v.allocated.0 (sym e))
      (λ e. last-ne null h xs v.allocated (sym e ∙ prev-eq-last m h h xs v.chain))
      (λ e. v.allocated.0 (sym e)) v.allocated.1 v.chain

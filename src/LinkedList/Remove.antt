-- ===== src/LinkedList/Remove.antt =====
-- `loomListRemove` and `loomListReplace` take a node out of a list, and `loomListIsEmpty`.
use loom_bootloader.Base.{ℕ, ◌≡◌, List, [], ◌∷◌, ◌++◌, arith, sym, ◌∙◌, some, Bool, true, false}
use loom_bootloader.LinkedList.{is_unlinked, Links, null, unlink, list_head, remove, is_empty}
use mathlib.Core.List.{append-nil}
use loom_bootloader.LinkedList.Apart.{
  Apart-symm, Apart-tail, Outside-last, Distinct-left, Distinct-right, Distinct-Apart,
  Distinct-append,
}
use loom_bootloader.LinkedList.Chain.{
  Outside, Distinct, Chain, IsList, last, last-ne, prev-eq-last, Chain-frame, Chain-retarget,
  Chain-join, Chain-split, head_linked, linked_of_Chain, Outside-left, Outside-right,
  Outside-append,
}

abbrev pub is_nil : List ℕ → Bool
is_nil [] = true
is_nil (x ∷ xs) = false

module _ (m : Links) (h n : ℕ) where
  pub unlink-Chain :
      (xs ys : List ℕ)
      → Distinct (h ∷ xs ++ n ∷ ys)
      → Chain m h (xs ++ n ∷ ys) h
      → Chain (unlink n m) h (xs ++ ys) h
  unlink-Chain xs ys d c = go ys d (Chain-split m h h n xs ys c)
    where
      go :
          (ys : List ℕ)
          → Distinct (h ∷ xs ++ n ∷ ys)
          → Chain m h xs n × Chain m n ys h
          → Chain (unlink n m) h (xs ++ ys) h
      go [] d (a, b) =
          let e : m.prev n ≡ last h xs = prev-eq-last m h n xs a in
          let d1 = Distinct-left (h ∷ xs) (n ∷ []) d in
          let ap1 = Distinct-Apart (h ∷ xs) (n ∷ []) d in
          let ap2 = Apart-symm (h ∷ xs) (n ∷ []) ap1 in
          let u = Outside-last h xs (n ∷ []) ap1 in
          rw append-nil (
            Chain-retarget m (unlink n m) h n h xs n n (ground arith) (ground arith)
              (λ k p q. ground arith) (λ k p q. ground arith) d1 d1.0 ap2.0.1 ap2.0 a)
      go (y ∷ ys) d (a, b) =
          let e : m.prev n ≡ last h xs = prev-eq-last m h n xs a in
          let d1 = Distinct-left (h ∷ xs) (n ∷ y ∷ ys) d in
          let d2 = Distinct-right (h ∷ xs) (n ∷ y ∷ ys) d in
          let ap1 = Distinct-Apart (h ∷ xs) (n ∷ y ∷ ys) d in
          let ap2 = Apart-symm (h ∷ xs) (n ∷ y ∷ ys) ap1 in
          let u = Outside-last h xs (n ∷ y ∷ ys) ap1 in
          Chain-join (unlink n m) h h y xs ys
            (Chain-retarget m (unlink n m) h n y xs n n (ground arith) (ground arith)
              (λ k p q. ground arith) (λ k p q. ground arith) d1 ap2.1.0.1 ap2.0.1 ap2.0 a)
            (Chain-frame m (unlink n m) y h ys (last h xs) y n (λ k p q. ground arith)
              (λ k p q. ground arith) u.1 (ap2.1.0.0, d2.1.0) (d2.0.0, (ap2.0.0, d2.0.1)) b.2)

  pub remaining-Distinct : (xs ys : List ℕ) → Distinct (xs ++ n ∷ ys) → Distinct (xs ++ ys)
  remaining-Distinct xs ys d =
      Distinct-append xs ys (Distinct-left xs (n ∷ ys) d) (Distinct-right xs (n ∷ ys) d).1
        (Apart-tail n xs ys (Distinct-Apart xs (n ∷ ys) d))

  pub remaining-Outside : (a : ℕ) (xs ys : List ℕ) → Outside a (xs ++ n ∷ ys) → Outside a (xs ++ ys)
  remaining-Outside a xs ys o =
      Outside-append a xs ys (Outside-left a xs (n ∷ ys) o) (Outside-right a xs (n ∷ ys) o).1

  pub node-Outside : (xs ys : List ℕ) → Distinct (xs ++ n ∷ ys) → Outside n (xs ++ ys)
  node-Outside xs ys d =
      Outside-append n xs ys (Apart-symm xs (n ∷ ys) (Distinct-Apart xs (n ∷ ys) d)).0
        (Distinct-right xs (n ∷ ys) d).0

  pub list_head-Chain :
      (m' : Links) (zs : List ℕ)
      → Outside n (h ∷ zs)
      → Chain m' h zs h
      → Chain (list_head n m') h zs h
  unfolding list_head
  list_head-Chain m' zs o c =
      Chain-frame m' (list_head n m') h h zs n n n (λ k p q. ground arith) (λ k p q. ground arith) o
        o (o.0, o) c

  -- The assertions on a node of the list.
  pub node_linked : (xs ys : List ℕ) → IsList m h (xs ++ n ∷ ys) → is_unlinked n m ≡ false
  node_linked xs ys v =
      let (a, b) = Chain-split m h h n xs ys v.chain in
      let out = Outside-right null (h ∷ xs) (n ∷ ys) v.allocated in
      let before = last-ne null h xs (Outside-left null (h ∷ xs) (n ∷ ys) v.allocated) in
      linked_of_Chain m n h ys (λ e. out.0 (sym e)) (λ e. before (sym e ∙ prev-eq-last m h n xs a))
        (λ e. v.allocated.0 (sym e)) out.1 b

  -- `loomListRemove` takes a node out of the list that holds it, keeps the order of the others,
  -- and leaves the node as the head of an empty list.
  pub remove-IsList :
      (xs ys : List ℕ)
      → IsList m h (xs ++ n ∷ ys)
      → (m' : Links) × (remove n m ≡ some m') × IsList m' h (xs ++ ys) × IsList m' n []
  unfolding remove list_head
  remove-IsList xs ys v =
      let out = node-Outside (h ∷ xs) ys v.distinct in
      (
        list_head n (unlink n m),
        ground (arith, node_linked xs ys v),
        record {
          chain =
              list_head-Chain (unlink n m) (xs ++ ys) out (unlink-Chain xs ys v.distinct v.chain);
          distinct = remaining-Distinct (h ∷ xs) ys v.distinct;
          allocated = remaining-Outside null (h ∷ xs) ys v.allocated;
        },
        record {
          chain = (ground arith, ground arith);
          distinct = (tt, tt);
          allocated = ((Outside-right null (h ∷ xs) (n ∷ ys) v.allocated).0, tt);
        },
      )

-- `loomListIsEmpty` passes its assertions and tells whether the list has no node.
pub is_empty-IsList :
    (m : Links) (h : ℕ) (xs : List ℕ) → IsList m h xs → is_empty h m ≡ some (is_nil xs)
unfolding is_empty
is_empty-IsList m h [] v = ground (arith, head_linked m h [] v)
is_empty-IsList m h (x ∷ xs) v = ground (
  arith,
  head_linked m h (x ∷ xs) v,
  last-ne h x xs v.distinct.0,
  prev-eq-last m h h (x ∷ xs) v.chain,
)

-- ===== src/LinkedList/Insert.antt =====
-- `loomListPrepend` and `loomListAppend` put a node at the two ends of the list.
use loom_bootloader.Base.{ℕ, ◌≡◌, ◌≢◌, List, [], ◌∷◌, ◌++◌, arith, sym, some}
use loom_bootloader.LinkedList.{Links, null, insert_after, insert_before, prepend, append}
use loom_bootloader.LinkedList.Chain.{
  Outside, Outside-append, Distinct, Chain, IsList, last, last-ne, prev-eq-last, Chain-frame,
  Chain-retarget, Chain-join, head_linked,
}

Distinct-snoc : (n : ℕ) (xs : List ℕ) → Distinct xs → Outside n xs → Distinct (xs ++ n ∷ [])
Distinct-snoc n [] d h = (tt, tt)
Distinct-snoc n (x ∷ xs) d h =
    (Outside-append x xs (n ∷ []) d.0 (λ e. h.0 (sym e), tt), Distinct-snoc n xs d.1 h.1)

module _ (m : Links) (h n : ℕ) where
  insert_after-Chain :
      (xs : List ℕ)
      → Distinct (h ∷ xs)
      → Outside n (h ∷ xs)
      → Chain m h xs h
      → Chain (insert_after h n m) h (n ∷ xs) h
  insert_after-Chain [] d out c = ground arith
  insert_after-Chain (x ∷ xs) d out c = (
    ground arith,
    ground arith,
    (
      ground arith,
      ground arith,
      Chain-frame m (insert_after h n m) x h xs h x n (λ a p q. ground arith)
          (λ a p q. ground arith) d.0 (λ e. d.0.0 (sym e), d.1.0) (out.1.0, (out.0, out.1.1)) c.2,
    ),
  )

  pub insert_before-Chain :
      (xs : List ℕ)
      → Distinct (h ∷ xs)
      → Outside n (h ∷ xs)
      → Chain m h xs h
      → Chain (insert_before h n m) h (xs ++ n ∷ []) h
  insert_before-Chain xs d out c =
      let e : m.prev h ≡ last h xs = prev-eq-last m h h xs c in
      let ne : n ≢ last h xs = last-ne n h xs out in
      Chain-join (insert_before h n m) h h n xs []
        (Chain-retarget m (insert_before h n m) h h n xs h n (ground arith) (ground arith)
          (λ a p q. ground arith) (λ a p q. ground arith) d out.1 d.0 out c)
        (ground arith)

  -- `loomListPrepend` puts a new node between the head and the first node of its list.
  pub prepend-IsList :
      (xs : List ℕ)
      → IsList m h xs
      → Outside n (null ∷ h ∷ xs)
      → (m' : Links) × (prepend h n m ≡ some m') × IsList m' h (n ∷ xs)
  unfolding prepend
  prepend-IsList xs v out = (
    insert_after h n m,
    ground (arith, head_linked m h xs v),
    record {
      chain = insert_after-Chain xs v.distinct out.1 v.chain;
      distinct = ((λ e. out.1.0 (sym e), v.distinct.0), (out.1.1, v.distinct.1));
      allocated = (v.allocated.0, (λ e. out.0 (sym e), v.allocated.1));
    },
  )

  -- `loomListAppend` puts a new node behind the last node of the list.
  pub append-IsList :
      (xs : List ℕ)
      → IsList m h xs
      → Outside n (null ∷ h ∷ xs)
      → (m' : Links) × (append h n m ≡ some m') × IsList m' h (xs ++ n ∷ [])
  unfolding append
  append-IsList xs v out = (
    insert_before h n m,
    ground (arith, head_linked m h xs v),
    record {
      chain = insert_before-Chain xs v.distinct out.1 v.chain;
      distinct = Distinct-snoc n (h ∷ xs) v.distinct out.1;
      allocated = Outside-append null (h ∷ xs) (n ∷ []) v.allocated (λ e. out.0 (sym e), tt);
    },
  )

-- ===== src/LinkedList/Replace.antt =====
-- `loomListReplace` puts a new node in the place of one of the list.
use loom_bootloader.Base.{
  ℕ, ◌≡◌, ◌≢◌, List, [], ◌∷◌, ◌++◌, arith, sym, ◌∙◌, ap, if◌then◌else◌, ◌==◌, some,
}
use loom_bootloader.LinkedList.{update, Links, null, relink, list_head, replace}
use loom_bootloader.LinkedList.Apart.{
  Apart-symm, Apart-tail, Apart-cons, Outside-last, Distinct-left, Distinct-right, Distinct-Apart,
  Distinct-append,
}
use loom_bootloader.LinkedList.Chain.{
  Outside, Distinct, Chain, IsList, last, last-ne, prev-eq-last, Chain-frame, Chain-retarget,
  Chain-join, Chain-split, Outside-left, Outside-right, Outside-append,
}
use loom_bootloader.LinkedList.Remove.{list_head-Chain, node_linked}

-- What the four writes leave in the two fields of any node.
module _ (m : Links) (old new : ℕ) (fresh : old ≢ new) where
  stored_prev : update m.prev new (m.prev old) old ≡ m.prev old
  stored_prev = ground arith

  relink-next :
      (k : ℕ)
      → (relink old new m).next k
        ≡ (if k == m.prev old then new else if k == new then m.next old else m.next k)
  relink-next k =
      ap (λ (t : ℕ). if k == t then new else if k == new then m.next old else m.next k) stored_prev

  stored_next : old ≢ m.prev old → (relink old new m).next old ≡ m.next old
  stored_next apart = ground (arith, relink-next old)

  relink-prev :
      old ≢ m.prev old
      → (k : ℕ)
      → (relink old new m).prev k
        ≡ (if k == m.next old then new else if k == new then m.prev old else m.prev k)
  relink-prev apart k =
      ap (λ (t : ℕ). if k == t then new else if k == new then m.prev old else m.prev k)
        (stored_next apart)

module _ (m : Links) (h old new : ℕ) where
  -- The part of the list up to the new node; `v` is the node behind the old one.
  relink_left :
      (xs : List ℕ) (v : ℕ)
      → m.next old ≡ v
      → Chain m h xs old
      → Distinct (h ∷ xs)
      → Outside v xs
      → Outside old (h ∷ xs)
      → Outside new (v ∷ old ∷ h ∷ xs)
      → Chain (relink old new m) h xs new
  relink_left xs v e c d hv ho hn =
      let p : m.prev old ≡ last h xs = prev-eq-last m h old xs c in
      let o = last-ne old h xs ho in
      let n = last-ne new h xs hn.1.1 in
      let fresh : old ≢ new = λ i. hn.1.0 (sym i) in
      let apart : old ≢ m.prev old = λ i. o (i ∙ p) in
      let nexts = relink-next m old new fresh in
      let prevs = relink-prev m old new fresh apart in
      Chain-retarget m (relink old new m) h old new xs v new (nexts (last h xs) ∙ ground arith)
        (prevs new ∙ ground arith) (λ k i j. nexts k ∙ ground arith)
        (λ k i j. prevs k ∙ ground arith) d hn.1.1.1 hv hn.1.1 c

  relink-Chain :
      (xs ys : List ℕ)
      → Distinct (h ∷ xs ++ old ∷ ys)
      → Outside new (h ∷ xs ++ old ∷ ys)
      → Chain m h (xs ++ old ∷ ys) h
      → Chain (relink old new m) h (xs ++ new ∷ ys) h
  relink-Chain xs [] d out c =
      let (a, b) = Chain-split m h h old xs [] c in
      let d1 = Distinct-left (h ∷ xs) (old ∷ []) d in
      let ap2 = Apart-symm (h ∷ xs) (old ∷ []) (Distinct-Apart (h ∷ xs) (old ∷ []) d) in
      let nl = Outside-left new (h ∷ xs) (old ∷ []) out in
      let nr = Outside-right new (h ∷ xs) (old ∷ []) out in
      let p : m.prev old ≡ last h xs = prev-eq-last m h old xs a in
      let o = last-ne old h xs ap2.0 in
      let n = last-ne new h xs nl in
      let fresh : old ≢ new = λ i. nr.0 (sym i) in
      let apart : old ≢ m.prev old = λ i. o (i ∙ p) in
      let nexts = relink-next m old new fresh in
      let prevs = relink-prev m old new fresh apart in
      Chain-join (relink old new m) h h new xs []
        (relink_left xs h b.0 a d1 d1.0 ap2.0 (nl.0, (nr.0, nl)))
        (nexts new ∙ ground arith, prevs h ∙ ground arith)
  relink-Chain xs (y ∷ ys) d out c =
      let (a, b) = Chain-split m h h old xs (y ∷ ys) c in
      let d1 = Distinct-left (h ∷ xs) (old ∷ y ∷ ys) d in
      let d2 = Distinct-right (h ∷ xs) (old ∷ y ∷ ys) d in
      let ap1 = Distinct-Apart (h ∷ xs) (old ∷ y ∷ ys) d in
      let ap2 = Apart-symm (h ∷ xs) (old ∷ y ∷ ys) ap1 in
      let nl = Outside-left new (h ∷ xs) (old ∷ y ∷ ys) out in
      let nr = Outside-right new (h ∷ xs) (old ∷ y ∷ ys) out in
      let p : m.prev old ≡ last h xs = prev-eq-last m h old xs a in
      let o = last-ne old h xs ap2.0 in
      let n = last-ne new h xs nl in
      let u = Outside-last h xs (old ∷ y ∷ ys) ap1 in
      let fresh : old ≢ new = λ i. nr.0 (sym i) in
      let apart : old ≢ m.prev old = λ i. o (i ∙ p) in
      let nexts = relink-next m old new fresh in
      let prevs = relink-prev m old new fresh apart in
      Chain-join (relink old new m) h h new xs (y ∷ ys)
        (relink_left xs y b.0 a d1 ap2.1.0.1 ap2.0 (nr.1.0, (nr.0, nl)))
        (
          nexts new ∙ ground arith,
          prevs y ∙ ground arith,
          Chain-frame m (relink old new m) y h ys (last h xs) y new
              (λ k i j. nexts k ∙ ground arith) (λ k i j. prevs k ∙ ground arith) u.1
              (ap2.1.0.0, d2.1.0) (nr.1.0, (nl.0, nr.1.1)) b.2,
        )

  Distinct-replaced :
      (xs ys : List ℕ)
      → Distinct (xs ++ old ∷ ys)
      → Outside new (xs ++ old ∷ ys)
      → Distinct (xs ++ new ∷ ys)
  Distinct-replaced xs ys d out =
      let ap1 = Apart-tail old xs ys (Distinct-Apart xs (old ∷ ys) d) in
      Distinct-append xs (new ∷ ys) (Distinct-left xs (old ∷ ys) d)
        ((Outside-right new xs (old ∷ ys) out).1, (Distinct-right xs (old ∷ ys) d).1)
        (Apart-cons new xs ys (Outside-left new xs (old ∷ ys) out) ap1)

  Outside-replaced :
      (a : ℕ) (xs ys : List ℕ) → a ≢ new → Outside a (xs ++ old ∷ ys) → Outside a (xs ++ new ∷ ys)
  Outside-replaced a xs ys ne out =
      Outside-append a xs (new ∷ ys) (Outside-left a xs (old ∷ ys) out)
        (ne, (Outside-right a xs (old ∷ ys) out).1)

  old-Outside :
      (xs ys : List ℕ) → old ≢ new → Distinct (xs ++ old ∷ ys) → Outside old (xs ++ new ∷ ys)
  old-Outside xs ys ne d =
      Outside-append old xs (new ∷ ys) (Apart-symm xs (old ∷ ys) (Distinct-Apart xs (old ∷ ys) d)).0
        (ne, (Distinct-right xs (old ∷ ys) d).0)

  -- `loomListReplace` puts a new node where a node of the list stood, keeps the other nodes and
  -- their order, and leaves the old node as the head of an empty list.
  pub replace-IsList :
      (xs ys : List ℕ)
      → IsList m h (xs ++ old ∷ ys)
      → Outside new (null ∷ h ∷ xs ++ old ∷ ys)
      → (m' : Links) × (replace old new m ≡ some m')
        × IsList m' h (xs ++ new ∷ ys)
        × IsList m' old []
  unfolding replace list_head
  replace-IsList xs ys v out =
      let fresh : old ≢ new = λ i. (Outside-right new (h ∷ xs) (old ∷ ys) out.1).0 (sym i) in
      let m4 = relink old new m in
      (
        list_head old m4,
        ground (arith, node_linked m h old xs ys v),
        record {
          chain =
              list_head-Chain m h old m4 (xs ++ new ∷ ys) (old-Outside (h ∷ xs) ys fresh v.distinct)
                (relink-Chain xs ys v.distinct out.1 v.chain);
          distinct = Distinct-replaced (h ∷ xs) ys v.distinct out.1;
          allocated = Outside-replaced null (h ∷ xs) ys (λ i. out.0 (sym i)) v.allocated;
        },
        record {
          chain = (ground arith, ground arith);
          distinct = (tt, tt);
          allocated = ((Outside-right null (h ∷ xs) (old ∷ ys) v.allocated).0, tt);
        },
      )

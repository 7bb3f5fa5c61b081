-- ===== src/Heap/Grow.antt =====
-- loomHeapAddRegion on any range that is not inside the boot module.
use loom_bootloader.Base.{
  min, sym, ◌^◌, ℕ, suc, ◌+◌, ◌-◌, ◌*◌, ◌/◌, ◌%◌, ◌≤◌, ◌<◌, ◌^◌, ◌≡◌, List, [], ◌∷◌, ◌++◌, arith,
  refl, ap, ◌⊎◌, inl, inr, ltb, leb, ok, usize, usize_max, Bool-cases,
}
use mathlib.Core.Path.{subst}
use loom_bootloader.Heap.{Words}
use loom_bootloader.Heap.Alloc.{Region, All, IsHeap}
use loom_bootloader.Heap.AddRegion.{
  Added, clipped, goes_over, add_aligned, add_clipped, heap_add_region,
}
use loom_bootloader.Heap.Ranges.{
  Usable, Away, Holds, Any-left, Any-right, Grown, All-map, All-append, Usable-widen, Grown-widen,
  Away-narrow, unchanged, settled, aligned_aside, aside,
}

append_assoc : (xs ys zs : List Region) → xs ++ (ys ++ zs) ≡ (xs ++ ys) ++ zs
append_assoc [] ys zs = refl
append_assoc (x ∷ xs) ys zs = ap (λ l. x ∷ l) (append_assoc xs ys zs)

-- The function itself on a range on one side of the module.
Grows : ((addr length arenas : ℕ) → Words → Added) → (modbase modend : ℕ) → Type 0
Grows again modbase modend =
    (x y p : ℕ) (w : Words) (gs : List Region)
    → 0 < x
    → x + y < 2 ^ 32
    → IsHeap w p gs
    → All (Away x (x + y)) gs
    → (x + y ≤ modbase) ⊎ (modend ≤ x)
    → Grown (again x y p w) modbase modend x (x + y) gs

module _ (again : (addr length arenas : ℕ) → Words → Added) (modbase modend : ℕ)
    (order : modbase ≤ modend) (grows : Grows again modbase modend) where
  aligned_any :
      (a m p : ℕ) (w : Words) (gs : List Region)
      → 0 < a
      → a % 8 ≡ 0
      → m % 8 ≡ 0
      → a + m < 2 ^ 32
      → IsHeap w p gs
      → All (Away a (a + m)) gs
      → (a < modbase) ⊎ (modend < a + m)
      → Grown (add_aligned again modbase modend a m p w) modbase modend a (a + m) gs
  unfolding Grows
  aligned_any a m p w gs pos al even fits h away out =
      let us : usize (a + m) ≡ a + m = omega arith in
      elim (Bool-cases (goes_over modbase a (a + m))) [
        | inr b1 ↦ elim (Bool-cases (goes_over modend a (a + m))) [
          | inr b2 ↦
              aligned_aside again modbase modend a m p w gs order pos al even fits h away
                (ground arith)
          | inl b2 ↦
              let k =
                grows modend (a + m - modend) p w gs (ground arith) (ground arith) h
                  (Away-narrow a (a + m) modend (modend + (a + m - modend)) gs (ground arith)
                    (ground arith) away)
                  (inr (omega arith)) in
              rw us rw (b1, b2) rw k.run_eq
                (Grown-widen (ok (k.head, k.words)) modbase modend modend
                  (modend + (a + m - modend)) a (a + m) gs (ground arith) (ground arith)
                  (λ x b. let (al_x, lo_x, hi_x, s) = b in (ground arith, ground arith))
                  (settled k))
        ]
        | inl b1 ↦
            let k =
              grows a (modbase - a) p w gs pos (ground arith) h
                (Away-narrow a (a + m) a (a + (modbase - a)) gs (omega arith) (ground arith) away)
                (inl (ground arith)) in
            elim (Bool-cases (goes_over modend a (a + m))) [
              | inr b2 ↦
                  rw us rw (b1, b2) rw k.run_eq
                    (Grown-widen (ok (k.head, k.words)) modbase modend a (a + (modbase - a)) a
                      (a + m) gs (omega arith) (ground arith)
                      (λ x b. let (al_x, lo_x, hi_x, s) = b in (omega arith, ground arith))
                      (settled k))
              | inl b2 ↦
                  let done =
                    All-map (Usable modbase modend a (a + (modbase - a)))
                      (Away modend (modend + (a + m - modend))) k.added
                      (λ g (l, u, side). inr (ground arith)) k.usable in
                  let rest =
                    Away-narrow a (a + m) modend (modend + (a + m - modend)) gs (ground arith)
                      (ground arith) away in
                  let k2 =
                    grows modend (a + m - modend) k.head k.words (k.added ++ gs) (ground arith)
                      (ground arith) k.heap
                      (All-append (Away modend (modend + (a + m - modend))) k.added gs done rest)
                      (inr (omega arith)) in
                  let first =
                    Usable-widen modbase modend a (a + (modbase - a)) a (a + m) k.added
                      (omega arith) (ground arith) k.usable in
                  let second =
                    Usable-widen modbase modend modend (modend + (a + m - modend)) a (a + m)
                      k2.added (ground arith) (ground arith) k2.usable in
                  rw us rw (b1, b2) rw k.run_eq rw k2.run_eq
                    (record {
                      head = k2.head;
                      words = k2.words;
                      run_eq = refl;
                      added = k2.added ++ k.added;
                      heap =
                          subst (IsHeap k2.words k2.head) (append_assoc k2.added k.added gs)
                            k2.heap;
                      usable =
                          All-append (Usable modbase modend a (a + m)) k2.added k.added second
                            first;
                      covers = λ x b.
                          let (al_x, lo_x, hi_x, s) = b in
                          elim s [
                            | inl left ↦
                                Any-right (Holds x) k2.added k.added
                                  (k.covers x (al_x, lo_x, ground arith, inl left))
                            | inr right ↦
                                Any-left (Holds x) k2.added k.added
                                  (k2.covers x (al_x, right, ground arith, inr right))
                          ];
                    })
            ]
      ]

  clipped_any :
      (addr n p : ℕ) (w : Words) (gs : List Region)
      → 0 < addr
      → addr + n < 2 ^ 32
      → IsHeap w p gs
      → All (Away addr (addr + n)) gs
      → (addr + 8 ≤ modbase) ⊎ (modend + 8 ≤ addr + n)
      → Grown (add_clipped again modbase modend addr n p w) modbase modend addr (addr + n) gs
  clipped_any addr n p w gs pos fits h away out = elim (Bool-cases (ltb (usize_max - 7) addr)) [
    | inl over ↦ rw over (
        unchanged p modbase modend addr (addr + n) w gs h
          (λ x b. let (al_x, from, to, s) = b in absurd (ground arith)))
    | inr fine ↦
        let a : ℕ = (addr + 7) / 8 * 8 in
        elim (Bool-cases (leb (a - addr) n)) [
          | inr short ↦ rw fine rw short (
              unchanged p modbase modend addr (addr + n) w gs h
                (λ x b. let (al_x, from, to, s) = b in absurd (ground arith)))
          | inl enough ↦
              let m : ℕ = (n - (a - addr)) / 8 * 8 in
              let within : a + m ≤ addr + n = ground arith in
              let from : addr ≤ a = ground arith in
              rw fine rw enough (
                Grown-widen (add_aligned again modbase modend a m p w) modbase modend a (a + m) addr
                  (addr + n) gs from within
                  (λ x b. let (al_x, lo_x, hi_x, s) = b in (omega arith, ground arith))
                  (aligned_any a m p w gs (omega arith) (omega arith) (omega arith) (omega arith) h
                    (Away-narrow addr (addr + n) a (a + m) gs from within away) (ground arith)))
        ]
  ]

inner :
    (k modbase modend : ℕ)
    → modbase ≤ modend
    → Grows (heap_add_region (suc k) modbase modend) modbase modend
unfolding heap_add_region Grows
inner k modbase modend order x y p w gs pos fits h away side =
    let whole : clipped x y ≡ y = ground arith in
    rw whole (
      aside (heap_add_region k modbase modend) modbase modend x y p w gs order pos fits h away side)

-- The end of the range that is added.
clipped-min :
    (addr n : ℕ) → addr < 2 ^ 32 → n < 2 ^ 32 → addr + clipped addr n ≡ min (addr + n) (2 ^ 32 - 1)
clipped-min addr n small size = ground arith

-- loomHeapAddRegion returns, and its recursion is one call deep: it adds arenas to a well-formed
-- heap, which stays well formed with the arenas it had. The new ones are inside the range, which is
-- cut off at the end of the address space, and outside the boot module; together they hold every
-- 32 bytes there that begin at a multiple of 8. No arena overlapped the range
-- before, the range does not start at address 0 and reaches 8 bytes out of the module, before it or
-- behind it, and the module does not end before it starts.
pub heap_add_region-Grown :
    (k modbase modend addr n p : ℕ) (w : Words) (gs : List Region)
    → modbase ≤ modend
    → 0 < addr
    → addr < 2 ^ 32
    → n < 2 ^ 32
    → IsHeap w p gs
    → All (Away addr (min (addr + n) (2 ^ 32 - 1))) gs
    → (addr + 8 ≤ modbase) ⊎ (modend + 8 ≤ min (addr + n) (2 ^ 32 - 1))
    → Grown
        (heap_add_region (suc (suc k)) modbase modend addr n p w)
        modbase
        modend
        addr
        (min (addr + n) (2 ^ 32 - 1))
        gs
unfolding heap_add_region Grows
heap_add_region-Grown k modbase modend addr n p w gs order pos small size h away out =
    let e = clipped-min addr n small size in
    subst
      (λ hi.
        Grown (heap_add_region (suc (suc k)) modbase modend addr n p w) modbase modend addr hi gs)
      e
      (clipped_any (heap_add_region (suc k) modbase modend) modbase modend order
        (inner k modbase modend order) addr (clipped addr n) p w gs pos (ground arith) h
        (subst (λ hi. All (Away addr hi) gs) (sym e) away)
        (subst (λ hi. (addr + 8 ≤ modbase) ⊎ (modend + 8 ≤ hi)) (sym e) out))

-- ===== src/BlockDev/Cache/Init.antt =====
-- A new cache holds no block, in a ring through all its entries.
use loom_bootloader.Base.{
  ℕ, zero, suc, ◌+◌, ◌*◌, ◌<◌, ◌≡◌, ◌≢◌, List, [], ◌∷◌, length, arith, refl, ap, sym, ◌∙◌, some, ok,
  ◌==◌, checked_mul, usize, false, Bool-cases, Option-cases, inl, inr, ok_injective,
}
use mathlib.Core.Path.{subst}
use loom_bootloader.Memory.{Memory, null}
use loom_bootloader.LinkedList.{Links, insert_before, set_next, set_prev}
use loom_bootloader.LinkedList.Chain.{Outside, IsList}
use loom_bootloader.BlockDev.Cache.{
  Cache, entry_size, block_unset, set_block, link_mru_head, init_loop, cache_init, init_table,
  init_data, init_reqs, init_entries, io_req_size,
}
use loom_bootloader.BlockDev.Cache.Ring.{All, All-map, inserted, Outside-of_All}
use loom_bootloader.BlockDev.Cache.Slots.{Holds, Coherent}

-- One of the first `i` entries, which holds no block.
abbrev Blank : Cache → ℕ → ℕ → Type 0
Blank c i e = ((j : ℕ) × ((j < i) × (e ≡ c.table + 16 * j))) × (c.block e ≡ block_unset)

-- The first `i` entries are linked.
record Linked (table i : ℕ) (c : Cache) (order : List ℕ) : Type 0 where
  same_table : c.table ≡ table
  ring : IsList c.links c.mru order
  blank : All (Blank c i) (c.mru ∷ order)
  size : suc (length order) ≡ i

next_Blank :
    (c : Cache) (i e x : ℕ) (l : Links)
    → e ≡ c.table + 16 * i
    → Blank c i x
    → Blank (record (set_block c e block_unset) { links = l; mru = e }) (suc i) x
next_Blank c i e x l q ((j, (lt, p)), b) = ((j, (omega arith, p)), ground arith)

link_before :
    (c : Cache) (e : ℕ)
    → c.mru ≢ null
    → link_mru_head c e ≡ record c { links = insert_before c.mru e c.links; mru = e }
unfolding link_mru_head
link_before c e h = ground arith

link_alone :
    (c : Cache) (e : ℕ)
    → c.mru ≡ null
    → link_mru_head c e ≡ record c { links = set_next e e (set_prev e e c.links); mru = e }
unfolding link_mru_head
link_alone c e h = ground arith

link-next :
    (table i : ℕ) (c : Cache) (order : List ℕ)
    → table ≢ null
    → Linked table i c order
    → Linked table
        (suc i)
        (link_mru_head
          (set_block c (c.table + i * entry_size) block_unset)
          (c.table + i * entry_size))
        (c.mru ∷ order)
link-next table i c order has h =
    let e : ℕ = c.table + i * entry_size in
    let d = set_block c e block_unset in
    let out : Outside e (c.mru ∷ order) =
      Outside-of_All (Blank c i) e (c.mru ∷ order) (λ x ((j, (lt, p)), b) q. absurd (omega arith))
        h.blank in
    let there : e ≢ null = λ q. has (omega (arith, h.same_table)) in
    subst (λ x. Linked table (suc i) x (c.mru ∷ order))
      (sym (link_before d e (λ q. h.ring.allocated.0 (sym q))))
      (record {
        same_table = h.same_table;
        ring = inserted c.links c.mru e order h.ring out there;
        blank = (
          ((i, (omega arith, omega arith)), ground arith),
          All-map (Blank c i)
              (Blank (record d { links = insert_before c.mru e c.links; mru = e }) (suc i))
              (c.mru ∷ order)
              (λ x. next_Blank c i e x (insert_before c.mru e c.links) (omega arith)) h.blank,
        );
        size = omega (arith, h.size);
      })

link-first :
    (c : Cache) (table : ℕ)
    → c.mru ≡ null
    → c.table ≡ table
    → table ≢ null
    → Linked table 1
        (link_mru_head
          (set_block c (c.table + 0 * entry_size) block_unset)
          (c.table + 0 * entry_size))
        []
link-first c table h q has =
    let e : ℕ = c.table + 0 * entry_size in
    let d = set_block c e block_unset in
    subst (λ x. Linked table 1 x []) (sym (link_alone d e h))
      (record {
        same_table = q;
        ring = record {
          chain = (ground arith, ground arith);
          distinct = (tt, tt);
          allocated = (λ p. has (omega arith), tt);
        };
        blank = (((0, (omega arith, omega arith)), ground arith), tt);
        size = refl;
      })

init_loop-Linked :
    (n table i : ℕ) (c : Cache) (order : List ℕ)
    → table ≢ null
    → Linked table i c order
    → (order' : List ℕ) × Linked table (i + n) (init_loop n i c) order'
unfolding init_loop
init_loop-Linked zero table i c order has h =
    (order, subst (λ k. Linked table k c order) {x = i} {y = i + 0} (omega arith) h)
init_loop-Linked (suc n) table i c order has h =
    let e : ℕ = c.table + i * entry_size in
    let (order', l) =
      init_loop-Linked n table (suc i) (link_mru_head (set_block c e block_unset) e) (c.mru ∷ order)
        has (link-next table i c order has h) in
    (
      order',
      subst
          (λ k.
            Linked table k (init_loop n (suc i) (link_mru_head (set_block c e block_unset) e))
              order')
          {x = suc i + n} {y = i + suc n} (omega arith) l,
    )

link_slots : (c : Cache) (e : ℕ) → (link_mru_head c e).slots ≡ c.slots
unfolding link_mru_head
link_slots c e = ground arith

init_loop-slots : (n i : ℕ) (c : Cache) → (init_loop n i c).slots ≡ c.slots
unfolding init_loop
init_loop-slots zero i c = refl
init_loop-slots (suc n) i c =
    let e : ℕ = c.table + i * entry_size in
    init_loop-slots n (suc i) (link_mru_head (set_block c e block_unset) e)
    ∙ link_slots (set_block c e block_unset) e

-- The cache that loomBlockDevCacheInit builds agrees with every disk.
init_entries-Coherent :
    (disk : ℕ → ℕ) (m : Memory) (c : Cache) (n bs : ℕ)
    → 0 < n
    → c.mru ≡ null
    → c.table ≢ null
    → c.slots ≢ null
    → Coherent disk (record (init_loop n 0 c) { count = n; block_size = bs }) m
unfolding init_loop
init_entries-Coherent disk m c zero bs pos h t s = absurd (omega arith)
init_entries-Coherent disk m c (suc n) bs pos h t s =
    let e : ℕ = c.table + 0 * entry_size in
    let c1 = link_mru_head (set_block c e block_unset) e in
    let (order, l) = init_loop-Linked n c.table 1 c1 [] t (link-first c c.table h refl t) in
    record {
      order = order;
      ring = l.ring;
      entries =
          All-map (Blank (init_loop n 1 c1) (1 + n))
            (Holds disk (record (init_loop n 1 c1) { count = suc n; block_size = bs }) m)
            ((init_loop n 1 c1).mru ∷ order)
            (λ x ((j, (lt, p)), b). record {
              entry = (j, (omega arith, p));
              bytes = λ set. absurd (set b);
            })
            l.blank;
      within = omega (arith, l.size);
      has_table = λ q. t (sym l.same_table ∙ q);
      has_slots = λ q. s (sym (init_loop-slots (suc n) 0 c) ∙ q);
    }

module _ {ℓ} {H : Type ℓ} (alloc : ℕ → H → ℕ × H) (free : ℕ → H → H) where
  reqs_inv :
      (c c' : Cache) (n bs : ℕ) (h h' : H)
      → init_reqs alloc free c n bs h ≡ (some c', h')
      → (p : ℕ) × (init_entries alloc free (record c { io_reqs = p }) n bs ≡ c')
  reqs_inv c c' n bs h h' e =
      let (p, h1) = alloc (usize (io_req_size * n)) h in
      elim (Bool-cases (p == null)) [ inl q ↦ absurd (ground arith) | inr q ↦ (p, ground arith) ]

  data_inv :
      (c c' : Cache) (n bs : ℕ) (h h' : H)
      → init_data alloc free c n bs h ≡ (some c', h')
      → (q : ℕ) × ((p : ℕ) × ((p ≢ null)
            × (init_entries alloc free (record c { slots = p; io_reqs = q }) n bs ≡ c')))
  data_inv c c' n bs h h' e = elim (Option-cases (checked_mul bs n)) [
    | inl o ↦ absurd (ground arith)
    | inr (bytes, o) ↦
        let (p, h1) = alloc bytes h in
        elim (Bool-cases (p == null)) [
          | inl q ↦ absurd (ground arith)
          | inr q ↦
              let (r, k) = reqs_inv (record c { slots = p }) c' n bs h1 h' (ground arith) in
              (r, (p, (ground arith, k)))
        ]
  ]

  table_inv :
      (c c' : Cache) (n bs : ℕ) (h h' : H)
      → init_table alloc free c n bs h ≡ (some c', h')
      → (q : ℕ) × ((p : ℕ) × ((t : ℕ) × ((p ≢ null)
              × ((t ≢ null)
                  × (init_entries alloc free (record c { table = t; slots = p; io_reqs = q }) n bs
                      ≡ c')))))
  table_inv c c' n bs h h' e = elim (Option-cases (checked_mul entry_size n)) [
    | inl o ↦ absurd (ground arith)
    | inr (bytes, o) ↦
        let (t, h1) = alloc bytes h in
        elim (Bool-cases (t == null)) [
          | inl q ↦ absurd (ground arith)
          | inr q ↦
              let (r, (p, (k, l))) =
                data_inv (record c { table = t; io_reqs = null; slots = null }) c' n bs h1 h'
                  (ground arith) in
              (r, (p, (t, (k, (ground arith, l)))))
        ]
  ]

  -- If loomBlockDevCacheInit succeeds, the cache holds no block and so agrees with every disk and
  -- store; it has the size asked for.
  pub cache_init-Coherent :
      (disk : ℕ → ℕ) (m : Memory) (c c' : Cache) (n bs : ℕ) (h h' : H)
      → cache_init alloc free c n bs h ≡ ok (some c', h')
      → Coherent disk c' m × (c'.count ≡ n) × (c'.block_size ≡ bs)
  unfolding cache_init
  cache_init-Coherent disk m c c' n bs h h' e =
      let b1 : (n == 0) ≡ false = ground arith in
      let b2 : (bs == 0) ≡ false = ground arith in
      let (q, (p, (t, (k, (l, r))))) =
        table_inv (record c { count = 0; mru = null }) c' n bs h h' (ok_injective (ground arith)) in
      let new =
        init_entries-Coherent disk m
          (record c { count = 0; mru = null; table = t; slots = p; io_reqs = q }) n bs
          (ground arith) refl l k in
      (
        subst (λ d. Coherent disk d m) r new,
        sym (ap (λ d. d.count) r),
        sym (ap (λ d. d.block_size) r),
      )

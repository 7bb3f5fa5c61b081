-- ===== src/BlockDev/Cache/Moves.antt =====
-- A cache that agrees with the disk still does after each change of its ring and its slots.
use loom_bootloader.Base.{
  ℕ, ◌+◌, ◌*◌, ◌≤◌, ◌<◌, ◌≡◌, ◌≢◌, List, [], ◌∷◌, ◌++◌, length, length-append, arith, ap, sym, ◌∙◌,
  ◌⊎◌, inl, inr,
}
use mathlib.Core.Path.{subst}
use loom_bootloader.Memory.{Memory}
use loom_bootloader.LinkedList.{Links, insert_before, unlink}
use loom_bootloader.LinkedList.Chain.{IsList, last, prev-eq-last}
use loom_bootloader.BlockDev.Cache.{Cache, entry_data, set_block, block_unset, touch}
use loom_bootloader.BlockDev.Cache.Ring.{
  All, All-append, All-left, All-right, All-map, snoc_view, last-snoc, rotate,
}
use loom_bootloader.BlockDev.Cache.Lookup.{touch-IsList}
use loom_bootloader.BlockDev.Cache.Slots.{IsEntry, Holds, Coherent, slot_changed}

module _ (disk : ℕ → ℕ) (c : Cache) (m : Memory) where
  -- The ring does not matter to the slots.
  relinked :
      (l : Links) (r : ℕ) (xs : List ℕ)
      → All (Holds disk c m) xs
      → All (Holds disk (record c { links = l; mru = r }) m) xs
  relinked l r xs =
      All-map (Holds disk c m) (Holds disk (record c { links = l; mru = r }) m) xs
        (λ e h. record { entry = h.entry; bytes = h.bytes })

  -- The last entry of the ring becomes the first.
  rotated :
      (h : Coherent disk c m) (ys : List ℕ) (x : ℕ)
      → h.order ≡ ys ++ x ∷ []
      → Coherent disk (record c { mru = x }) m
  rotated h ys x q =
      let all = subst (λ l. All (Holds disk c m) (c.mru ∷ l)) q h.entries in
      let tail = All-right (Holds disk c m) ys (x ∷ []) all.1 in
      record {
        order = c.mru ∷ ys;
        ring = rotate c.links c.mru x ys (subst (IsList c.links c.mru) q h.ring);
        entries =
            relinked c.links x (x ∷ c.mru ∷ ys)
              (tail.0, (all.0, All-left (Holds disk c m) ys (x ∷ []) all.1));
        within = omega (arith, h.within, ap length q, length-append ys (x ∷ []));
        has_table = h.has_table;
        has_slots = h.has_slots;
      }

  pub evict-Coherent : Coherent disk c m → Coherent disk (record c { mru = c.links.prev c.mru }) m
  evict-Coherent h =
      let lru = prev-eq-last c.links c.mru c.mru h.order h.ring.chain in
      elim (snoc_view h.order) [
        | inl q ↦
            let same : c.mru ≡ c.links.prev c.mru = sym (lru ∙ ap (last c.mru) q) in
            subst (λ y. Coherent disk (record c { mru = y }) m) same h
        | inr (ys, (x, q)) ↦
            let same : x ≡ c.links.prev c.mru =
              sym (lru ∙ ap (last c.mru) q ∙ last-snoc c.mru x ys) in
            subst (λ y. Coherent disk (record c { mru = y }) m) same (rotated h ys x q)
      ]

  -- The least recently used entry is one of the table.
  pub lru-IsEntry : Coherent disk c m → IsEntry c (c.links.prev c.mru)
  lru-IsEntry h = (evict-Coherent h).entries.0.entry

  -- The slot of `x` has changed, and no other byte.
  pub changed-Coherent :
      (m' : Memory) (x v : ℕ)
      → IsEntry c x
      → (v ≢ block_unset
          → (k : ℕ) → k < c.block_size
          → m' (entry_data c x + k) ≡ disk (v * c.block_size + k))
      → ((a : ℕ) → (a < entry_data c x) ⊎ (entry_data c x + c.block_size ≤ a) → m' a ≡ m a)
      → Coherent disk c m
      → Coherent disk (set_block c x v) m'
  changed-Coherent m' x v is new same h = record {
    order = h.order;
    ring = h.ring;
    entries =
        All-map (Holds disk c m) (Holds disk (set_block c x v) m') (c.mru ∷ h.order)
          (λ e. slot_changed disk c m m' x v e is new same) h.entries;
    within = h.within;
    has_table = h.has_table;
    has_slots = h.has_slots;
  }

  -- A use of an entry behind the first.
  pub touch-Coherent :
      (h : Coherent disk c m) (e : ℕ) (ys zs : List ℕ)
      → h.order ≡ ys ++ e ∷ zs
      → Coherent disk (touch c e) m
  touch-Coherent h e ys zs q =
      let all = subst (λ l. All (Holds disk c m) (c.mru ∷ l)) q h.entries in
      let tail = All-right (Holds disk c m) ys (e ∷ zs) all.1 in
      let (same, ring) = touch-IsList c e ys zs (subst (IsList c.links c.mru) q h.ring) in
      subst (λ d. Coherent disk d m) (sym same)
        (record {
          order = c.mru ∷ ys ++ zs;
          ring = ring;
          entries = relinked (insert_before c.mru e (unlink e c.links)) e (e ∷ c.mru ∷ ys ++ zs) (
            tail.0,
            (
              all.0,
              All-append (Holds disk c m) ys zs (All-left (Holds disk c m) ys (e ∷ zs) all.1)
                  tail.1,
            ),
          );
          within =
              omega (arith, h.within, ap length q, length-append ys (e ∷ zs), length-append ys zs);
          has_table = h.has_table;
          has_slots = h.has_slots;
        })

  -- The entry found is one of those that agree with the disk.
  pub found-Holds :
      (h : Coherent disk c m) (e : ℕ) (ys zs : List ℕ) → h.order ≡ ys ++ e ∷ zs → Holds disk c m e
  found-Holds h e ys zs q =
      let all = subst (λ l. All (Holds disk c m) (c.mru ∷ l)) q h.entries in
      (All-right (Holds disk c m) ys (e ∷ zs) all.1).0

-- ===== src/BlockDev/Cache/Read.antt =====
-- A read through the cache gives the bytes of the disk, and leaves a cache that agrees with it.
use loom_bootloader.Base.{
  ℕ, ◌+◌, ◌-◌, ◌*◌, ◌/◌, ◌%◌, ◌^◌, min, ◌≤◌, ◌<◌, ◌≡◌, ◌≢◌, [], ◌∷◌, ok, none, some, arith, refl,
  ap, sym, ◌∙◌, ◌⊎◌, inl, inr, Bool-cases, false, ◌==◌, usize,
}
use native.Mathlib.Nat.{div-add-mod'}
use loom_bootloader.Error.{LoomError}
use loom_bootloader.Memory.{Memory, null}
use loom_bootloader.Memory.Copy.{mem_copy-copied}
use loom_bootloader.BlockDev.{BlockDev, IoReq, request, block_dev_read}
use loom_bootloader.BlockDev.Driver.{Serves, fill, fill_one_inside, fill_one_outside}
use loom_bootloader.BlockDev.Read.Stages.{Disjoint}
use loom_bootloader.BlockDev.Read.Bytes.{LoomError-discrete}
use loom_bootloader.BlockDev.Read.Confined.{Confined, block_dev_read-outside}
use loom_bootloader.BlockDev.Cache.{
  Cache, entry_data, set_block, block_unset, touch, CachedRead, uncached, copy_out, filled_entry,
  read_through, read_block, read_some, cached_read,
}
use loom_bootloader.BlockDev.Cache.Answer.{
  Placed, Answered, SamePlace, touch-SamePlace, lookup-Coherent, uncached-Answered, copied-Answered,
  same_block, filled_entry_error,
}
use loom_bootloader.BlockDev.Cache.Slots.{IsEntry, Holds, Coherent, slots_end, slot_inside}
use loom_bootloader.BlockDev.Cache.Moves.{evict-Coherent, lru-IsEntry, changed-Coherent}

module _ (disk : ℕ → ℕ) (dev : BlockDev) (c : Cache) (offset size buf : ℕ)
    (serves : Serves dev.readv disk dev.block_size)
    (confined : Confined dev.readv disk dev.block_size) (placed : Placed dev c size buf)
    (has_buf : buf ≢ null) (has_scratch : dev.scratch ≢ null) (apart : Disjoint dev size buf)
    (pos : 0 < dev.block_size) (fits : offset + size < 2 ^ 32) (m : Memory)
    (coherent : Coherent disk c m) where
  abbrev b : ℕ
  b = offset / dev.block_size

  abbrev bo : ℕ
  bo = offset % dev.block_size

  abbrev n : ℕ
  n = min (dev.block_size - bo) size

  abbrev pub Result : CachedRead → Type 0
  Result r =
      (e : LoomError) × ((m' : Memory) × ((c' : Cache) × ((r ≡ ok (e, m', c'))
            × Answered disk dev c offset size buf m e m' c')))

  past : Result (uncached (block_dev_read dev offset size buf m) c)
  past =
      let (r, (q, read, out)) =
        block_dev_read-outside disk dev serves confined offset size buf apart has_scratch has_buf
          pos fits m in
      (
        r.0,
        (
          r.1,
          (
            c,
            (rw q refl, uncached-Answered disk dev c offset size buf m placed coherent r read out),
          ),
        ),
      )

  module _ (has : 0 < size) where
    -- The copy out of an entry's slot.
    copy_out-Answered :
        (c' : Cache) (m1 : Memory) (e : ℕ)
        → IsEntry c e
        → SamePlace c c'
        → Coherent disk c' m1
        → ((a : ℕ) → (a < c.slots) ⊎ (slots_end c ≤ a) → m1 a ≡ m a)
        → bo + size ≤ dev.block_size
        → ((k : ℕ) → k < dev.block_size → m1 (entry_data c e + k) ≡ disk (b * dev.block_size + k))
        → Result (copy_out buf (entry_data c e + bo) n m1 c')
    copy_out-Answered c' m1 e is same h out inside slot =
        let whole = div-add-mod' offset dev.block_size in
        let size_eq = placed.same_size in
        let there = coherent.has_slots in
        let low = slot_inside c e bo is (omega arith) in
        let high = slot_inside c e (bo + size - 1) is (omega arith) in
        let beside = placed.from_buf in
        let (m2, copied_eq, copy) =
          mem_copy-copied buf (entry_data c e + bo) n m1 has_buf (λ q. there (omega arith))
            (ground arith) in
        (
          LoomError.none,
          (
            m2,
            (
              c',
              (
                rw copied_eq refl,
                copied-Answered disk dev c offset size buf m placed c' m1 m2 (entry_data c e + bo) n
                    same h out (omega arith)
                    (λ k lt.
                      ap m1 {x = entry_data c e + bo + k} {y = entry_data c e + (bo + k)}
                        (omega arith)
                      ∙ slot (bo + k) (omega arith)
                      ∙ ap disk {x = b * dev.block_size + (bo + k)} {y = offset + k} (omega arith))
                    copy,
              ),
            ),
          ),
        )

    block_set : b ≢ block_unset
    block_set =
        let whole = div-add-mod' offset dev.block_size in
        let least : b * 1 ≤ b * dev.block_size = grind arith in λ e. omega arith

    slot_range :
        (e : ℕ)
        → IsEntry c e
        → (a : ℕ) → (a < c.slots) ⊎ (slots_end c ≤ a)
        → (a < entry_data c e) ⊎ (entry_data c e + c.block_size ≤ a)
    slot_range e is a k =
        let size_eq = placed.same_size in
        let low = slot_inside c e 0 is (omega arith) in
        let high = slot_inside c e (c.block_size - 1) is (omega arith) in ground arith

    hit :
        (e : ℕ)
        → bo + size ≤ dev.block_size
        → c.block e ≡ b
        → Holds disk c m e
        → Coherent disk (touch c e) m
        → Result (read_through dev b bo buf n m (some (entry_data c e), touch c e))
    unfolding read_through
    hit e inside q h t =
        let size_eq = placed.same_size in
        copy_out-Answered (touch c e) m e h.entry (touch-SamePlace c e) t (λ a k. refl) inside
          (λ k lt.
            h.bytes (λ u. block_set (sym q ∙ u)) k (omega arith)
            ∙ ap disk {x = c.block e * c.block_size + k} {y = b * dev.block_size + k}
                (omega (arith, ap (λ x. x * c.block_size) q, ap (λ x. b * x) size_eq)))

    abbrev lru : ℕ
    lru = c.links.prev c.mru

    abbrev io : IoReq
    io = request b 1 (entry_data c lru)

    filled :
        (m1 : Memory)
        → bo + size ≤ dev.block_size
        → ((a : ℕ) → m1 a ≡ fill disk dev.block_size (io ∷ []) m a)
        → Result (filled_entry lru b buf (entry_data c lru + bo) n c (LoomError.none, m1))
    unfolding filled_entry SamePlace
    filled m1 inside f =
        let size_eq = placed.same_size in
        let is = lru-IsEntry disk c m coherent in
        let slot : (k : ℕ)
            → k < dev.block_size
            → m1 (entry_data c lru + k) ≡ disk (b * dev.block_size + k) =
          λ k lt.
            f (entry_data c lru + k)
            ∙ fill_one_inside disk dev.block_size io m (entry_data c lru + k) k refl
                (omega arith) in
        let beside : (a : ℕ)
            → (a < entry_data c lru) ⊎ (entry_data c lru + c.block_size ≤ a)
            → m1 a ≡ m a =
          λ a w. f a ∙ fill_one_outside disk dev.block_size io m a (ground arith) in
        let changed =
          changed-Coherent disk c m m1 lru b is
            (λ u k lt.
              slot k (omega arith)
              ∙ ap disk {x = b * dev.block_size + k} {y = b * c.block_size + k}
                  (omega (arith, ap (λ x. b * x) size_eq)))
            beside coherent in
        copy_out-Answered (record (set_block c lru b) { mru = lru }) m1 lru is (refl, refl, refl)
          (evict-Coherent disk (set_block c lru b) m1 changed)
          (λ a k. beside a (slot_range lru is a k)) inside slot

    -- The driver reports an error: the entry holds no block any more.
    failed :
        (m1 : Memory) (e : LoomError)
        → e ≢ LoomError.none
        → ((a : ℕ) → (a < entry_data c lru) ⊎ (entry_data c lru + c.block_size ≤ a) → m1 a ≡ m a)
        → Result (filled_entry lru b buf (entry_data c lru + bo) n c (e, m1))
    failed m1 e bad beside =
        let is = lru-IsEntry disk c m coherent in
        (
          e,
          (
            m1,
            (
              set_block c lru block_unset,
              (
                filled_entry_error lru b buf (entry_data c lru + bo) n c e m1 bad,
                record {
                  bytes = λ q. absurd (bad q);
                  coherent =
                      changed-Coherent disk c m m1 lru block_unset is (λ u. absurd (u refl)) beside
                        coherent;
                  outside = λ a w k. beside a (slot_range lru is a k);
                  same_place = (refl, refl, refl);
                },
              ),
            ),
          ),
        )

    miss : bo + size ≤ dev.block_size → Result (read_through dev b bo buf n m (none, c))
    unfolding read_through
    miss inside =
        let size_eq = placed.same_size in
        let ((e, m1), called, f) = serves.returns (io ∷ []) m (omega arith, tt) in
        let beside : (a : ℕ)
            → (a < entry_data c lru) ⊎ (entry_data c lru + c.block_size ≤ a)
            → m1 a ≡ m a =
          λ a w.
            confined.outside (io ∷ []) m (e, m1) called a
              (λ m'. fill_one_outside disk dev.block_size io m' a (ground arith)) in
        rw called (elim (LoomError-discrete e LoomError.none) [
          | yes good ↦ rw good (filled m1 inside (f good))
          | no bad ↦ failed m1 e bad beside
        ])

    block : bo + size ≤ dev.block_size → Result (read_block dev c offset size buf m)
    unfolding read_block
    block inside = elim (lookup-Coherent disk c m b block_set coherent) [
      | inl q ↦ rw q (miss inside)
      | inr (e, (q, k, h, t)) ↦ rw q (hit e inside k h t)
    ]

    some_bytes : Result (read_some dev c offset size buf m)
    unfolding read_some
    some_bytes =
        let a : (c.count == 0) ≡ false = ground (arith, coherent.within) in
        elim (Bool-cases (b == usize (offset + size - 1) / dev.block_size)) [
          | inl q ↦
              rw (a, q)
                (block (
                  same_block offset size dev.block_size pos has (
                    ground (
                      arith,
                      ap (λ x. x / dev.block_size) {x = usize (offset + size - 1)}
                          {y = offset + size - 1} (omega arith),
                    ))))
          | inr q ↦ rw (a, q) past
        ]

  -- loomBlockDevCachedRead always returns, without a failed assertion; if it reports no error, the
  -- caller's buffer holds the bytes of the device from the offset on. On every outcome the cache
  -- agrees with the disk afterwards as it did before, and nothing but the buffer, the scratch
  -- buffer and the cache's slots has changed. The driver serves the disk and writes to the buffers
  -- of its requests alone, the buffers exist and do not overlap each other or the slots, and offset
  -- plus size fits a usize.
  pub cached_read-Answered : Result (cached_read dev c offset size buf m)
  unfolding cached_read
  cached_read-Answered =
      let b1 : (dev.scratch == null) ≡ false = ground arith in
      let b2 : (dev.block_size == 0) ≡ false = ground arith in
      elim (Bool-cases (size == 0)) [
        | inl q ↦ rw (b1, b2, q) past
        | inr q ↦ rw (b1, b2, q) (some_bytes (ground arith))
      ]

-- ===== src/BlockDev/Cache/Answer.antt =====
-- What a read through the cache promises, and the steps that keep the promise.
use loom_bootloader.Base.{
  ℕ, ◌+◌, ◌-◌, ◌*◌, ◌/◌, ◌%◌, ◌≤◌, ◌<◌, ◌≡◌, ◌≢◌, ok, none, some, arith, refl, ap, sym, ◌∙◌, ◌⊎◌,
  inl, inr, false, ◌==◌,
}
use mathlib.Core.Path.{subst}
use native.Mathlib.Nat.{div-add-mod', mod-lt}
use loom_bootloader.Error.{LoomError}
use loom_bootloader.Memory.{Memory, null}
use loom_bootloader.Memory.Copy.{copied}
use loom_bootloader.BlockDev.{BlockDev}
use loom_bootloader.BlockDev.Read.Stages.{Away}
use loom_bootloader.BlockDev.Read.Bytes.{IsRead}
use loom_bootloader.BlockDev.Cache.{
  Cache, entry_data, set_block, block_unset, touch, link_mru_head, lookup, filled_entry,
}
use loom_bootloader.BlockDev.Cache.Lookup.{lookup_loop-Searched, touch_mru}
use loom_bootloader.BlockDev.Cache.Slots.{Holds, Coherent, slots_end, Coherent-frame}
use loom_bootloader.BlockDev.Cache.Moves.{touch-Coherent, found-Holds}

-- The slots overlap neither the caller's buffer nor the scratch buffer.
pub record Placed (dev : BlockDev) (c : Cache) (size buf : ℕ) : Type 0 where
  pub same_size : c.block_size ≡ dev.block_size
  pub from_buf : (buf + size ≤ c.slots) ⊎ (slots_end c ≤ buf)
  pub from_scratch : (dev.scratch + 2 * dev.block_size ≤ c.slots) ⊎ (slots_end c ≤ dev.scratch)

-- What a read leaves: the bytes, unless it reports an error; a cache that agrees with the disk, in
-- the same place; and the store outside the buffers and the slots.
pub record Answered (disk : ℕ → ℕ) (dev : BlockDev) (c : Cache) (offset size buf : ℕ) (m : Memory)
    (e : LoomError) (m' : Memory) (c' : Cache) : Type 0 where
  pub bytes : e ≡ LoomError.none → (i : ℕ) → i < size → m' (buf + i) ≡ disk (offset + i)
  pub coherent : Coherent disk c' m'
  pub outside : (a : ℕ) → Away dev size buf a → (a < c.slots) ⊎ (slots_end c ≤ a) → m' a ≡ m a
  pub same_place : (c'.slots ≡ c.slots) × (c'.count ≡ c.count) × (c'.block_size ≡ c.block_size)

unfoldable pub SamePlace : Cache → Cache → Type 0
SamePlace c c' = (c'.slots ≡ c.slots) × (c'.count ≡ c.count) × (c'.block_size ≡ c.block_size)

pub touch-SamePlace : (c : Cache) (e : ℕ) → SamePlace c (touch c e)
unfolding touch link_mru_head SamePlace
touch-SamePlace c e = ground arith

-- The search, on a cache that agrees with the disk.
pub lookup-Coherent :
    (disk : ℕ → ℕ) (c : Cache) (m : Memory) (b : ℕ)
    → b ≢ block_unset
    → Coherent disk c m
    → (lookup c b ≡ ok (none, c))
      ⊎ ((e : ℕ) × ((lookup c b ≡ ok (some (entry_data c e), touch c e))
            × (c.block e ≡ b)
            × Holds disk c m e
            × Coherent disk (touch c e) m))
unfolding lookup
lookup-Coherent disk c m b set h =
    let a1 : (c.table == null) ≡ false = ground (arith, h.has_table) in
    let a2 : (c.mru == null) ≡ false = ground (arith, h.ring.allocated.0) in
    let a3 : (c.slots == null) ≡ false = ground (arith, h.has_slots) in
    let a4 : (b == block_unset) ≡ false = ground (arith, set) in
    elim (lookup_loop-Searched c.count c b c.mru h.order h.ring.chain h.ring.distinct.0 h.within) [
      | inl (q, a) ↦ inl (rw (a1, a2, a3, a4) q)
      | inr (inl (e, q)) ↦ inr (
        c.mru,
        (
          rw (a1, a2, a3, a4) q,
          e,
          h.entries.0,
          subst (λ d. Coherent disk d m) (sym (touch_mru c)) h,
        ),
      )
      | inr (inr (x, (us, (vs, (q, e, r))))) ↦ inr (
        x,
        (
          rw (a1, a2, a3, a4) r,
          e,
          found-Holds disk c m h x us vs q,
          touch-Coherent disk c m h x us vs q,
        ),
      )
    ]

module _ (disk : ℕ → ℕ) (dev : BlockDev) (c : Cache) (offset size buf : ℕ) (m : Memory)
    (placed : Placed dev c size buf) where
  -- What stands in the slots is away from the buffers.
  slots_Away : (a : ℕ) → c.slots ≤ a → a < slots_end c → Away dev size buf a
  slots_Away a lo hi = let p = placed.from_buf in let q = placed.from_scratch in ground arith

  pub uncached-Answered :
      Coherent disk c m
      → (r : LoomError × Memory) → (r.0 ≡ LoomError.none → IsRead disk dev offset size buf m r.1)
      → ((a : ℕ) → Away dev size buf a → r.1 a ≡ m a)
      → Answered disk dev c offset size buf m r.0 r.1 c
  uncached-Answered h r read out = record {
    bytes = λ e i lt. (read e).bytes i lt;
    coherent = Coherent-frame disk c m r.1 (λ a lo hi. out a (slots_Away a lo hi)) h;
    outside = λ a w k. out a w;
    same_place = (refl, refl, refl);
  }

  -- The copy from a slot that holds the block, in a store that is `m` outside the slots.
  pub copied-Answered :
      (c' : Cache) (m1 m2 : Memory) (p n : ℕ)
      → SamePlace c c'
      → Coherent disk c' m1
      → ((a : ℕ) → (a < c.slots) ⊎ (slots_end c ≤ a) → m1 a ≡ m a)
      → n ≡ size
      → ((k : ℕ) → k < size → m1 (p + k) ≡ disk (offset + k))
      → ((a : ℕ) → m2 a ≡ copied buf p n m1 a)
      → Answered disk dev c offset size buf m LoomError.none m2 c'
  unfolding SamePlace
  copied-Answered c' m1 m2 p n (s1, s2, s3) h out q slot copy =
      let span : c'.block_size * c'.count ≡ c.block_size * c.count =
        ap (λ x. x * c'.count) s3 ∙ ap (λ x. c.block_size * x) s2 in
      let apart = placed.from_buf in
      let beside : (a : ℕ) → (a < buf) ⊎ (buf + size ≤ a) → m2 a ≡ m1 a =
        λ a w. ground (arith, copy a) in
      record {
        bytes = λ e i lt.
            let at : m1 (p + (buf + i - buf)) ≡ m1 (p + i) = ap m1 (omega arith) in
            ground (arith, copy (buf + i), slot i lt);
        coherent = Coherent-frame disk c' m1 m2 (λ a lo hi. beside a (ground arith)) h;
        outside = λ a w k. beside a w.0 ∙ out a k;
        same_place = (s1, s2, s3);
      }

pub filled_entry_error :
    (lru b buf p n : ℕ) (c : Cache) (e : LoomError) (m : Memory)
    → e ≢ LoomError.none
    → filled_entry lru b buf p n c (e, m) ≡ ok (e, m, set_block c lru block_unset)
unfolding filled_entry
filled_entry_error lru b buf p n c LoomError.none m h = absurd (h refl)
filled_entry_error lru b buf p n c _ m h = refl

-- The last byte of the read lies in the block of the first.
pub same_block :
    (offset size bs : ℕ)
    → 0 < bs
    → 0 < size
    → offset / bs ≡ (offset + size - 1) / bs
    → offset % bs + size ≤ bs
same_block offset size bs pos has h =
    let first = div-add-mod' offset bs in
    let last = div-add-mod' (offset + size - 1) bs in
    let small = mod-lt (offset + size - 1) pos in let same = ap (λ x. x * bs) h in omega arith

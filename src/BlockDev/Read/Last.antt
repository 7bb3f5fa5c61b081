-- ===== src/BlockDev/Read/Last.antt =====
-- The last stage of a read, the copies out of the scratch buffer, and the bytes that a read gives.
use loom_bootloader.Base.{
  ℕ, ◌+◌, ◌-◌, ◌*◌, ◌%◌, ◌^◌, ◌≤◌, ◌<◌, ◌≡◌, ◌≢◌, ◌⊎◌, [], ◌∷◌, ◌++◌, ok, refl, arith, Bool-cases,
  inl, inr, ◌==◌, ap, ◌∙◌,
}
use loom_bootloader.Memory.{Memory, null}
use loom_bootloader.Memory.Copy.{copied, mem_copy-copied}
use loom_bootloader.BlockDev.{request, BlockDev, Plan, plan_last, copy_if}
use loom_bootloader.BlockDev.Driver.{
  fill, fill-snoc, fill_one_inside, fill_one_outside, AllPositive, AllPositive-snoc,
}
use loom_bootloader.BlockDev.Read.Stages.{Disjoint, Away, Planned}

-- A copy that is left out when there is nothing to copy.
pub copy_if-copied :
    (d s n : ℕ) (m : Memory)
    → d ≢ null
    → s ≢ null
    → (d ≤ s) ⊎ (s + n ≤ d)
    → (m' : Memory) × (copy_if d s n m ≡ ok m') × ((a : ℕ) → m' a ≡ copied d s n m a)
copy_if-copied d s n m hd hs h = elim (Bool-cases (n == 0)) [
  | inl e ↦ (m, rw e, λ a. ground arith)
  | inr e ↦ rw e (mem_copy-copied d s n m hd hs h)
]

-- What the driver leaves when every byte is planned: `copy_last` bytes stand in the second half
-- of the scratch buffer.
pub record Ready (disk : ℕ → ℕ) (dev : BlockDev) (offset size buf : ℕ) (p : Plan) : Type 0 where
  pub parts : p.mbuf + p.copy_last ≡ buf + size
  pub first_in : buf + p.copy_first ≤ p.mbuf
  pub first_block : offset % dev.block_size + p.copy_first ≤ dev.block_size
  pub last_block : p.copy_last ≤ dev.block_size
  pub positive : AllPositive p.reqs
  pub direct :
      (m : Memory) (a : ℕ)
      → buf + p.copy_first ≤ a
      → a < p.mbuf
      → fill disk dev.block_size p.reqs m a ≡ disk (offset + (a - buf))
  pub through :
      (m : Memory) (k : ℕ)
      → k < p.copy_first
      → fill disk dev.block_size p.reqs m (dev.scratch + offset % dev.block_size + k)
        ≡ disk (offset + k)
  pub at_end :
      (m : Memory) (k : ℕ)
      → k < p.copy_last
      → fill disk dev.block_size p.reqs m (dev.scratch + dev.block_size + k)
        ≡ disk (offset + (p.mbuf - buf) + k)
  pub outside :
      (m : Memory) (a : ℕ) → Away dev size buf a → fill disk dev.block_size p.reqs m a ≡ m a

module _ (disk : ℕ → ℕ) (dev : BlockDev) (offset size buf : ℕ) (pos_bs : 0 < dev.block_size)
    (fits : offset + size < 2 ^ 32) (apart : Disjoint dev size buf) where
  pub plan_last-Ready :
      (pos : ℕ) (p : Plan)
      → Planned disk dev offset size buf pos p
      → p.size < dev.block_size
      → (p' : Plan) × (plan_last dev p ≡ ok p') × Ready disk dev offset size buf p'
  unfolding plan_last
  plan_last-Ready pos p v small = elim (Bool-cases (p.size == 0)) [
    | inl e ↦ (
      p,
      rw e,
      record {
        parts = ground (arith, v.mbuf, v.rest, v.no_last);
        first_in = omega (arith, v.mbuf, v.first_in);
        first_block = v.first_block;
        last_block = omega (arith, v.no_last);
        positive = v.positive;
        direct = λ m a i j. v.direct m a i (omega (arith, v.mbuf));
        through = v.through;
        at_end = λ m k i. absurd (omega (arith, v.no_last));
        outside = v.outside;
      },
    )
    | inr e ↦
        let bs : ℕ = dev.block_size in
        let req = request p.block 1 (dev.scratch + bs) in
        let start : p.block * bs ≡ offset + pos = v.aligned (ground arith) in
        let snoc = λ (m : Memory) (a : ℕ). fill-snoc disk bs p.reqs req m a in
        let keep = λ (m : Memory) (a : ℕ). fill_one_outside disk bs req (fill disk bs p.reqs m) a in
        (
          record p { reqs = p.reqs ++ req ∷ []; copy_last = p.size },
          rw e (ground arith),
          record {
            parts = omega (arith, v.mbuf, v.rest);
            first_in = omega (arith, v.mbuf, v.first_in);
            first_block = v.first_block;
            last_block = omega arith;
            positive = AllPositive-snoc p.reqs req v.positive (omega arith);
            direct = λ m a i j.
                snoc m a
                ∙ keep m a (ground (arith, v.mbuf, v.rest))
                ∙ v.direct m a i (omega (arith, v.mbuf));
            through = λ m k i.
                snoc m (dev.scratch + offset % bs + k)
                ∙ keep m (dev.scratch + offset % bs + k) (inl (omega (arith, v.first_block)))
                ∙ v.through m k i;
            at_end = λ m k i.
                snoc m (dev.scratch + bs + k)
                ∙ fill_one_inside disk bs req (fill disk bs p.reqs m) (dev.scratch + bs + k) k refl
                    (omega arith)
                ∙ ap disk (omega (arith, v.mbuf));
            outside = λ m a i. snoc m a ∙ keep m a (ground arith) ∙ v.outside m a i;
          },
        )
  ]

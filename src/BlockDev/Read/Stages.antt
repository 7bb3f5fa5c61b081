-- ===== src/BlockDev/Read/Stages.antt =====
-- The three stages that plan a read: what the requests so far bring into the store.
use native.Mathlib.Nat.{div-add-mod', mod-lt}
use loom_bootloader.Base.{
  ℕ, ◌+◌, ◌-◌, ◌*◌, ◌/◌, ◌%◌, ◌^◌, ◌≤◌, ◌<◌, ◌≡◌, ◌⊎◌, refl, arith, Bool-cases, inl, inr, ◌==◌,
  usize, min, ap, ◌∙◌,
}
use loom_bootloader.Memory.{Memory}
use loom_bootloader.BlockDev.{request, BlockDev, Plan, start, plan_first}
use loom_bootloader.BlockDev.Driver.{fill, fill_one_inside, fill_one_outside, AllPositive}

-- The caller's buffer and the scratch buffer do not overlap.
abbrev pub Disjoint : BlockDev → (size buf : ℕ) → Type 0
Disjoint dev size buf = (buf + size ≤ dev.scratch) ⊎ (dev.scratch + 2 * dev.block_size ≤ buf)

-- `a` lies in neither of them.
abbrev pub Away : BlockDev → (size buf a : ℕ) → Type 0
Away dev size buf a =
    ((a < buf) ⊎ (buf + size ≤ a)) × ((a < dev.scratch) ⊎ (dev.scratch + 2 * dev.block_size ≤ a))

-- The first `pos` bytes are planned: `copy_first` through the scratch buffer, the others directly.
pub record Planned (disk : ℕ → ℕ) (dev : BlockDev) (offset size buf : ℕ) (pos : ℕ) (p : Plan)
    : Type 0 where
  pub mbuf : p.mbuf ≡ buf + pos
  pub rest : pos + p.size ≡ size
  pub aligned : 0 < p.size → p.block * dev.block_size ≡ offset + pos
  pub first_in : p.copy_first ≤ pos
  pub first_block : offset % dev.block_size + p.copy_first ≤ dev.block_size
  pub no_last : p.copy_last ≡ 0
  pub positive : AllPositive p.reqs
  pub direct :
      (m : Memory) (a : ℕ)
      → buf + p.copy_first ≤ a
      → a < buf + pos
      → fill disk dev.block_size p.reqs m a ≡ disk (offset + (a - buf))
  pub through :
      (m : Memory) (k : ℕ)
      → k < p.copy_first
      → fill disk dev.block_size p.reqs m (dev.scratch + offset % dev.block_size + k)
        ≡ disk (offset + k)
  pub outside :
      (m : Memory) (a : ℕ) → Away dev size buf a → fill disk dev.block_size p.reqs m a ≡ m a

module _ (disk : ℕ → ℕ) (dev : BlockDev) (offset size buf : ℕ) (pos_bs : 0 < dev.block_size)
    (fits : offset + size < 2 ^ 32) (apart : Disjoint dev size buf) where
  -- The block behind a first block that is read in part, and no wrap on the way to it.
  next_block :
      (b o : ℕ)
      → 0 < o
      → o < dev.block_size
      → b * dev.block_size + o ≡ offset
      → usize (b + 1) * dev.block_size ≡ b * dev.block_size + dev.block_size
  next_block b o h k e =
      let twice : b * 2 ≤ b * dev.block_size = grind arith in
      let exact : usize (b + 1) ≡ b + 1 = omega arith in rw exact (omega arith)

  pub plan_first-Planned :
      (pos : ℕ) × Planned disk dev offset size buf pos
        (plan_first dev offset (start dev offset size buf))
  unfolding plan_first
  plan_first-Planned =
      let whole : offset / dev.block_size * dev.block_size + offset % dev.block_size ≡ offset =
        div-add-mod' offset dev.block_size in
      let part : offset % dev.block_size < dev.block_size = mod-lt offset pos_bs in
      elim (Bool-cases (offset % dev.block_size == 0)) [
        | inl e ↦ (
          0,
          rw e (record {
            mbuf = omega arith;
            rest = omega arith;
            aligned = λ h. ground arith;
            first_in = omega arith;
            first_block = omega arith;
            no_last = refl;
            positive = tt;
            direct = λ m a i j. absurd (omega arith);
            through = λ m k i. absurd (omega arith);
            outside = λ m a i. refl;
          }),
        )
        | inr e ↦ (
          min (dev.block_size - offset % dev.block_size) size,
          rw e (record {
            mbuf = refl;
            rest = omega arith;
            aligned = λ h. omega (
              arith,
              next_block (offset / dev.block_size) (offset % dev.block_size) (ground arith) part
                  whole,
            );
            first_in = omega arith;
            first_block = omega arith;
            no_last = refl;
            positive = (omega arith, tt);
            direct = λ m a i j. absurd (omega arith);
            through = λ m k i.
                fill_one_inside disk dev.block_size
                  (request (offset / dev.block_size) 1 dev.scratch) m
                  (dev.scratch + offset % dev.block_size + k) (offset % dev.block_size + k)
                  (omega arith) (omega arith)
                ∙ ap disk (omega arith);
            outside = λ m a i.
                fill_one_outside disk dev.block_size
                  (request (offset / dev.block_size) 1 dev.scratch) m a (ground arith);
          }),
        )
      ]

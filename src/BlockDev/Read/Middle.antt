-- ===== src/BlockDev/Read/Middle.antt =====
-- The second and third stage of a read.
use native.Mathlib.Nat.{div-add-mod', mod-lt}
use loom_bootloader.Base.{
  ℕ, ◌+◌, ◌-◌, ◌*◌, ◌/◌, ◌%◌, ◌^◌, ◌≤◌, ◌<◌, ◌≡◌, true, arith, Bool-cases, inl, inr, leb, usize, ap,
  ◌∙◌,
}
use native.Mathlib.Decide.{dec_lt}
use loom_bootloader.Memory.{Memory}
use loom_bootloader.BlockDev.{request, BlockDev, Plan, plan_middle}
use loom_bootloader.BlockDev.Driver.{
  fill, fill-snoc, fill_one_inside, fill_one_outside, AllPositive-snoc,
}
use loom_bootloader.BlockDev.Read.Stages.{Disjoint, Planned}

module _ (disk : ℕ → ℕ) (dev : BlockDev) (offset size buf : ℕ) (pos_bs : 0 < dev.block_size)
    (fits : offset + size < 2 ^ 32) (apart : Disjoint dev size buf) where
  exact_block :
      (b n k : ℕ) → b * dev.block_size ≡ k → k + n * dev.block_size < 2 ^ 32 → usize (b + n) ≡ b + n
  exact_block b n k e h = let small : b + n ≤ (b + n) * dev.block_size = grind arith in omega arith

  some_block : (n : ℕ) → leb dev.block_size n ≡ true → 0 < n / dev.block_size
  some_block n h = grind (arith, div-add-mod' n dev.block_size, mod-lt n pos_bs)

  -- The whole blocks that the rest holds are read straight into the caller's buffer.
  pub plan_middle-Planned :
      (pos : ℕ) (p : Plan)
      → Planned disk dev offset size buf pos p
      → (pos' : ℕ) × Planned disk dev offset size buf pos' (plan_middle dev p)
        × ((plan_middle dev p).size < dev.block_size)
  unfolding plan_middle
  plan_middle-Planned pos p v =
      let n : ℕ = p.size / dev.block_size in
      let bs : ℕ = dev.block_size in
      let whole : n * bs + p.size % bs ≡ p.size = div-add-mod' p.size bs in
      let part : p.size % bs < bs = mod-lt p.size pos_bs in
      elim (Bool-cases (leb bs p.size)) [
        | inl e ↦
            let exact : usize (n * bs) ≡ n * bs = omega (arith, v.rest) in
            let some_left : 0 < p.size = ground arith in
            let start : p.block * bs ≡ offset + pos = v.aligned some_left in
            let block : usize (p.block + n) ≡ p.block + n =
              exact_block p.block n (offset + pos) start (omega (arith, v.rest)) in
            let req = request p.block n p.mbuf in
            let snoc = λ (m : Memory) (a : ℕ). fill-snoc disk bs p.reqs req m a in
            (
              pos + n * bs,
              rw (e, exact, block)
                  (record {
                    mbuf = omega (arith, v.mbuf);
                    rest = omega (arith, v.rest);
                    aligned = λ h. omega arith;
                    first_in = omega (arith, v.first_in);
                    first_block = v.first_block;
                    no_last = v.no_last;
                    positive = AllPositive-snoc p.reqs req v.positive (some_block p.size e);
                    direct = λ m a i j. elim (dec_lt a (buf + pos)) [
                      | yes h ↦
                          snoc m a
                          ∙ fill_one_outside disk bs req (fill disk bs p.reqs m) a
                              (inl (omega (arith, v.mbuf)))
                          ∙ v.direct m a i h
                      | no h ↦
                          snoc m a
                          ∙ fill_one_inside disk bs req (fill disk bs p.reqs m) a (a - (buf + pos))
                              (omega (arith, v.mbuf)) (omega arith)
                          ∙ ap disk (omega arith)
                    ];
                    through = λ m k i.
                        snoc m (dev.scratch + offset % bs + k)
                        ∙ fill_one_outside disk bs req (fill disk bs p.reqs m)
                            (dev.scratch + offset % bs + k)
                            (ground (arith, v.mbuf, v.rest, v.first_block))
                        ∙ v.through m k i;
                    outside = λ m a i.
                        snoc m a
                        ∙ fill_one_outside disk bs req (fill disk bs p.reqs m) a
                            (ground (arith, v.mbuf, v.rest))
                        ∙ v.outside m a i;
                  }),
              rw (e, exact) (omega arith),
            )
        | inr e ↦ (pos, rw e v, rw e (ground arith))
      ]

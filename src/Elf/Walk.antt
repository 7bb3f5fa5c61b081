-- ===== src/Elf/Walk.antt =====
-- The walk over the sections visits the addresses that `loomELF32ShdrGet` gives.
use loom_bootloader.Base.{
  ℕ, zero, suc, ◌+◌, ◌*◌, ◌<◌, ◌≡◌, some, ◌==◌, if◌then◌else◌, usize, arith, refl, sym, ◌∙◌,
}
use loom_bootloader.Memory.{Memory}
use loom_bootloader.Elf.{ehdr_at, shdr_get, iterate, shdr_iterate}

-- The calls of a hook on the entries `i`, ..., `i + n - 1`, each at its address, up to the first
-- that does not return 0.
pub calls {ℓ} : {S : Type ℓ} → (ℕ → ℕ → S → ℕ × S) → (ℕ → ℕ) → (n i : ℕ) → S → ℕ × S
calls hook at zero i s = (0, s)
calls hook at (suc n) i s =
    let (v, t) = hook i (at i) s in
    let rest = calls hook at n (suc i) t in if v == 0 then rest else (v, t)

iterate-calls {ℓ} :
    {S : Type ℓ} (hook : ℕ → ℕ → S → ℕ × S) (at : ℕ → ℕ) (base entsize n i addr : ℕ) (s : S)
    → addr ≡ usize (base + i * entsize)
    → ((k : ℕ) → k < i + n → at k ≡ usize (base + k * entsize))
    → iterate hook n i addr entsize s ≡ calls hook at n i s
unfolding iterate calls
iterate-calls hook at base entsize zero i addr s h f = refl
iterate-calls hook at base entsize (suc n) i addr s h f =
    let here = f i (omega arith) ∙ sym h in
    let next = usize (addr + entsize) in
    rw
      (
        here,
        iterate-calls hook at base entsize n (suc i) next (hook i addr s).1 (omega arith)
            (λ k lt. f k (omega arith)),
      )
      refl

section_at :
    (m : Memory) (ehdr i a : ℕ)
    → shdr_get m ehdr i ≡ some a
    → a ≡ usize (usize (ehdr + (ehdr_at m ehdr).shoff) + i * (ehdr_at m ehdr).shentsize)
unfolding shdr_get
section_at m ehdr i a h = ground arith

-- loomELF32ShdrIterate calls its hook on the sections in order, each with its index and the address
-- that loomELF32ShdrGet gives for it, until the hook returns another value than 0, which it returns.
pub shdr_iterate-calls {ℓ} :
    {S : Type ℓ} (m : Memory) (ehdr : ℕ) (hook : ℕ → ℕ → S → ℕ × S) (at : ℕ → ℕ) (s : S)
    → ((i : ℕ) → i < (ehdr_at m ehdr).shents → shdr_get m ehdr i ≡ some (at i))
    → shdr_iterate m ehdr hook s ≡ calls hook at (ehdr_at m ehdr).shents 0 s
unfolding shdr_iterate
shdr_iterate-calls m ehdr hook at s h =
    let e = ehdr_at m ehdr in
    let base = usize (ehdr + e.shoff) in
    iterate-calls hook at base e.shentsize e.shents 0 base s (omega arith)
      (λ k lt. section_at m ehdr k (at k) (h k (omega arith)))

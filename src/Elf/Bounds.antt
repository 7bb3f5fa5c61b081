-- ===== src/Elf/Bounds.antt =====
-- What the checks promise: everything read afterwards lies inside the image.
use loom_bootloader.Base.{
  ℕ, ◌+◌, ◌-◌, ◌*◌, ◌≤◌, ◌<◌, ◌≡◌, ◌≢◌, true, false, ◌||◌, ◌==◌, usize, arith, ap, ◌^◌, ◌↔◌,
}
use loom_bootloader.Error.{LoomError}
use loom_bootloader.Memory.{Memory}
use loom_bootloader.Elf.{
  Ehdr, Shdr, ehdr_at, phdr_size, shdr_size, table_overflows, bad_identity, bad_phdrs, bad_shdrs,
  ehdr_load, shdr_validate, str_tab_validate,
}

table_fits :
    (n entsize off size : ℕ) → table_overflows n entsize off size ≡ false → off + n * entsize ≤ size
unfolding table_overflows
table_fits n entsize off size h = ground arith

entry_fits :
    (n entsize off size i : ℕ)
    → off + n * entsize ≤ size
    → i < n
    → off + i * entsize + entsize ≤ size
entry_fits n entsize off size i h lt =
    let k = n - i - 1 in omega (arith, ap (λ x. x * entsize) {x = n} {y = i + 1 + k} (omega arith))

-- The tables of an image of `size` bytes lie inside it.
pub record TablesFit (e : Ehdr) (size : ℕ) : Type 0 where
  pub phdrs :
      (i : ℕ)
      → i < e.phents
      → (phdr_size ≤ e.phentsize) × (e.phoff + i * e.phentsize + e.phentsize ≤ size)
  pub shdrs :
      (i : ℕ)
      → i < e.shents
      → (shdr_size ≤ e.shentsize) × (e.shoff + i * e.shentsize + e.shentsize ≤ size)

ehdr_load-parts :
    (m : Memory) (p size : ℕ)
    → ehdr_load m p size ≡ LoomError.none
    → (bad_identity (ehdr_at m p) ≡ false)
      × (bad_phdrs (ehdr_at m p) size ≡ false)
      × (bad_shdrs (ehdr_at m p) size ≡ false)
unfolding ehdr_load
ehdr_load-parts m p size h = ground arith

identity_type : (e : Ehdr) → bad_identity e ≡ false → (e.type == 1 || e.type == 2) ≡ true
unfolding bad_identity
identity_type e h = ground arith

phdrs_fit :
    (e : Ehdr) (size i : ℕ)
    → bad_phdrs e size ≡ false
    → i < e.phents
    → (phdr_size ≤ e.phentsize) × (e.phoff + i * e.phentsize + e.phentsize ≤ size)
unfolding bad_phdrs
phdrs_fit e size i h lt = (
  ground arith,
  entry_fits e.phents e.phentsize e.phoff size i
      (table_fits e.phents e.phentsize e.phoff size (ground arith)) lt,
)

shdrs_fit :
    (e : Ehdr) (size i : ℕ)
    → bad_shdrs e size ≡ false
    → i < e.shents
    → (shdr_size ≤ e.shentsize) × (e.shoff + i * e.shentsize + e.shentsize ≤ size)
unfolding bad_shdrs
shdrs_fit e size i h lt = (
  ground arith,
  entry_fits e.shents e.shentsize e.shoff size i
      (table_fits e.shents e.shentsize e.shoff size (ground arith)) lt,
)

-- If loomELF32EhdrLoad accepts an image, every entry of its program and section header tables is
-- large enough and lies inside the image, and the image is relocatable or executable.
pub ehdr_load-TablesFit :
    (m : Memory) (p size : ℕ)
    → ehdr_load m p size ≡ LoomError.none
    → TablesFit (ehdr_at m p) size × (((ehdr_at m p).type == 1 || (ehdr_at m p).type == 2) ≡ true)
ehdr_load-TablesFit m p size h =
    let e = ehdr_at m p in
    let (identity, ph, sh) = ehdr_load-parts m p size h in
    (
      record { phdrs = λ i lt. phdrs_fit e size i ph lt; shdrs = λ i lt. shdrs_fit e size i sh lt },
      identity_type e identity,
    )

-- loomELF32ShdrValidate accepts exactly the sections that begin inside the image, whose bytes end
-- inside the address space, and inside the image unless they take no space in it.
pub shdr_validate-none_iff :
    (addr size : ℕ) (s : Shdr)
    → (shdr_validate addr size s ≡ LoomError.none) ↔ (
        (s.offset < size)
        × (addr + s.offset + s.size < 2 ^ 32)
        × ((s.type ≢ 8) → s.offset + s.size ≤ size))
unfolding shdr_validate
shdr_validate-none_iff addr size s = (λ h. ground arith, λ h. ground arith)

str_tab_validate-parts :
    (m : Memory) (ehdr size : ℕ) (s : Shdr)
    → str_tab_validate m ehdr size s ≡ LoomError.none
    → (shdr_validate ehdr size s ≡ LoomError.none)
      × (s.type ≡ 3)
      × (m (usize (usize (ehdr + s.offset) + (s.size - 1))) ≡ 0)
unfolding str_tab_validate
str_tab_validate-parts m ehdr size s h = ground arith

-- In a string table that loomELF32StrTabValidate accepts, the string at every offset ends inside
-- the table, and the table inside the image, which does not wrap around the address space.
pub str_tab_validate-IsTerminated :
    (m : Memory) (ehdr size : ℕ) (s : Shdr) (i : ℕ)
    → str_tab_validate m ehdr size s ≡ LoomError.none
    → i < s.size
    → (s.offset + s.size ≤ size)
      × (ehdr + s.offset + s.size < 2 ^ 32)
      × ((j : ℕ) × ((i ≤ j) × (j < s.size) × (m (ehdr + s.offset + j) ≡ 0)))
str_tab_validate-IsTerminated m ehdr size s i h lt =
    let (ok, table, last) = str_tab_validate-parts m ehdr size s h in
    let (valid, _) = shdr_validate-none_iff ehdr size s in
    let (inside, no_wrap, fits) = valid ok in
    (
      fits (λ nobits. absurd (omega arith)),
      no_wrap,
      (
        s.size - 1,
        (
          omega arith,
          omega arith,
          cc (
            last,
            ap m {x = usize (usize (ehdr + s.offset) + (s.size - 1))}
                {y = ehdr + s.offset + (s.size - 1)} (omega arith),
          ),
        ),
      ),
    )

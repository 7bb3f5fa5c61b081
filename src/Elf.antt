-- ===== src/Elf.antt =====
-- src/core/elf.c: the checks of a 32-bit ELF image, and the walks over its sections and
-- relocations. The image is read in place, little endian. Errors are their codes, without the
-- messages.
pub mod Bounds
pub mod Walk
mod Samples
use loom_bootloader.Base.{
  ℕ, zero, suc, ◌+◌, ◌-◌, ◌*◌, ◌/◌, Bool, true, false, ◌||◌, ◌&&◌, not, Option, none, some, ◌==◌,
  ltb, leb, if◌then◌else◌, usize, checked_add, checked_mul,
}
use loom_bootloader.Error.{LoomError}
use loom_bootloader.Memory.{Memory}

abbrev load16 : Memory → ℕ → ℕ
load16 m a = m a + m (a + 1) * 256

abbrev load32 : Memory → ℕ → ℕ
load32 m a = m a + m (a + 1) * 256 + m (a + 2) * 65536 + m (a + 3) * 16777216

-- `loom_elf32_ehdr`, the fields that are read.
pub record Ehdr : Type 0 where
  pub magic : ℕ
  pub sig0 : ℕ
  pub sig1 : ℕ
  pub sig2 : ℕ
  pub class : ℕ
  pub encoding : ℕ
  pub type : ℕ
  pub phoff : ℕ
  pub shoff : ℕ
  pub size : ℕ
  pub phentsize : ℕ
  pub phents : ℕ
  pub shentsize : ℕ
  pub shents : ℕ

pub ehdr_at : Memory → ℕ → Ehdr
ehdr_at m p = record {
  magic = m p;
  sig0 = m (p + 1);
  sig1 = m (p + 2);
  sig2 = m (p + 3);
  class = m (p + 4);
  encoding = m (p + 5);
  type = load16 m (p + 16);
  phoff = load32 m (p + 28);
  shoff = load32 m (p + 32);
  size = load16 m (p + 40);
  phentsize = load16 m (p + 42);
  phents = load16 m (p + 44);
  shentsize = load16 m (p + 46);
  shents = load16 m (p + 48);
}

-- `loom_elf32_shdr`, the fields that are read.
pub record Shdr : Type 0 where
  pub type : ℕ
  pub offset : ℕ
  pub size : ℕ
  pub link : ℕ
  pub info : ℕ
  pub entsize : ℕ

pub shdr_at : Memory → ℕ → Shdr
shdr_at m p = record {
  type = load32 m (p + 4);
  offset = load32 m (p + 16);
  size = load32 m (p + 20);
  link = load32 m (p + 24);
  info = load32 m (p + 28);
  entsize = load32 m (p + 36);
}

-- The sizes of the structures.
abbrev pub ehdr_size : ℕ
ehdr_size = 52

abbrev pub phdr_size : ℕ
phdr_size = 32

abbrev pub shdr_size : ℕ
shdr_size = 40

abbrev pub rel_size : ℕ
rel_size = 8

-- A table of `n` entries of `entsize` bytes at `off` reaches beyond `size`, or overflows.
pub table_overflows : (n entsize off size : ℕ) → Bool
table_overflows n entsize off size = elim (checked_mul n entsize) [
  | none ↦ true
  | some bytes ↦ elim (checked_add off bytes) [ none ↦ true | some end ↦ ltb size end ]
]

pub bad_identity : Ehdr → Bool
bad_identity e =
    ltb e.size ehdr_size
    || not (e.magic == 0x7f && e.sig0 == 69 && e.sig1 == 76 && e.sig2 == 70)
    || not (e.class == 1)
    || not (e.encoding == 1)
    || e.type == 0
    || e.type == 3
    || not (e.type == 1 || e.type == 2)

pub bad_phdrs : Ehdr → ℕ → Bool
bad_phdrs e size =
    not (e.phents == 0)
    && (ltb e.phentsize phdr_size || table_overflows e.phents e.phentsize e.phoff size)

pub bad_shdrs : Ehdr → ℕ → Bool
bad_shdrs e size =
    not (e.shents == 0)
    && (ltb e.shentsize shdr_size || table_overflows e.shents e.shentsize e.shoff size)

pub ehdr_load : Memory → (p size : ℕ) → LoomError
ehdr_load m p size =
    let e = ehdr_at m p in
    if ltb size ehdr_size
    then LoomError.bad_elf_ehdr
    else if bad_identity e || bad_phdrs e size || bad_shdrs e size
    then LoomError.bad_elf_ehdr
    else LoomError.none

pub shdr_validate : (addr size : ℕ) → Shdr → LoomError
shdr_validate addr size s =
    if leb size s.offset then LoomError.bad_elf_shdr else elim (checked_add s.offset s.size) [
      | none ↦ LoomError.bad_elf_shdr
      | some end ↦ elim (checked_add addr end) [
        | none ↦ LoomError.bad_elf_shdr
        | some _ ↦
            if not (s.type == 8) && ltb size (usize (s.offset + s.size))
            then LoomError.bad_elf_shdr
            else LoomError.none
      ]
    ]

pub str_tab_validate : Memory → (ehdr size : ℕ) → Shdr → LoomError
str_tab_validate m ehdr size s =
    let strtab = usize (ehdr + s.offset) in
    elim (shdr_validate ehdr size s) [
      | LoomError.none ↦
          if not (s.type == 3)
          then LoomError.bad_elf_strtab
          else if s.size == 0
          then LoomError.bad_elf_strtab
          else if not (m strtab == 0)
          then LoomError.bad_elf_strtab
          else if not (m (usize (strtab + (s.size - 1))) == 0)
          then LoomError.bad_elf_strtab
          else LoomError.none
      | e ↦ e
    ]

pub shdr_get : Memory → (ehdr shidx : ℕ) → Option ℕ
shdr_get m ehdr i =
    let e = ehdr_at m ehdr in
    if leb e.shents i then none else some (usize (usize (ehdr + e.shoff) + i * e.shentsize))

-- The loop of a walk: `n` entries from the `i`th on, `hook` called on the index and address of
-- each, until it returns another value than 0.
pub iterate {ℓ} : {S : Type ℓ} → (ℕ → ℕ → S → ℕ × S) → (n i addr entsize : ℕ) → S → ℕ × S
iterate hook zero i addr entsize s = (0, s)
iterate hook (suc n) i addr entsize s =
    let (v, t) = hook i addr s in
    let rest = iterate hook n (suc i) (usize (addr + entsize)) entsize t in
    if v == 0 then rest else (v, t)

pub shdr_iterate {ℓ} : {S : Type ℓ} → Memory → ℕ → (ℕ → ℕ → S → ℕ × S) → S → ℕ × S
shdr_iterate m ehdr hook s =
    let e = ehdr_at m ehdr in iterate hook e.shents 0 (usize (ehdr + e.shoff)) e.shentsize s

-- What `loomELF32RelIterate` gives to its hook.
pub record Rel : Type 0 where
  pub rel : ℕ
  pub symtabidx : ℕ
  pub symtab : ℕ
  pub targetidx : ℕ
  pub target : ℕ

-- `-1`, as the `u32` that an `int` is.
abbrev pub failed : ℕ
failed = 0xffffffff

pub rel_iterate_hook {ℓ} : {S : Type ℓ} → Memory → ℕ → (Rel → S → ℕ × S) → ℕ → ℕ → S → ℕ × S
rel_iterate_hook m ehdr hook shidx shdr s =
    let h = shdr_at m shdr in
    if not (h.type == 9)
    then (0, s)
    else if ltb h.entsize rel_size
    then (failed, s)
    else elim (shdr_get m ehdr h.link) [
      | none ↦ (failed, s)
      | some symtab ↦
          if not ((shdr_at m symtab).type == 2)
          then (failed, s)
          else elim (shdr_get m ehdr h.info) [
            | none ↦ (failed, s)
            | some target ↦
                iterate
                  (λ i addr t.
                    hook
                      (record {
                        rel = addr;
                        symtabidx = h.link;
                        symtab = symtab;
                        targetidx = h.info;
                        target = target;
                      })
                      t)
                  (h.size / h.entsize) 0 (usize (ehdr + h.offset)) h.entsize s
          ]
    ]

pub rel_iterate {ℓ} : {S : Type ℓ} → Memory → ℕ → (Rel → S → ℕ × S) → S → ℕ × S
rel_iterate m ehdr hook s = shdr_iterate m ehdr (rel_iterate_hook m ehdr hook) s

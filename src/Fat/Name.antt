-- ===== src/Fat/Name.antt =====
-- The names of directory entries: `fatFilenameCmp` of dirent.c, which compares a path's component
-- with an entry, and `fatAllocSFN` of name.c, which prints an entry's name. A name is its bytes by
-- index; an entry's name has eight bytes and three of extension, padded with spaces.
pub mod Print
pub mod Reads
pub mod Match
mod Samples
use loom_bootloader.Base.{
  ℕ, zero, suc, ◌+◌, ◌-◌, Bool, true, false, ◌||◌, ◌&&◌, not, ◌==◌, ltb, leb, if◌then◌else◌,
}
use loom_bootloader.Memory.{store}

abbrev pub Name : Type 0
Name = ℕ → ℕ

abbrev pub char_conv : ℕ → ℕ
char_conv ch = if leb 97 ch && leb ch 122 then ch - 32 else ch

-- `for (int i = 7; i > 0; --i, --base_size)`, from `i` on, with `base_size` one more than `i`.
pub base_size : ℕ → Name → ℕ
base_size zero d = 1
base_size (suc i) d = let rest = base_size i d in if d (suc i) == 0x20 then rest else suc (suc i)

-- `for (int i = 2; i >= 0; --i, --ext_size)`, with `ext_size` one more than `i`.
pub ext_size : ℕ → Name → ℕ
ext_size zero d = 0
ext_size (suc i) d = let rest = ext_size i d in if d (8 + i) == 0x20 then rest else suc i

-- The entry's character at `i`: a first byte 0x05 stands for 0xE5.
abbrev pub base_char : Name → ℕ → ℕ
base_char d i = if i == 0 && d i == 0x05 then 0xe5 else d i

-- The two loops of comparisons: `n` characters of the name from `i` on, of the entry from `j` on.
pub same_chars : (n i j : ℕ) → Name → Name → Bool
same_chars zero i j f d = true
same_chars (suc n) i j f d =
    let rest = same_chars n (suc i) (suc j) f d in
    if char_conv (f i) == char_conv (d j) then rest else false

-- What follows the comparison of the base, of size `b`; `e` is the size of the extension.
pub ext_cmp : (size b e : ℕ) → Name → Name → Bool
ext_cmp size b e f d =
    let ext = not (size - b == 0) && f b == 0x2e in
    let at = if ext then b + 1 else b in
    if e == 0
    then size - at == 0
    else if not ext || not (e == size - at)
    then false
    else same_chars e at 8 f d

pub filename_cmp : ℕ → Name → Name → Bool
filename_cmp size f d =
    let b = base_size 7 d in
    if size == 0 || ltb 12 size || d 0 == 0 || d 0 == 0xe5 || d 0 == 0x20
    then false
    else if ltb size b
    then false
    else if same_chars b 0 0 f (base_char d)
    then ext_cmp size b (ext_size 3 d) f d
    else false

-- `for (base_size = 8; base_size > 0; base_size--)`
pub sfn_base_size : ℕ → Name → ℕ
sfn_base_size zero d = 0
sfn_base_size (suc n) d = let rest = sfn_base_size n d in if d n == 0x20 then rest else suc n

pub sfn_ext_size : Name → ℕ
sfn_ext_size d =
    if not (d 10 == 0x20)
    then 3
    else if not (d 9 == 0x20)
    then 2
    else if not (d 8 == 0x20)
    then 1
    else 0

-- `loomMemCopy` of `n` bytes at `s` of one object to `p` of another.
pub copy_between : (p : ℕ) → Name → (s n : ℕ) → Name → Name
copy_between p src s zero b = b
copy_between p src s (suc n) b = copy_between (suc p) src (suc s) n (store p (src s) b)

-- `buf` and `size` when the name is complete but for its terminator.
pub record Sfn : Type 0 where
  pub buf : Name
  pub size : ℕ

pub sfn_base : ℕ → Name → Name
sfn_base n d = let b = copy_between 0 d 0 n (λ i. 0) in if b 0 == 0x05 then store 0 0xe5 b else b

pub alloc_sfn : Name → Sfn
alloc_sfn d =
    let n = sfn_base_size 8 d in
    let e = sfn_ext_size d in
    let b = sfn_base n d in
    if e == 0 then record { buf = store n 0 b; size = n + 1 } else record {
      buf = store (n + 1 + e) 0 (copy_between (n + 1) d 8 e (store n 0x2e b));
      size = n + 1 + e + 1;
    }

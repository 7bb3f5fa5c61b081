-- ===== src/Fat/File/Chain.antt =====
-- A file's clusters on the disk, and where its bytes stand.
use loom_bootloader.Base.{
  ℕ, suc, ◌+◌, ◌-◌, ◌*◌, ◌/◌, ◌%◌, ◌^◌, ◌≤◌, ◌<◌, ◌≡◌, arith, refl, sym, ap, ap₂, ◌∙◌, u32,
}
use native.Mathlib.Nat.{mul-add-div_right, mul-add-mod_self_right, mod-eq_of_lt, div-eq_of_lt}
use loom_bootloader.Error.{LoomError}
use loom_bootloader.Fat.{FatType, FatFs, get_cluster_limit, get_cluster_size, get_cluster_offset}
use loom_bootloader.Fat.Cluster.{Disk, next_cluster}
use loom_bootloader.Fat.Cluster.Entry.{
  Reads, Sized, Readable, table, table_entry, next_cluster-entry,
}

-- The offset on the disk of the byte `o` of the file's `j`th cluster; `cl` gives the clusters.
-- A cluster has `n` bytes.
abbrev pub cell_of : (n : ℕ) → FatFs → (ℕ → ℕ) → (j o : ℕ) → ℕ
cell_of n fs cl j o = fs.data_off + (cl j - 2) * n + o

-- The bytes of a file.
abbrev pub byte_at : (n : ℕ) → FatFs → (disk cl : ℕ → ℕ) → ℕ → ℕ
byte_at n fs d cl x = d (cell_of n fs cl (x / n) (x % n))

-- The same with the cluster size of the code.
abbrev pub cell : FatFs → (ℕ → ℕ) → (j o : ℕ) → ℕ
cell fs = cell_of (get_cluster_size fs) fs

abbrev pub byte_of : FatFs → (disk cl : ℕ → ℕ) → ℕ → ℕ
byte_of fs = byte_at (get_cluster_size fs) fs

-- Each cluster's entry in the table is the next one, as far as the file needs one; the clusters are
-- no ends of chains, and stand inside the first 4 GiB. On FAT12 the entry of a cluster that another
-- one follows begins with a byte below 128; the mark at the end of the chain is not read as one.
pub record ChainOf (n limit : ℕ) (fs : FatFs) (d : ℕ → ℕ) (size : ℕ) (cl : ℕ → ℕ) : Type 0 where
  pub sized : Sized fs
  pub positive : 0 < n
  pub fits : size < 2 ^ 32
  pub links : (i : ℕ) → suc i * n < size → cl (suc i) ≡ table_entry fs.type d (table fs) (cl i)
  pub low : (i : ℕ) → i * n < size → 2 ≤ cl i
  pub high : (i : ℕ) → i * n < size → cl i < limit
  pub placed : (i : ℕ) → i * n < size → cell_of n fs cl i n < 2 ^ 32
  pub readable : (i : ℕ) → suc i * n < size → Readable fs d (cl i)

-- The bytes of a cluster, and the least number that marks the end of a chain.
abbrev pub cluster_bytes : FatFs → ℕ
cluster_bytes fs = u32 (fs.bytes_per_sect * fs.sects_per_cluster)

abbrev pub end_mark : FatType → ℕ
end_mark FatType.fat12 = 0xff8
end_mark FatType.fat16 = 0xfff8
end_mark FatType.fat32 = 0x0ffffff8

abbrev pub FileChain : FatFs → (ℕ → ℕ) → ℕ → (ℕ → ℕ) → Type 0
FileChain fs = ChainOf (cluster_bytes fs) (end_mark fs.type) fs

pub cluster_bytes-size : (fs : FatFs) → get_cluster_size fs ≡ cluster_bytes fs
unfolding get_cluster_size
cluster_bytes-size fs = refl

pub end_mark-limit : (t : FatType) → get_cluster_limit t ≡ end_mark t
unfolding get_cluster_limit
end_mark-limit FatType.fat12 = refl
end_mark-limit FatType.fat16 = refl
end_mark-limit FatType.fat32 = refl

pub limit_fits : (t : FatType) → get_cluster_limit t < 2 ^ 28
unfolding get_cluster_limit
limit_fits FatType.fat12 = omega arith
limit_fits FatType.fat16 = omega arith
limit_fits FatType.fat32 = omega arith

-- The cluster of a byte, and its place there.
pub place-div : (x j o n : ℕ) → x ≡ j * n + o → o < n → x / n ≡ j
place-div x j o n e lt =
    ap (λ y. y / n) e ∙ mul-add-div_right (omega arith) j o ∙ omega (arith, div-eq_of_lt lt)

pub place-mod : (x j o n : ℕ) → x ≡ j * n + o → o < n → x % n ≡ o
place-mod x j o n e lt = ap (λ y. y % n) e ∙ mul-add-mod_self_right j n o ∙ mod-eq_of_lt lt

pub byte_of-cell :
    (fs : FatFs) (d cl : ℕ → ℕ) (x j o : ℕ)
    → x ≡ j * get_cluster_size fs + o
    → o < get_cluster_size fs
    → byte_of fs d cl x ≡ d (cell fs cl j o)
byte_of-cell fs d cl x j o e lt = ap d (
    ap₂ (cell fs cl) (place-div x j o (get_cluster_size fs) e lt)
      (place-mod x j o (get_cluster_size fs) e lt))

module _ (fs : FatFs) (d : ℕ → ℕ) (size : ℕ) (cl : ℕ → ℕ)
    (h : ChainOf (get_cluster_size fs) (get_cluster_limit fs.type) fs d size cl) where
  pub cluster_offset-cell :
      (i : ℕ) → i * get_cluster_size fs < size → get_cluster_offset (cl i) fs ≡ cell fs cl i 0
  unfolding get_cluster_offset
  cluster_offset-cell i lt =
      let two = h.low i lt in
      let high = h.high i lt in
      let most = limit_fits fs.type in
      let last = h.placed i lt in
      let from : u32 (cl i + 2 ^ 32 - 2) ≡ cl i - 2 = omega arith in rw from (omega arith)

  pub next-links :
      (disk : Disk) (i n : ℕ)
      → Reads disk d
      → suc i * get_cluster_size fs < size
      → next_cluster disk (cl i) fs ≡ (LoomError.none, n)
      → n ≡ cl (suc i)
  next-links disk i n reads lt e =
      next_cluster-entry disk d (cl i) n fs h.sized reads (h.readable i lt) e ∙ sym (h.links i lt)

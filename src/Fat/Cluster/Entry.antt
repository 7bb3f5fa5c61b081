-- ===== src/Fat/Cluster/Entry.antt =====
-- The next cluster is the entry of the table that the format defines.
use loom_bootloader.Base.{
  ℕ, ◌+◌, ◌*◌, ◌/◌, ◌%◌, ◌^◌, ◌<◌, ◌≡◌, true, ◌||◌, ◌==◌, if◌then◌else◌, bit_or, u32, arith, refl,
  ap, ◌∙◌, ◌≢◌,
}
use loom_bootloader.Base.Bits.{bit_or_sum, bit_or_comm}
use loom_bootloader.Error.{LoomError}
use loom_bootloader.Fat.{FatType, FatFs}
use loom_bootloader.Fat.Cluster.{
  Disk, decode12, on_read, next_cluster12, entry_offset, next_cluster_of, next_cluster,
}

-- The disk that a device reads: the bytes of a read without an error.
unfoldable pub Reads : Disk → (ℕ → ℕ) → Type 0
Reads disk d =
    (o n : ℕ) (p : ℕ → ℕ) → disk o n ≡ (LoomError.none, p) → (i : ℕ) → i < n → p i ≡ d (o + i)

-- Where the first table begins.
abbrev pub table : FatFs → ℕ
table fs = fs.reserved_sects * fs.bytes_per_sect

-- The table's entry of a cluster, of 12, 16 or 32 bits; the last has four bits that are reserved.
unfoldable pub table_entry : FatType → (ℕ → ℕ) → (base cluster : ℕ) → ℕ
table_entry FatType.fat12 d b c =
    let o = b + (c + c / 2) in
    if c % 2 == 0 then d o + d (o + 1) % 16 * 256 else d o / 16 + d (o + 1) * 16
table_entry FatType.fat16 d b c = d (b + c * 2) + d (b + c * 2 + 1) * 256
table_entry FatType.fat32 d b c =
    let o = b + c * 4 in (d o + d (o + 1) * 256 + d (o + 2) * 65536 + d (o + 3) * 16777216) % 2 ^ 28

-- A sector size and reserved sectors that `fatFsProbe` accepts.
pub record Sized (fs : FatFs) : Type 0 where
  pub sector :
      (fs.bytes_per_sect == 512
        || fs.bytes_per_sect == 1024
        || fs.bytes_per_sect == 2048
        || fs.bytes_per_sect == 4096)
      ≡ true
  pub reserved : fs.reserved_sects < 2 ^ 16

entry_offset-two :
    (c : ℕ) (fs : FatFs) → Sized fs → c < 2 ^ 16 → entry_offset c 2 fs ≡ table fs + c * 2
unfolding entry_offset
entry_offset-two c fs h lt = let s = h.sector in let r = h.reserved in ground arith

entry_offset-four :
    (c : ℕ) (fs : FatFs) → Sized fs → c < 2 ^ 28 → entry_offset c 4 fs ≡ table fs + c * 4
unfolding entry_offset
entry_offset-four c fs h lt = let s = h.sector in let r = h.reserved in ground arith

offset12 :
    (c : ℕ) (fs : FatFs)
    → Sized fs
    → c < 2 ^ 16
    → u32 (
        u32 (fs.reserved_sects + u32 (c * 12) / 8 / fs.bytes_per_sect) * fs.bytes_per_sect
        + u32 (c * 12) / 8 % fs.bytes_per_sect)
      ≡ table fs + (c + c / 2)
offset12 c fs h lt = let s = h.sector in let r = h.reserved in ground arith

decode12_lem :
    (c a b : ℕ) (p : ℕ → ℕ)
    → p 0 ≡ a
    → p 1 ≡ b
    → a < 128
    → b < 256
    → decode12 c p ≡ (if c % 2 == 0 then a + b % 16 * 256 else a / 16 + b * 16)
decode12_lem c a b p ha hb la lb =
    rw (ha, hb)
      (ground (
        arith,
        bit_or_comm a (b * 256),
        bit_or_sum 8 b a (omega arith),
        ap (bit_or a) {x = b * 256 % 2 ^ 16} {y = b * 256} (omega arith),
      ))

on_read-none :
    (r : LoomError × (ℕ → ℕ)) (f : (ℕ → ℕ) → ℕ) (n : ℕ)
    → on_read r f ≡ (LoomError.none, n)
    → (p : ℕ → ℕ) × ((r ≡ (LoomError.none, p)) × (n ≡ f p))
unfolding on_read
on_read-none (LoomError.none, p) f n h = (p, (refl, ground arith))
on_read-none (e, p) f n h = absurd (ground arith)

-- The bytes of a read that is decoded.
read_bytes :
    (disk : Disk) (d : ℕ → ℕ) (o o' k n : ℕ) (f : (ℕ → ℕ) → ℕ)
    → Reads disk d
    → o ≡ o'
    → on_read (disk o k) f ≡ (LoomError.none, n)
    → (p : ℕ → ℕ) × ((n ≡ f p) × ((i : ℕ) → i < k → p i ≡ d (o' + i)))
unfolding Reads
read_bytes disk d o o' k n f r q h =
    let (p, (e, v)) = on_read-none (disk o k) f n h in
    (p, (v, λ i lt. r o k p e i lt ∙ ap d {x = o + i} {y = o' + i} (omega arith)))

-- Bytes are less than 256, and on FAT12 the first byte of the cluster's entry is less than 128: it
-- is read into a `char`, which is signed.
pub record Readable (fs : FatFs) (d : ℕ → ℕ) (c : ℕ) : Type 0 where
  pub bytes : (a : ℕ) → d a < 256
  pub first : fs.type ≡ FatType.fat12 → d (table fs + (c + c / 2)) < 128
  pub narrow : c < 2 ^ 28
  pub narrow16 : fs.type ≢ FatType.fat32 → c < 2 ^ 16

next12-entry :
    (disk : Disk) (d : ℕ → ℕ) (c n : ℕ) (fs : FatFs)
    → Sized fs
    → Reads disk d
    → c < 2 ^ 16
    → ((a : ℕ) → d a < 256)
    → d (table fs + (c + c / 2)) < 128
    → next_cluster12 disk c fs ≡ (LoomError.none, n)
    → n ≡ table_entry FatType.fat12 d (table fs) c
unfolding next_cluster12 table_entry
next12-entry disk d c n fs h f lt bytes first e =
    let o = table fs + (c + c / 2) in
    let (p, (v, q)) = read_bytes disk d _ o 2 n (decode12 c) f (offset12 c fs h lt) e in
    v
    ∙ decode12_lem c (d o) (d (o + 1)) p
        (q 0 (omega arith) ∙ ap d {x = o + 0} {y = o} (omega arith)) (q 1 (omega arith)) first
        (bytes (o + 1))

next16-entry :
    (disk : Disk) (d : ℕ → ℕ) (c n : ℕ) (fs : FatFs)
    → Sized fs
    → Reads disk d
    → c < 2 ^ 16
    → next_cluster_of FatType.fat16 disk c fs ≡ (LoomError.none, n)
    → n ≡ table_entry FatType.fat16 d (table fs) c
unfolding next_cluster_of table_entry
next16-entry disk d c n fs h f lt e =
    let o = table fs + c * 2 in
    let (p, (v, q)) =
      read_bytes disk d _ o 2 n (λ p. p 0 + p 1 * 256) f (entry_offset-two c fs h lt) e in
    ground (arith, q 0 (omega arith), q 1 (omega arith), ap d {x = o + 0} {y = o} (omega arith))

next32-entry :
    (disk : Disk) (d : ℕ → ℕ) (c n : ℕ) (fs : FatFs)
    → Sized fs
    → Reads disk d
    → c < 2 ^ 28
    → next_cluster_of FatType.fat32 disk c fs ≡ (LoomError.none, n)
    → n ≡ table_entry FatType.fat32 d (table fs) c
unfolding next_cluster_of table_entry
next32-entry disk d c n fs h f lt e =
    let o = table fs + c * 4 in
    let (p, (v, q)) =
      read_bytes disk d _ o 4 n (λ p. (p 0 + p 1 * 256 + p 2 * 65536 + p 3 * 16777216) % 2 ^ 28) f
        (entry_offset-four c fs h lt) e in
    ground (
      arith,
      q 0 (omega arith),
      q 1 (omega arith),
      q 2 (omega arith),
      q 3 (omega arith),
      ap d {x = o + 0} {y = o} (omega arith),
    )

next-entry :
    (t : FatType) (disk : Disk) (d : ℕ → ℕ) (c n : ℕ) (fs : FatFs)
    → fs.type ≡ t
    → Sized fs
    → Reads disk d
    → Readable fs d c
    → next_cluster_of t disk c fs ≡ (LoomError.none, n)
    → n ≡ table_entry t d (table fs) c
unfolding next_cluster_of
next-entry FatType.fat12 disk d c n fs t h f r e =
    next12-entry disk d c n fs h f (r.narrow16 (λ q. absurd (ground arith))) r.bytes (r.first t) e
next-entry FatType.fat16 disk d c n fs t h f r e =
    next16-entry disk d c n fs h f (r.narrow16 (λ q. absurd (ground arith))) e
next-entry FatType.fat32 disk d c n fs t h f r e = next32-entry disk d c n fs h f r.narrow e

-- If fatNextCluster reports no error, the cluster it finds is the entry of the first table for the
-- cluster asked for, on all three types. The sector size and the reserved sectors are some that
-- fatFsProbe accepts, cluster numbers fit the type, and on FAT12 the first byte of the entry is
-- less than 128.
pub next_cluster-entry :
    (disk : Disk) (d : ℕ → ℕ) (c n : ℕ) (fs : FatFs)
    → Sized fs
    → Reads disk d
    → Readable fs d c
    → next_cluster disk c fs ≡ (LoomError.none, n)
    → n ≡ table_entry fs.type d (table fs) c
unfolding next_cluster
next_cluster-entry disk d c n fs h f r e = next-entry fs.type disk d c n fs refl h f r e

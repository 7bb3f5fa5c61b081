-- ===== src/BlockDev/Cache/Slots.antt =====
-- Where the blocks of a cache stand, and what it is for a cache to agree with the disk.
use loom_bootloader.Base.{
  ℕ, ◌+◌, ◌-◌, ◌*◌, ◌/◌, ◌≤◌, ◌<◌, ◌≡◌, ◌≢◌, List, ◌∷◌, length, arith, ap, sym, ◌∙◌, ◌⊎◌, inl, inr,
}
use native.Mathlib.Decide.{dec_lt, ℕ_discrete}
use loom_bootloader.Memory.{Memory, null}
use loom_bootloader.LinkedList.{update}
use loom_bootloader.LinkedList.Chain.{IsList}
use loom_bootloader.BlockDev.Cache.{Cache, entry_data, block_unset, set_block}
use loom_bootloader.BlockDev.Cache.Ring.{All, All-map}

abbrev pub IsEntry : Cache → ℕ → Type 0
IsEntry c e = (i : ℕ) × ((i < c.count) × (e ≡ c.table + 16 * i))

-- The entry holds no block, or its slot holds the bytes of its block.
pub record Holds (disk : ℕ → ℕ) (c : Cache) (m : Memory) (e : ℕ) : Type 0 where
  pub entry : IsEntry c e
  pub bytes :
      c.block e ≢ block_unset
      → (k : ℕ) → k < c.block_size
      → m (entry_data c e + k) ≡ disk (c.block e * c.block_size + k)

-- A cache in use: a ring through its entries, each of which agrees with the disk.
pub record Coherent (disk : ℕ → ℕ) (c : Cache) (m : Memory) : Type 0 where
  pub order : List ℕ
  pub ring : IsList c.links c.mru order
  pub entries : All (Holds disk c m) (c.mru ∷ order)
  pub within : length order < c.count
  pub has_table : c.table ≢ null
  pub has_slots : c.slots ≢ null

product_step : (b i j : ℕ) → i < j → b * i + b ≤ b * j
product_step b i j h =
    let d = j - i - 1 in omega (arith, ap (λ x. b * x) {x = j} {y = i + 1 + d} (omega arith))

abbrev pub slots_end : Cache → ℕ
slots_end c = c.slots + c.block_size * c.count

pub slot_inside :
    (c : Cache) (e k : ℕ)
    → IsEntry c e
    → k < c.block_size
    → (c.slots ≤ entry_data c e + k) × (entry_data c e + k < slots_end c)
slot_inside c e k (i, (lt, q)) h =
    let n : (e - c.table) / 16 ≡ i = omega arith in
    let top = product_step c.block_size i c.count lt in
    let same = ap (λ x. c.block_size * x) n in omega arith

-- The slots of two entries do not overlap.
pub slots_apart :
    (c : Cache) (e e' : ℕ)
    → IsEntry c e
    → IsEntry c e'
    → e ≢ e'
    → (entry_data c e + c.block_size ≤ entry_data c e')
      ⊎ (entry_data c e' + c.block_size ≤ entry_data c e)
slots_apart c e e' (i, (lt, q)) (j, (lt', q')) ne =
    let n : (e - c.table) / 16 ≡ i = omega arith in
    let n' : (e' - c.table) / 16 ≡ j = omega arith in
    let same = ap (λ x. c.block_size * x) n in
    let same' = ap (λ x. c.block_size * x) n' in
    elim (dec_lt i j) [
      | yes l ↦ let s = product_step c.block_size i j l in inl (omega arith)
      | no l ↦ elim (dec_lt j i) [
        | yes l' ↦ let s = product_step c.block_size j i l' in inr (omega arith)
        | no l' ↦ absurd (ne (omega arith))
      ]
    ]

beside :
    (c : Cache) (x e k : ℕ)
    → IsEntry c x
    → IsEntry c e
    → e ≢ x
    → k < c.block_size
    → (entry_data c e + k < entry_data c x) ⊎ (entry_data c x + c.block_size ≤ entry_data c e + k)
beside c x e k h h' ne lt = elim (slots_apart c x e h h' (λ q. ne (sym q))) [
  | inl before ↦ inr (omega arith)
  | inr behind ↦ inl (omega arith)
]

-- A slot that is filled anew, or given up: the store changes in that slot alone.
pub slot_changed :
    (disk : ℕ → ℕ) (c : Cache) (m m' : Memory) (x v e : ℕ)
    → IsEntry c x
    → (v ≢ block_unset
        → (k : ℕ) → k < c.block_size
        → m' (entry_data c x + k) ≡ disk (v * c.block_size + k))
    → ((a : ℕ) → (a < entry_data c x) ⊎ (entry_data c x + c.block_size ≤ a) → m' a ≡ m a)
    → Holds disk c m e
    → Holds disk (set_block c x v) m' e
slot_changed disk c m m' x v e is new same h = elim (ℕ_discrete e x) [
  | yes q ↦ record {
    entry = h.entry;
    bytes = λ set k lt.
        let b : update c.block x v e ≡ v = ground arith in
        ap (λ y. m' (entry_data c y + k)) q
        ∙ new (λ u. set (b ∙ u)) k lt
        ∙ ap (λ y. disk (y * c.block_size + k)) (sym b);
  }
  | no q ↦ record {
    entry = h.entry;
    bytes = λ set k lt.
        let b : update c.block x v e ≡ c.block e = ground arith in
        same (entry_data c e + k) (beside c x e k is h.entry q lt)
        ∙ h.bytes (λ u. set (b ∙ u)) k lt
        ∙ ap (λ y. disk (y * c.block_size + k)) (sym b);
  }
]

-- Bytes outside the slots do not matter.
pub Holds-frame :
    (disk : ℕ → ℕ) (c : Cache) (m m' : Memory) (e : ℕ)
    → ((a : ℕ) → c.slots ≤ a → a < slots_end c → m' a ≡ m a)
    → Holds disk c m e
    → Holds disk c m' e
Holds-frame disk c m m' e f h = record {
  entry = h.entry;
  bytes = λ set k lt.
      let (lo, hi) = slot_inside c e k h.entry lt in
      f (entry_data c e + k) lo hi ∙ h.bytes set k lt;
}

pub Coherent-frame :
    (disk : ℕ → ℕ) (c : Cache) (m m' : Memory)
    → ((a : ℕ) → c.slots ≤ a → a < slots_end c → m' a ≡ m a)
    → Coherent disk c m
    → Coherent disk c m'
Coherent-frame disk c m m' f h = record {
  order = h.order;
  ring = h.ring;
  entries =
      All-map (Holds disk c m) (Holds disk c m') (c.mru ∷ h.order)
        (λ e. Holds-frame disk c m m' e f) h.entries;
  within = h.within;
  has_table = h.has_table;
  has_slots = h.has_slots;
}

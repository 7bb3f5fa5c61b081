-- ===== src/Partition/Range.antt =====
-- The requests that reach the parent lie inside the partition.
use loom_bootloader.Base.{
  ◌+◌, ◌≤◌, ◌<◌, ◌≡◌, ◌≢◌, List, [], ◌∷◌, none, some, ok, arith, refl, ◌==◌, map, false, inl, inr,
  Option-cases, u64,
}
use mathlib.Core.Path.{subst}
use loom_bootloader.Error.{LoomError}
use loom_bootloader.BlockDev.{IoReq}
use loom_bootloader.BlockDev.Driver.{AllPositive}
use loom_bootloader.Partition.{Partition, forward, fail, check_range, cons_request, translate}

-- A request for blocks of the parent that the partition owns.
abbrev pub Within : Partition → IoReq → Type 0
Within part q =
    (part.offset ≤ q.block)
    × (q.block + q.count ≤ part.offset + part.blocks)
    × (q.block + q.count ≤ part.parent.blocks)

abbrev pub AllWithin : Partition → List IoReq → Type 0
AllWithin part [] = Unit {0}
AllWithin part (q ∷ qs) = Within part q × AllWithin part qs

-- A request that passes the tests is moved without a wrap, into the partition.
pub check_range-Within :
    (part : Partition) (r : IoReq)
    → 0 < r.count
    → check_range part r ≡ none
    → (u64 (r.block + part.offset) ≡ r.block + part.offset)
      × Within part (record r { block = r.block + part.offset })
unfolding check_range
check_range-Within part r h e = ground arith

abbrev pub moved : Partition → IoReq → IoReq
moved part r = record r { block = r.block + part.offset }

check_range-error :
    (part : Partition) (r : IoReq) (e : LoomError)
    → check_range part r ≡ some e
    → e ≢ LoomError.none
unfolding check_range
check_range-error part r e h z = ground arith

-- The loop's two results on requests for a block at least.
pub data Outcome (part : Partition) (rs : List IoReq) : Type 0 where
  forwards :
      translate part rs ≡ ok (forward (map (moved part) rs))
      → AllWithin part (map (moved part) rs)
      → Outcome part rs
  fails : (e : LoomError) → e ≢ LoomError.none → translate part rs ≡ ok (fail e) → Outcome part rs

pub translate-Outcome : (part : Partition) (rs : List IoReq) → AllPositive rs → Outcome part rs
unfolding translate cons_request
translate-Outcome part [] h = forwards refl tt
translate-Outcome part (r ∷ rs) h =
    let b : (r.count == 0) ≡ false = ground arith in
    elim (Option-cases (check_range part r)) [
      | inl e ↦
          let (same, within) = check_range-Within part r h.0 e in
          elim (translate-Outcome part rs h.1) [
            | forwards t w ↦ forwards (rw (b, e, t, same)) (within, w)
            | fails x ne t ↦ fails x ne (rw (b, e, t))
          ]
      | inr (x, e) ↦ fails x (check_range-error part r x e) (rw (b, e))
    ]

-- The requests that `loomPartitionRead` hands to its parent lie inside the partition and inside
-- the parent, if each is for a block at least.
pub translate-AllWithin :
    (part : Partition) (rs qs : List IoReq)
    → AllPositive rs
    → translate part rs ≡ ok (forward qs)
    → AllWithin part qs
translate-AllWithin part rs qs h e = elim (translate-Outcome part rs h) [
  | forwards t w ↦ subst (AllWithin part) (cc) w
  | fails x ne t ↦ absurd (cc)
]

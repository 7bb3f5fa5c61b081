-- ===== src/BlockDev/Cache/Lookup.antt =====
-- The search for a block's entry, and the ring it leaves.
use loom_bootloader.Base.{
  ℕ, zero, suc, ◌<◌, ◌≡◌, ◌≢◌, List, [], ◌∷◌, ◌++◌, length, Option, none, some, Exec, ok, arith,
  refl, sym, ap, ◌⊎◌, inl, inr, Bool-cases, ◌==◌,
}
use loom_bootloader.LinkedList.{insert_before, unlink}
use loom_bootloader.LinkedList.Chain.{Outside, Chain, IsList, Outside-right}
use loom_bootloader.BlockDev.Cache.{Cache, entry_data, touch, link_mru_head, lookup_loop}
use loom_bootloader.BlockDev.Cache.Ring.{All, touched}
use mathlib.Core.Path.{subst}

abbrev pub Result : Type 0
Result = Exec (Option ℕ × Cache)

abbrev pub found : Cache → ℕ → Result
found c e = ok (some (entry_data c e), touch c e)

-- No entry holds the block, or `e` does, or one of the entries behind it.
abbrev pub Searched : Cache → (block e : ℕ) → List ℕ → Result → Type 0
Searched c b e zs r =
    ((r ≡ ok (none, c)) × All (λ x. c.block x ≢ b) (e ∷ zs))
    ⊎ (((c.block e ≡ b) × (r ≡ found c e))
        ⊎ ((x : ℕ) × ((us : List ℕ) × ((vs : List ℕ) × ((zs ≡ us ++ x ∷ vs)
                  × (c.block x ≡ b)
                  × (r ≡ found c x))))))

later :
    (c : Cache) (b e z : ℕ) (zs : List ℕ) (r : Result)
    → c.block e ≢ b
    → Searched c b z zs r
    → Searched c b e (z ∷ zs) r
later c b e z zs r h (inl (q, a)) = inl (q, (h, a))
later c b e z zs r h (inr (inl (q, f))) = inr (inr (z, ([], (zs, (refl, q, f)))))
later c b e z zs r h (inr (inr (x, (us, (vs, (q, k, f)))))) =
    inr (inr (x, (z ∷ us, (vs, (ap (λ l. z ∷ l) q, k, f)))))

pub lookup_loop-Searched :
    (fuel : ℕ) (c : Cache) (b e : ℕ) (zs : List ℕ)
    → Chain c.links e zs c.mru
    → Outside c.mru zs
    → length zs < fuel
    → Searched c b e zs (lookup_loop fuel c b e)
unfolding lookup_loop
lookup_loop-Searched zero c b e zs h o lt = absurd (omega arith)
lookup_loop-Searched (suc f) c b e [] h o lt = elim (Bool-cases (c.block e == b)) [
  | inl q ↦ inr (inl (ground arith, ground arith))
  | inr q ↦ inl (ground (arith, h.0), (ground arith, tt))
]
lookup_loop-Searched (suc f) c b e (z ∷ zs) h o lt = elim (Bool-cases (c.block e == b)) [
  | inl q ↦ inr (inl (ground arith, ground arith))
  | inr q ↦
      let rest = lookup_loop-Searched f c b z zs h.2 o.1 (omega arith) in
      let step : lookup_loop (suc f) c b e ≡ lookup_loop f c b z =
        ground (arith, h.0, o.0, ap (lookup_loop f c b) h.0) in
      subst (Searched c b e (z ∷ zs)) (sym step)
        (later c b e z zs (lookup_loop f c b z) (ground arith) rest)
]

-- The ring that a use of an entry leaves holds the same entries, that one first.
pub touch-IsList :
    (c : Cache) (e : ℕ) (ys zs : List ℕ)
    → IsList c.links c.mru (ys ++ e ∷ zs)
    → (touch c e ≡ record c { links = insert_before c.mru e (unlink e c.links); mru = e })
      × IsList (insert_before c.mru e (unlink e c.links)) e (c.mru ∷ ys ++ zs)
unfolding touch link_mru_head
touch-IsList c e ys zs v =
    let apart = (Outside-right c.mru ys (e ∷ zs) v.distinct.0).0 in
    let there = v.allocated.0 in (ground arith, touched c.links c.mru e ys zs v)

pub touch_mru : (c : Cache) → touch c c.mru ≡ c
unfolding touch
touch_mru c = ground arith

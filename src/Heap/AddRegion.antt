-- ===== src/Heap/AddRegion.antt =====
-- loomHeapAddRegion: a range of memory becomes arenas, without the bytes of the boot module.
use loom_bootloader.Base.{
  ℕ, zero, suc, ◌+◌, ◌-◌, ◌*◌, ◌/◌, [], ◌∷◌, Bool, ◌&&◌, ◌||◌, ltb, if◌then◌else◌, Exec, ok, hang,
  ◌>>=◌, none, some, checked_sub, usize, usize_max,
}
use loom_bootloader.Memory.{store}
use loom_bootloader.Heap.{
  Words, c_prev_size, c_size, f_prev, f_next, a_length, a_freelist, a_next, set_magic,
}
use loom_bootloader.Heap.Tiles.{spare}
use loom_bootloader.Heap.Alloc.{Region}

-- The new arena at `addr`, the first of the list; its one chunk is free.
abbrev pub new_arena : (addr length arenas : ℕ) → Words → Words
new_arena addr n arenas w = set_magic addr (
    store (a_next addr) arenas (
      store (a_freelist addr) (addr + 16) (
        store (a_length addr) n (
          store (f_next (addr + 16)) 0 (
            store (f_prev (addr + 16)) 0
              (store (c_size (addr + 16)) (n - 16) (store (c_prev_size (addr + 16)) 1 w)))))))

abbrev pub fresh : (addr length : ℕ) → Region
fresh addr n = record {
  at = addr;
  length = n;
  chunks = spare (n - 16) ∷ [];
  list = (addr + 16) ∷ [];
}

-- What loomHeapAddRegion gives: the head of the list of arenas, and the store.
abbrev pub Added : Type 0
Added = Exec (ℕ × Words)

abbrev pub clipped : (addr length : ℕ) → ℕ
clipped addr n = if ltb (usize_max - n) addr then usize_max - addr else n

abbrev pub goes_over : (cut addr end : ℕ) → Bool
goes_over cut addr end = ltb addr cut && ltb cut end

-- The aligned range; `again` is the function itself.
abbrev pub add_aligned :
    ((addr length arenas : ℕ) → Words → Added)
    → (modbase modend addr length arenas : ℕ) → Words
    → Added
add_aligned again modbase modend addr n p w = do
  (p1, w1) ←
      if goes_over modbase addr (usize (addr + n))
      then again addr (modbase - addr) p w
      else ok (p, w)
  (p2, w2) ←
      if goes_over modend addr (usize (addr + n))
      then again modend (usize (addr + n) - modend) p1 w1
      else ok (p1, w1)
  if (goes_over modbase addr (usize (addr + n)) || goes_over modend addr (usize (addr + n)))
        || ltb n 32
      then ok (p2, w2)
      else ok (addr, new_arena addr n p2 w2)

abbrev pub add_clipped :
    ((addr length arenas : ℕ) → Words → Added)
    → (modbase modend addr length arenas : ℕ) → Words
    → Added
add_clipped again modbase modend addr n p w =
    if ltb (usize_max - 7) addr
    then ok (p, w)
    else elim (checked_sub n ((addr + 7) / 8 * 8 - addr)) [
      | none ↦ ok (p, w)
      | some l ↦ add_aligned again modbase modend ((addr + 7) / 8 * 8) (l / 8 * 8) p w
    ]

-- `modbase` is the global, `modend` what loomModEndGet returns.
unfoldable pub heap_add_region : (fuel modbase modend addr length arenas : ℕ) → Words → Added
heap_add_region zero modbase modend addr n p w = hang
heap_add_region (suc k) modbase modend addr n p w =
    add_clipped (heap_add_region k modbase modend) modbase modend addr (clipped addr n) p w

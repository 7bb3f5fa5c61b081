-- ===== src/Heap/Alloc.antt =====
-- loomAlloc over all arenas of the heap.
use loom_bootloader.Base.{
  ℕ, zero, suc, ◌+◌, ◌*◌, ◌/◌, ◌%◌, ◌≤◌, ◌<◌, ◌^◌, ◌≡◌, List, [], ◌∷◌, ◌++◌, arith, refl, sym, ap,
  ◌∙◌, ◌⊎◌, inl, inr, true, false, ◌==◌, ltb, leb, Exec, ok, none, some, length, Bool-cases, ==_iff,
}
use mathlib.Core.Path.{subst}
use mathlib.Core.List.Perm
use loom_bootloader.Heap.{
  Words, c_size, a_length, a_freelist, a_magic, a_next, magic_of, size_of, in_use, chunk_size_for,
  alloc_in, alloc,
}
use loom_bootloader.Heap.Tiles.{Chunk, spare, stop, frees, Each-Perm}
use loom_bootloader.Heap.Arena.{IsArena, IsArena-frame, IsArena-large}
use loom_bootloader.Heap.Hole.{Beyond}
use loom_bootloader.Heap.Split.{carve}
use loom_bootloader.Heap.Search.{NoFit, spare_words, none_fits, first_fit_lem, Served, arena-Served}

-- An arena of the heap: where it is, its size, its chunks and its list of free chunks.
pub record Region : Type 0 where
  pub at : ℕ
  pub length : ℕ
  pub chunks : List Chunk
  pub list : List ℕ

abbrev pub All : (Region → Type 0) → List Region → Type 0
All P [] = Unit {0}
All P (g ∷ gs) = P g × All P gs

abbrev pub Disjoint : Region → Region → Type 0
Disjoint g r = (g.at + g.length ≤ r.at) ⊎ (r.at + r.length ≤ g.at)

-- The list of arenas from `p` on.
unfoldable pub IsHeap : Words → ℕ → List Region → Type 0
IsHeap w p [] = p ≡ 0
IsHeap w p (g ∷ gs) =
    (p ≡ g.at)
    × (w (a_length g.at) ≡ g.length)
    × IsArena w g.at g.chunks g.list
    × All (Disjoint g) gs
    × IsHeap w (w (a_next g.at)) gs

-- A store with the same cells in these arenas.
abbrev pub Alike : Words → Words → Region → Type 0
Alike w w' g = (q : ℕ) → g.at ≤ q → q < g.at + g.length → w' q ≡ w q

pub region_frame :
    (w w' : Words) (g : Region)
    → w (a_length g.at) ≡ g.length
    → IsArena w g.at g.chunks g.list
    → Alike w w' g
    → (w' (a_length g.at) ≡ g.length)
      × IsArena w' g.at g.chunks g.list
      × (w' (a_next g.at) ≡ w (a_next g.at))
region_frame w w' g len h same =
    let large = IsArena-large w g.at g.chunks g.list h in
    (
      same g.at (omega arith) (omega arith) ∙ len,
      IsArena-frame w w' g.at g.chunks g.list h (λ q lo hi. same q lo (omega arith)),
      same (g.at + 8) (omega arith) (omega arith),
    )

pub IsHeap-frame :
    (w w' : Words) (p : ℕ) (gs : List Region) → All (Alike w w') gs → IsHeap w p gs → IsHeap w' p gs
unfolding IsHeap
IsHeap-frame w w' p [] same h = h
IsHeap-frame w w' p (g ∷ gs) same (e, len, h, apart, rest) =
    let (len', h', next) = region_frame w w' g len h same.0 in
    (
      e,
      len',
      h',
      apart,
      IsHeap-frame w w' (w' (a_next g.at)) gs same.1 (subst (λ q. IsHeap w q gs) (sym next) rest),
    )

-- Allocation in one arena leaves those apart from it alone.
pub Beyond-Alike :
    (w w' : Words) (g : Region) (gs : List Region)
    → w (a_length g.at) ≡ g.length
    → Beyond w w' g.at
    → All (Disjoint g) gs
    → All (Alike w w') gs
unfolding Beyond
Beyond-Alike w w' g [] len same h = tt
Beyond-Alike w w' g (r ∷ gs) len same h =
    let side = h.0 in ((λ q lo hi. same q (ground arith)), Beyond-Alike w w' g gs len same h.1)

-- What loomAlloc has done where it did not return NULL: the arena `region` of the heap had a free
-- chunk of `bytes` bytes, `size` at least, which is now the allocation's, or that and a free chunk.
pub record Allocated (w w' : Words) (p size addr : ℕ) (gs : List Region) : Type 0 where
  pub earlier : List Region
  pub region : Region
  pub later : List Region
  pub split : gs ≡ earlier ++ region ∷ later
  pub before : List Chunk
  pub bytes : ℕ
  pub behind : List Chunk
  pub chunks : region.chunks ≡ before ++ spare bytes ∷ behind
  pub fits : size ≤ bytes
  pub at : addr ≡ stop (region.at + 16) before + 8
  pub list : List ℕ
  pub heap : IsHeap w' p (
      earlier
      ++ record {
        at = region.at;
        length = region.length;
        chunks = before ++ (carve bytes size ++ behind);
        list = list;
      }
        ∷ later)
  pub beyond : Beyond w w' region.at
  pub length : w (a_length region.at) ≡ region.length

-- loomAlloc's loop fails and no free chunk is large enough, or it has allocated.
abbrev pub Result : (w : Words) (p size : ℕ) → List Region → Exec (ℕ × Words) → Type 0
Result w p size gs run =
    ((run ≡ ok (0, w)) × All (λ g. NoFit size g.chunks) gs)
    ⊎ ((addr : ℕ) × ((w' : Words) × ((run ≡ ok (addr, w'))
            × (0 < addr)
            × Allocated w w' p size addr gs)))

pub All-middle :
    (P : Region → Type 0) (xs ys : List Region) (r : Region) → All P (xs ++ r ∷ ys) → P r
All-middle P [] ys r h = h.0
All-middle P (x ∷ xs) ys r h = All-middle P xs ys r h.1

pub All-replace :
    (P : Region → Type 0) (xs ys : List Region) (r r' : Region)
    → (P r → P r')
    → All P (xs ++ r ∷ ys)
    → All P (xs ++ r' ∷ ys)
All-replace P [] ys r r' f h = (f h.0, h.1)
All-replace P (x ∷ xs) ys r r' f h = (h.0, All-replace P xs ys r r' f h.1)

-- An allocation in a later arena.
Allocated-later :
    (w w' : Words) (size addr : ℕ) (g : Region) (gs : List Region)
    → IsHeap w g.at (g ∷ gs)
    → Allocated w w' (w (a_next g.at)) size addr gs
    → Allocated w w' g.at size addr (g ∷ gs)
unfolding IsHeap Beyond
Allocated-later w w' size addr g gs (e, len, h, apart, rest) k =
    let apart' = subst (All (Disjoint g)) k.split apart in
    let side = All-middle (Disjoint g) k.earlier k.later k.region apart' in
    let length = k.length in
    let (len', h', next) = region_frame w w' g len h (λ q lo hi. k.beyond q (ground arith)) in
    record {
      earlier = g ∷ k.earlier;
      region = k.region;
      later = k.later;
      split = ap (λ l. g ∷ l) k.split;
      before = k.before;
      bytes = k.bytes;
      behind = k.behind;
      chunks = k.chunks;
      fits = k.fits;
      at = k.at;
      list = k.list;
      heap = (
        refl,
        len',
        h',
        All-replace (Disjoint g) k.earlier k.later k.region
            (record {
              at = k.region.at;
              length = k.region.length;
              chunks = k.before ++ (carve k.bytes size ++ k.behind);
              list = k.list;
            })
            (λ d. d) apart',
        subst
            (λ q. IsHeap w' q (
              k.earlier
              ++ record {
                at = k.region.at;
                length = k.region.length;
                chunks = k.before ++ (carve k.bytes size ++ k.behind);
                list = k.list;
              }
                ∷ k.later))
            (sym next) k.heap,
      );
      beyond = k.beyond;
      length = k.length;
    }

-- An allocation in the first arena.
Allocated-here :
    (w w' : Words) (size addr : ℕ) (g : Region) (gs : List Region)
    → IsHeap w g.at (g ∷ gs)
    → Served w w' g.at size addr g.chunks g.list
    → Allocated w w' g.at size addr (g ∷ gs)
unfolding IsHeap Beyond
Allocated-here w w' size addr g gs (e, len, h, apart, rest) k = record {
  earlier = [];
  region = g;
  later = gs;
  split = refl;
  before = k.before;
  bytes = k.bytes;
  behind = k.behind;
  chunks = k.split;
  fits = k.fits;
  at = k.at;
  list = k.list;
  heap = (
    refl,
    k.length ∙ len,
    k.arena,
    apart,
    IsHeap-frame w w' (w' (a_next g.at)) gs (Beyond-Alike w w' g gs len k.beyond apart)
        (subst (λ q. IsHeap w q gs) (sym k.next) rest),
  );
  beyond = k.beyond;
  length = len;
}

alloc_in-Result :
    (fuel n p size : ℕ) (w : Words) (gs : List Region)
    → IsHeap w p gs
    → All (λ g. length g.list < fuel) gs
    → length gs < n
    → size % 8 ≡ 0
    → 16 ≤ size
    → Result w p size gs (alloc_in fuel n p size w)
unfolding IsHeap alloc_in
alloc_in-Result fuel zero p size w gs h short more eight sixteen = absurd (omega arith)
alloc_in-Result fuel (suc n) p size w [] h short more eight sixteen =
    let nothing : (p == 0) ≡ true = ground (arith, h) in inl (rw nothing refl, tt)
alloc_in-Result fuel (suc n) p size w (g ∷ gs) h short more eight sixteen =
    let (e, len, arena, apart, rest) = h in
    let pos = arena.allocated in
    let magic = arena.links.magic in
    let some_arena : (g.at == 0) ≡ false = ground arith in
    let checked : (magic_of w g.at == w (a_magic g.at)) ≡ true =
      (==_iff (magic_of w g.at) (w (a_magic g.at))).1 magic in
    let even =
      Each-Perm (λ x. in_use (w (c_size x)) ≡ 0) (λ x. hlevel) g.list (frees (g.at + 16) g.chunks)
        arena.listed
        (spare_words w (g.at + 16) 1 (g.at + w (a_length g.at)) g.chunks arena.tiles) in
    subst (λ a. Result w a size (g ∷ gs) (alloc_in fuel (suc n) a size w)) (sym e)
      (elim (first_fit_lem fuel (w (a_freelist g.at)) size 0 w g.list short.0 arena.links.list
        even) [
          | inl (run, small) ↦
              elim (alloc_in-Result fuel n (w (a_next g.at)) size w gs rest short.1 (omega arith)
                eight sixteen) [
                  | inl (later, nothing) ↦ inl (
                    rw (some_arena, checked) rw run later,
                    (
                      none_fits w (g.at + 16) 1 (g.at + w (a_length g.at)) size g.chunks arena.tiles
                          (Each-Perm (λ x. leb size (size_of (w (c_size x))) ≡ false) (λ x. hlevel)
                            (frees (g.at + 16) g.chunks) g.list (Perm.symm arena.listed) small),
                      nothing,
                    ),
                  )
                  | inr (addr, (w', (later, pos', k))) ↦ inr (
                    addr,
                    (
                      w',
                      (
                        rw (some_arena, checked) rw run later,
                        pos',
                        Allocated-later w w' size addr g gs (refl, len, arena, apart, rest) k,
                      ),
                    ),
                  )
                ]
          | inr (f, (run, some_f, fit)) ↦
              let not_null : (f == 0) ≡ false = ground arith in
              let (addr, (w', (split, k))) =
                arena-Served w g.at f size g.chunks g.list arena fit eight sixteen in
              let at = k.at in
              inr (
                addr,
                (
                  w',
                  (
                    rw (some_arena, checked) rw run rw not_null split,
                    omega arith,
                    Allocated-here w w' size addr g gs (refl, len, arena, apart, rest) k,
                  ),
                ),
              )
        ])

-- The size of a chunk, or an overflow.
chunk_size_for_lem :
    (size : ℕ)
    → ((2 ^ 32 ≤ (size + 7) / 8 * 8 + 8) × (chunk_size_for size ≡ none))
      ⊎ (chunk_size_for size ≡ some ((size + 7) / 8 * 8 + 8))
unfolding chunk_size_for
chunk_size_for_lem size = elim (Bool-cases (ltb (size + 7) (2 ^ 32))) [
  | inr over ↦ inl (ground arith, rw (chunk_size_for, over) refl)
  | inl fine ↦ elim (Bool-cases (ltb ((size + 7) / 8 * 8 + 8) (2 ^ 32))) [
    | inr over ↦ inl (ground arith, rw (chunk_size_for, fine) rw over refl)
    | inl fits ↦ inr (rw (chunk_size_for, fine) rw fits refl)
  ]
]

-- loomAlloc returns for any request of at least one byte, without a panic. It returns NULL only if
-- the size with its header overflows or no free chunk of any arena has that many bytes, and the
-- store is as before; otherwise it returns the address behind the header of a chunk that was free
-- and large enough. Every arena is then well formed: its chunks tile it, its list of free chunks
-- holds each once, the checksum is right, and the chunks are the same as before but for the one
-- taken, of which the allocation has all or the rest is a free chunk. No cell outside that arena has
-- changed. The heap was well formed before, and the fuel exceeds the number of arenas and of free
-- chunks in each.
pub alloc-Result :
    (fuel n p size : ℕ) (w : Words) (gs : List Region)
    → IsHeap w p gs
    → All (λ g. length g.list < fuel) gs
    → length gs < n
    → 0 < size
    → ((2 ^ 32 ≤ (size + 7) / 8 * 8 + 8) × (alloc fuel n p size w ≡ ok (0, w)))
      ⊎ Result w p ((size + 7) / 8 * 8 + 8) gs (alloc fuel n p size w)
unfolding alloc
alloc-Result fuel n p size w gs h short more pos = elim (chunk_size_for_lem size) [
  | inl (large, over) ↦ inl (large, rw (alloc, over) refl)
  | inr fits ↦ inr (
      subst (Result w p ((size + 7) / 8 * 8 + 8) gs) (sym (rw (alloc, fits) refl)) (
        alloc_in-Result fuel n p ((size + 7) / 8 * 8 + 8) w gs h short more (omega arith)
          (omega arith)))
]

-- ===== src/Heap/Ranges.antt =====
-- A range of memory on one side of the boot module as an arena of the heap.
use loom_bootloader.Base.{
  ℕ, ◌+◌, ◌-◌, ◌*◌, ◌/◌, ◌%◌, ◌≤◌, ◌<◌, ◌^◌, ◌≡◌, List, [], ◌∷◌, ◌++◌, arith, refl, sym, ◌⊎◌, inl,
  inr, false, ltb, leb, ok, usize, usize_max, Bool-cases,
}
use mathlib.Core.Path.{subst}
use mathlib.Core.List.Perm
use loom_bootloader.Memory.{store}
use loom_bootloader.Heap.{Words, c_prev_size, c_size, f_prev, f_next, a_length, a_freelist, a_next}
use loom_bootloader.Heap.Free.{FreeList, set_magic-magic}
use loom_bootloader.Heap.Tiles.{Tiles}
use loom_bootloader.Heap.Alloc.{Region, All, Disjoint, Alike, IsHeap, IsHeap-frame}
use loom_bootloader.Heap.AddRegion.{new_arena, fresh, Added, goes_over, add_aligned, add_clipped}

-- Regions apart from a new one keep their cells.
new_arena-Alike :
    (w : Words) (addr n arenas : ℕ) (gs : List Region)
    → 32 ≤ n
    → All (Disjoint (fresh addr n)) gs
    → All (Alike w (new_arena addr n arenas w)) gs
new_arena-Alike w addr n arenas [] large h = tt
new_arena-Alike w addr n arenas (g ∷ gs) large h =
    let side = h.0 in ((λ q lo hi. ground arith), new_arena-Alike w addr n arenas gs large h.1)

pub new_arena-IsHeap :
    (w : Words) (addr n arenas : ℕ) (gs : List Region)
    → addr % 8 ≡ 0
    → n % 8 ≡ 0
    → 0 < addr
    → 32 ≤ n
    → addr + n < 2 ^ 32
    → IsHeap w arenas gs
    → All (Disjoint (fresh addr n)) gs
    → IsHeap (new_arena addr n arenas w) addr (fresh addr n ∷ gs)
unfolding IsHeap Tiles FreeList
new_arena-IsHeap w addr n arenas gs al even pos large fits h apart =
    let w' : Words = new_arena addr n arenas w in
    let len : w' (a_length addr) ≡ n = ground arith in
    let next : w' (a_next addr) ≡ arenas = ground arith in
    (
      refl,
      len,
      record {
        aligned = al;
        allocated = pos;
        fits = subst (λ l. addr + l < 2 ^ 32) (sym len) fits;
        tiles = (ground arith, ground arith, omega arith, omega arith, omega arith);
        links = record {
          list = (ground arith, omega arith, ground arith, ground arith);
          spaced = (tt, tt);
          behind = (omega arith, tt);
          magic =
              set_magic-magic
                (store (a_next addr) arenas (
                  store (a_freelist addr) (addr + 16) (
                    store (a_length addr) n (
                      store (f_next (addr + 16)) 0 (
                        store (f_prev (addr + 16)) 0 (
                          store (c_size (addr + 16)) (n - 16)
                            (store (c_prev_size (addr + 16)) 1 w)))))))
                addr;
        };
        listed = Perm.refl ((addr + 16) ∷ []);
      },
      apart,
      IsHeap-frame w w' (w' (a_next addr)) gs (new_arena-Alike w addr n arenas gs large apart)
          (subst (λ p. IsHeap w p gs) (sym next) h),
    )

-- An arena inside a range, and outside the boot module.
abbrev pub Usable : (modbase modend lo hi : ℕ) → Region → Type 0
Usable modbase modend lo hi g =
    (lo ≤ g.at) × (g.at + g.length ≤ hi) × ((g.at + g.length ≤ modbase) ⊎ (modend ≤ g.at))

abbrev pub Away : (lo hi : ℕ) → Region → Type 0
Away lo hi g = (hi ≤ g.at) ⊎ (g.at + g.length ≤ lo)

-- 32 bytes at a multiple of 8 inside a range and outside the boot module: the least arena.
abbrev pub Block : (modbase modend lo hi x : ℕ) → Type 0
Block modbase modend lo hi x =
    (x % 8 ≡ 0) × (lo ≤ x) × (x + 32 ≤ hi) × ((x + 32 ≤ modbase) ⊎ (modend ≤ x))

abbrev pub Holds : ℕ → Region → Type 0
Holds x g = (g.at ≤ x) × (x + 32 ≤ g.at + g.length)

abbrev pub Any : (Region → Type 0) → List Region → Type 0
Any P [] = ⊥
Any P (g ∷ gs) = P g ⊎ Any P gs

pub Any-left : (P : Region → Type 0) (xs ys : List Region) → Any P xs → Any P (xs ++ ys)
Any-left P [] ys h = absurd h
Any-left P (x ∷ xs) ys (inl h) = inl h
Any-left P (x ∷ xs) ys (inr h) = inr (Any-left P xs ys h)

pub Any-right : (P : Region → Type 0) (xs ys : List Region) → Any P ys → Any P (xs ++ ys)
Any-right P [] ys h = h
Any-right P (x ∷ xs) ys h = inr (Any-right P xs ys h)

pub record Grown (run : Added) (modbase modend lo hi : ℕ) (gs : List Region) : Type 0 where
  pub head : ℕ
  pub words : Words
  pub run_eq : run ≡ ok (head, words)
  pub added : List Region
  pub heap : IsHeap words head (added ++ gs)
  pub usable : All (Usable modbase modend lo hi) added
  pub covers : (x : ℕ) → Block modbase modend lo hi x → Any (Holds x) added

pub All-map :
    (P Q : Region → Type 0) (gs : List Region) → ((g : Region) → P g → Q g) → All P gs → All Q gs
All-map P Q [] f h = tt
All-map P Q (g ∷ gs) f h = (f g h.0, All-map P Q gs f h.1)

pub All-append :
    (P : Region → Type 0) (xs ys : List Region) → All P xs → All P ys → All P (xs ++ ys)
All-append P [] ys h k = k
All-append P (x ∷ xs) ys h k = (h.0, All-append P xs ys h.1 k)

pub Usable-widen :
    (modbase modend lo hi lo' hi' : ℕ) (gs : List Region)
    → lo' ≤ lo
    → hi ≤ hi'
    → All (Usable modbase modend lo hi) gs
    → All (Usable modbase modend lo' hi') gs
Usable-widen modbase modend lo hi lo' hi' gs below above h =
    All-map (Usable modbase modend lo hi) (Usable modbase modend lo' hi') gs
      (λ g (l, u, side). (omega arith, omega arith, side)) h

pub Grown-widen :
    (run : Added) (modbase modend lo hi lo' hi' : ℕ) (gs : List Region)
    → lo' ≤ lo
    → hi ≤ hi'
    → ((x : ℕ) → Block modbase modend lo' hi' x → (lo ≤ x) × (x + 32 ≤ hi))
    → Grown run modbase modend lo hi gs
    → Grown run modbase modend lo' hi' gs
Grown-widen run modbase modend lo hi lo' hi' gs below above inner k = record {
  head = k.head;
  words = k.words;
  run_eq = k.run_eq;
  added = k.added;
  heap = k.heap;
  usable = Usable-widen modbase modend lo hi lo' hi' k.added below above k.usable;
  covers = λ x b. let (from, to) = inner x b in k.covers x (b.0, from, to, b.3);
}

pub Away-narrow :
    (lo hi lo' hi' : ℕ) (gs : List Region)
    → lo ≤ lo'
    → hi' ≤ hi
    → All (Away lo hi) gs
    → All (Away lo' hi') gs
Away-narrow lo hi lo' hi' gs below above h =
    All-map (Away lo hi) (Away lo' hi') gs (λ g side. ground arith) h

pub unchanged :
    (p modbase modend lo hi : ℕ) (w : Words) (gs : List Region)
    → IsHeap w p gs
    → ((x : ℕ) → Block modbase modend lo hi x → ⊥)
    → Grown (ok (p, w)) modbase modend lo hi gs
unchanged p modbase modend lo hi w gs h nowhere = record {
  head = p;
  words = w;
  run_eq = refl;
  added = [];
  heap = h;
  usable = tt;
  covers = nowhere;
}

pub settled :
    {run : Added} {modbase modend lo hi : ℕ} {gs : List Region}
    → (k : Grown run modbase modend lo hi gs) → Grown (ok (k.head, k.words)) modbase modend lo hi gs
settled k = record {
  head = k.head;
  words = k.words;
  run_eq = refl;
  added = k.added;
  heap = k.heap;
  usable = k.usable;
  covers = k.covers;
}

-- The aligned range on one side of the module.
pub aligned_aside :
    (again : (addr length arenas : ℕ) → Words → Added) (modbase modend a m p : ℕ) (w : Words)
    (gs : List Region)
    → modbase ≤ modend
    → 0 < a
    → a % 8 ≡ 0
    → m % 8 ≡ 0
    → a + m < 2 ^ 32
    → IsHeap w p gs
    → All (Away a (a + m)) gs
    → (a + m ≤ modbase) ⊎ (modend ≤ a)
    → Grown (add_aligned again modbase modend a m p w) modbase modend a (a + m) gs
aligned_aside again modbase modend a m p w gs order pos al even fits h away side =
    let b1 : goes_over modbase a (usize (a + m)) ≡ false = ground arith in
    let b2 : goes_over modend a (usize (a + m)) ≡ false = ground arith in
    elim (Bool-cases (ltb m 32)) [
      | inl small ↦
          rw (b1, b2) rw small
            (unchanged p modbase modend a (a + m) w gs h
              (λ x b. let (al_x, from, to, s) = b in absurd (ground arith)))
      | inr large ↦
          rw (b1, b2) rw large
            (record {
              head = a;
              words = new_arena a m p w;
              run_eq = refl;
              added = fresh a m ∷ [];
              heap =
                  new_arena-IsHeap w a m p gs al even pos (ground arith) fits h
                    (All-map (Away a (a + m)) (Disjoint (fresh a m)) gs (λ g d. d) away);
              usable = ((omega arith, omega arith, side), tt);
              covers = λ x b. inl (b.1, b.2);
            })
    ]

pub aside :
    (again : (addr length arenas : ℕ) → Words → Added) (modbase modend addr n p : ℕ) (w : Words)
    (gs : List Region)
    → modbase ≤ modend
    → 0 < addr
    → addr + n < 2 ^ 32
    → IsHeap w p gs
    → All (Away addr (addr + n)) gs
    → (addr + n ≤ modbase) ⊎ (modend ≤ addr)
    → Grown (add_clipped again modbase modend addr n p w) modbase modend addr (addr + n) gs
aside again modbase modend addr n p w gs order pos fits h away side =
    elim (Bool-cases (ltb (usize_max - 7) addr)) [
      | inl over ↦ rw over (
          unchanged p modbase modend addr (addr + n) w gs h
            (λ x b. let (al_x, from, to, s) = b in absurd (ground arith)))
      | inr fine ↦
          let a : ℕ = (addr + 7) / 8 * 8 in
          elim (Bool-cases (leb (a - addr) n)) [
            | inr short ↦ rw fine rw short (
                unchanged p modbase modend addr (addr + n) w gs h
                  (λ x b. let (al_x, from, to, s) = b in absurd (ground arith)))
            | inl enough ↦
                let m : ℕ = (n - (a - addr)) / 8 * 8 in
                let within : a + m ≤ addr + n = ground arith in
                let from : addr ≤ a = ground arith in
                rw fine rw enough (
                  Grown-widen (add_aligned again modbase modend a m p w) modbase modend a (a + m)
                    addr (addr + n) gs from within
                    (λ x b. let (al_x, lo_x, hi_x, s) = b in (omega arith, ground arith))
                    (aligned_aside again modbase modend a m p w gs order (omega arith) (omega arith)
                      (omega arith) (omega arith) h
                      (Away-narrow addr (addr + n) a (a + m) gs from within away) (ground arith)))
          ]
    ]

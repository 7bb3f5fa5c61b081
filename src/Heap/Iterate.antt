-- ===== src/Heap/Iterate.antt =====
-- loomHeapIterate: the walk over all chunks, which checks them on the way.
use loom_bootloader.Base.{
  ℕ, zero, suc, ◌+◌, ◌-◌, ◌%◌, ◌≤◌, ◌<◌, ◌^◌, ◌≡◌, List, [], ◌∷◌, arith, refl, sym, ap, ◌∙◌, Bool,
  true, false, not, ◌&&◌, ◌||◌, ◌==◌, ltb, if◌then◌else◌, Exec, ok, panic, hang, ◌>>=◌, length,
  ==_iff,
}
use mathlib.Core.Path.{subst}
use loom_bootloader.Heap.{
  Words, c_prev_size, c_size, a_length, a_magic, a_next, magic_of, size_of, in_use, min_alloc,
  chunk_header,
}
use loom_bootloader.Heap.Tiles.{Chunk, spare, taken, bytes, size_word, Tiles, starts-within}
use loom_bootloader.Heap.Alloc.{Region, All, IsHeap}

abbrev pub is_free : Chunk → Bool
is_free (spare n) = true
is_free (taken n) = false

size_word-bytes : (c : Chunk) → bytes c % 8 ≡ 0 → size_of (size_word c) ≡ bytes c
size_word-bytes (spare n) h = omega arith
size_word-bytes (taken n) h = omega arith

size_word-is_free : (c : Chunk) → bytes c % 8 ≡ 0 → (in_use (size_word c) == 0) ≡ is_free c
size_word-is_free (spare n) h = ground arith
size_word-is_free (taken n) h = ground arith

fine_chunk :
    (next e n : ℕ)
    → e < 2 ^ 32
    → next ≤ e
    → n % 8 ≡ 0
    → 16 ≤ n
    → (not (ltb next (2 ^ 32)) || (ltb n min_alloc || (not (n % 8 == 0) || (ltb e next || false))))
      ≡ false
fine_chunk next e n small inside eight sixteen = ground arith

if-ok {ℓ} : {A : Type ℓ} (b : Bool) (x y : A) → (if b then ok x else ok y) ≡ ok (if b then x else y)
if-ok true x y = refl
if-ok false x y = refl

-- `hook` gets an address, a size and whether the chunk is free, and acts on a state of its own, not
-- on the headers; any result but 0 ends the walk. It is there: the test for a null hook is left out.
module _ {ℓ} {S : Type ℓ} (hook : (address size : ℕ) → Bool → S → ℕ × S) where
  -- The checks of a chunk at `addr`, behind one with the size word `prev` unless it is the first.
  abbrev bad_chunk : (addr next end : ℕ) → (first : Bool) → (prev : ℕ) → Words → Bool
  bad_chunk addr next end first prev w =
      ltb (size_of (w (c_size addr))) min_alloc
      || (not (size_of (w (c_size addr)) % 8 == 0)
          || (ltb end next || (not first && not (prev == w (c_prev_size addr)))))

  pub iterate_chunks : (fuel addr end : ℕ) → (first : Bool) → (prev : ℕ) → Words → S → Exec (ℕ × S)
  iterate_chunks zero addr end first prev w s = hang
  iterate_chunks (suc n) addr end first prev w s =
      let size = size_of (w (c_size addr)) in
      let next = addr + size in
      let called =
        hook (next - size + chunk_header) (size - chunk_header) (in_use (w (c_size addr)) == 0) s in
      let rest = iterate_chunks n next end false (w (c_size addr)) w called.1 in
      if ltb addr end
      then (if not (ltb next (2 ^ 32)) || bad_chunk addr next end first prev w
          then panic
          else if called.0 == 0
          then rest
          else ok called)
      else if addr == end
      then ok (0, s)
      else panic

  pub iterate_arenas : (fuel arenas_fuel a : ℕ) → Words → S → Exec (ℕ × S)
  iterate_arenas fuel zero a w s = hang
  iterate_arenas fuel (suc n) a w s =
      if a == 0
      then ok (0, s)
      else if not (magic_of w a == w (a_magic a)) || not (ltb (a + w (a_length a)) (2 ^ 32))
      then panic
      else do
        (r, s1) ← iterate_chunks fuel (a + 16) (a + w (a_length a)) true 0 w s
        let rest = iterate_arenas fuel n (w (a_next a)) w s1
        if r == 0 then rest else ok (r, s1)

  -- The hook on chunks one after the other, until it returns something else than 0.
  abbrev pub visit : (b : ℕ) → List Chunk → S → ℕ × S
  visit b [] s = (0, s)
  visit b (c ∷ cs) s =
      let called = hook (b + 8) (bytes c - 8) (is_free c) s in
      let rest = visit (b + bytes c) cs called.1 in if called.0 == 0 then rest else called

  abbrev pub visit_all : List Region → S → ℕ × S
  visit_all [] s = (0, s)
  visit_all (g ∷ gs) s =
      let visited = visit (g.at + 16) g.chunks s in
      let rest = visit_all gs visited.1 in if visited.0 == 0 then rest else visited

  iterate_chunks-visit :
      (fuel b e prev p : ℕ) (first : Bool) (w : Words) (cs : List Chunk) (s : S)
      → length cs < fuel
      → e < 2 ^ 32
      → (not first && not (prev == p)) ≡ false
      → Tiles w b p e cs
      → iterate_chunks fuel b e first prev w s ≡ ok (visit b cs s)
  unfolding iterate_chunks Tiles
  iterate_chunks-visit zero b e prev p first w cs s short small told t = absurd (omega arith)
  iterate_chunks-visit (suc n) b e prev p first w [] s short small told t =
      let over : ltb b e ≡ false = ground (arith, t) in
      let at : (b == e) ≡ true = ground (arith, t) in rw (over, at) refl
  iterate_chunks-visit (suc n) b e prev p first w (c ∷ cs) s short small told (h1, h2, h3, h4, t) =
      let inside = (starts-within w (b + bytes c) (size_word c) e 0 cs (omega arith) t).1 in
      let size : size_of (w (c_size b)) ≡ bytes c = ap size_of h2 ∙ size_word-bytes c h3 in
      let free : (in_use (w (c_size b)) == 0) ≡ is_free c =
        ap (λ x. in_use x == 0) h2 ∙ size_word-is_free c h3 in
      let before : ltb b e ≡ true = ground arith in
      let same : (not first && not (prev == w (c_prev_size b))) ≡ false =
        ap (λ x. not first && not (prev == x)) h1 ∙ told in
      let fine : (not (ltb (b + bytes c) (2 ^ 32))
            || (ltb (bytes c) min_alloc
                || (not (bytes c % 8 == 0) || (ltb e (b + bytes c) || false))))
          ≡ false =
        fine_chunk (b + bytes c) e (bytes c) small inside h3 h4 in
      let back : b + bytes c - bytes c + chunk_header ≡ b + 8 = omega arith in
      let called = hook (b + 8) (bytes c - 8) (is_free c) s in
      let later =
        iterate_chunks-visit n (b + bytes c) e (size_word c) (size_word c) false w cs called.1
          (omega arith) small (ground arith) t in
      rw before rw size rw same rw fine rw (back, free) rw h2 rw later
        (if-ok (called.0 == 0) (visit (b + bytes c) cs called.1) called)

  -- loomHeapIterate on a well-formed heap never finds it corrupted: it calls the hook on each chunk of
  -- each arena in the order of their addresses, with the address behind the header, the size without
  -- it and whether the chunk is free, until the hook returns something else than 0, which it returns.
  -- The fuel exceeds the number of arenas and of chunks in each.
  pub iterate_arenas-visit_all :
      (fuel n p : ℕ) (w : Words) (gs : List Region) (s : S)
      → IsHeap w p gs
      → All (λ g. length g.chunks < fuel) gs
      → length gs < n
      → iterate_arenas fuel n p w s ≡ ok (visit_all gs s)
  unfolding iterate_arenas IsHeap
  iterate_arenas-visit_all fuel zero p w gs s h short more = absurd (omega arith)
  iterate_arenas-visit_all fuel (suc n) p w [] s h short more =
      let nothing : (p == 0) ≡ true = ground (arith, h) in rw nothing refl
  iterate_arenas-visit_all fuel (suc n) p w (g ∷ gs) s (e, len, arena, apart, rest) short more =
      let pos = arena.allocated in
      let fits = arena.fits in
      let magic = arena.links.magic in
      let some_arena : (g.at == 0) ≡ false = ground arith in
      let checked : (magic_of w g.at == w (a_magic g.at)) ≡ true =
        (==_iff (magic_of w g.at) (w (a_magic g.at))).1 magic in
      let small : ltb (g.at + w (a_length g.at)) (2 ^ 32) ≡ true = ground arith in
      let visited = visit (g.at + 16) g.chunks s in
      let chunks =
        iterate_chunks-visit fuel (g.at + 16) (g.at + w (a_length g.at)) 0 1 true w g.chunks s
          short.0 fits refl arena.tiles in
      let later =
        iterate_arenas-visit_all fuel n (w (a_next g.at)) w gs visited.1 rest short.1
          (omega arith) in
      subst (λ a. iterate_arenas fuel (suc n) a w s ≡ ok (visit_all (g ∷ gs) s)) (sym e)
        (rw some_arena rw (checked, small) rw chunks rw later
          (if-ok (visited.0 == 0) (visit_all gs visited.1) visited))

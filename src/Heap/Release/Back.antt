-- ===== src/Heap/Release/Back.antt =====
-- The backward loop of loomFree.
use loom_bootloader.Base.{
  ℕ, zero, suc, ◌+◌, ◌%◌, ◌<◌, ◌≡◌, List, [], ◌∷◌, ◌++◌, arith, refl, sym, ap, ◌∙◌, ◌⊎◌, inl, inr,
  ◌==◌, false, ok, Exec, length, length-append,
}
use mathlib.Core.Path.{subst}
use mathlib.Core.List.{append_assoc, append-nil}
use loom_bootloader.Heap.{Words, c_prev_size, in_use}
use loom_bootloader.Heap.Tiles.{Chunk, spare, taken, stop, last_word, frees, Tiles, Tiles-split}
use loom_bootloader.Heap.Release.{merge_back}
use loom_bootloader.Heap.Release.Loose.{Loose, placed}
use loom_bootloader.Heap.Release.Step.{last_word-append, stop-append, back_at}

-- A list's last chunk, and those before.
pub record Ended (us : List Chunk) : Type 0 where
  pub most : List Chunk
  pub end : Chunk
  pub eq : us ≡ most ++ end ∷ []

last_chunk : (us : List Chunk) → (us ≡ []) ⊎ Ended us
last_chunk [] = inl refl
last_chunk (c ∷ us) = elim (last_chunk us) [
  | inl e ↦ inr (record { most = []; end = c; eq = ap (λ l. c ∷ l) e })
  | inr k ↦ inr (record { most = c ∷ k.most; end = k.end; eq = ap (λ l. c ∷ l) k.eq })
]

-- Free chunks of these sizes, and their bytes.
abbrev pub spares : List ℕ → List Chunk
spares [] = []
spares (k ∷ ks) = spare k ∷ spares ks

abbrev pub total : List ℕ → ℕ
total [] = 0
total (k ∷ ks) = k + total ks

spares-append : (ks : List ℕ) (k : ℕ) → spares ks ++ spare k ∷ [] ≡ spares (ks ++ k ∷ [])
spares-append [] k = refl
spares-append (j ∷ ks) k = ap (λ l. spare j ∷ l) (spares-append ks k)

total-append : (ks : List ℕ) (k : ℕ) → total (ks ++ k ∷ []) ≡ total ks + k
total-append [] k = omega arith
total-append (j ∷ ks) k = omega (arith, total-append ks k)

-- What the loop ends with: the free chunks right before are one with the chunk freed.
pub record Backed (w0 : Words) (a e n q : ℕ) (us vs : List Chunk) (run : Exec (ℕ × Words))
    : Type 0 where
  pub earlier : List Chunk
  pub merged : List ℕ
  pub chunk : ℕ
  pub store : Words
  pub list : List ℕ
  pub split : us ≡ earlier ++ spares merged
  pub taken_before : last_word 1 earlier % 2 ≡ 1
  pub returns : run ≡ ok (chunk, store)
  pub loose : Loose w0 store a e chunk (total merged + n) q earlier vs list

back_end :
    (w0 w : Words) (a e f n q : ℕ) (us vs : List Chunk) (xs : List ℕ) (fuel : ℕ)
    → Loose w0 w a e f n q us vs xs
    → last_word 1 us % 2 ≡ 1
    → Backed w0 a e n q us vs (merge_back (suc fuel) a (a + 16) f w)
unfolding merge_back
back_end w0 w a e f n q us vs xs fuel s odd =
    let prev = s.prev_size in
    let busy : (in_use (w (c_prev_size f)) == 0) ≡ false = ground arith in
    record {
      earlier = us;
      merged = [];
      chunk = f;
      store = w;
      list = xs;
      split = sym (append-nil us);
      taken_before = odd;
      returns = rw busy refl;
      loose = subst (λ m. Loose w0 w a e f m q us vs xs) (omega arith) s;
    }

back_step :
    (w0 w : Words) (a e f n q k : ℕ) (us vs : List Chunk) (xs : List ℕ) (fuel : ℕ)
    → Loose w0 w a e f n q (us ++ spare k ∷ []) vs xs
    → (w2 : Words) × ((ys : List ℕ) × ((merge_back (suc fuel) a (a + 16) f w
            ≡ merge_back fuel a (a + 16) (stop (a + 16) us) w2)
          × Loose w0 w2 a e (stop (a + 16) us) (k + n) q us vs ys))
back_step w0 w a e f n q k us vs xs fuel s =
    let b : ℕ = stop (a + 16) us in
    let at : f ≡ b + k = s.place ∙ stop-append (a + 16) us (spare k ∷ []) in
    let p = placed f xs (frees (a + 16) (us ++ spare k ∷ [])) (frees (f + n) vs) s.listed in
    let s1 = subst (λ l. Loose w0 w a e f n q (us ++ spare k ∷ []) vs l) p.eq s in
    let s2 = subst (λ g. Loose w0 w a e g n q (us ++ spare k ∷ []) vs (p.ls ++ g ∷ p.rs)) at s1 in
    let (w2, (run, loose)) = back_at w0 w a e b n q k us vs p.ls p.rs fuel refl s2 in
    (
      w2,
      (
        p.ls ++ p.rs,
        (
          subst (λ g. merge_back (suc fuel) a (a + 16) g w ≡ merge_back fuel a (a + 16) b w2)
              (sym at) run,
          loose,
        ),
      ),
    )

back_more :
    (fuel : ℕ) (w0 w : Words) (a e f n q : ℕ) (us vs : List Chunk) (xs : List ℕ) (c : Chunk)
    → ((g m : ℕ) (w2 : Words) (ys : List ℕ)
        → Loose w0 w2 a e g m q us vs ys
        → Backed w0 a e m q us vs (merge_back fuel a (a + 16) g w2))
    → Loose w0 w a e f n q (us ++ c ∷ []) vs xs
    → Backed w0 a e n q (us ++ c ∷ []) vs (merge_back (suc fuel) a (a + 16) f w)
unfolding Tiles
back_more fuel w0 w a e f n q us vs xs (taken m) rest s =
    let (left, (h1, h2, h3, h4, end)) = Tiles-split w (a + 16) 1 f us (taken m ∷ []) s.before in
    let odd : last_word 1 (us ++ taken m ∷ []) % 2 ≡ 1 =
      subst (λ x. x % 2 ≡ 1) (sym (last_word-append 1 us (taken m))) (omega arith) in
    back_end w0 w a e f n q (us ++ taken m ∷ []) vs xs fuel s odd
back_more fuel w0 w a e f n q us vs xs (spare k) rest s =
    let (w2, (ys, (run, loose))) = back_step w0 w a e f n q k us vs xs fuel s in
    let r = rest (stop (a + 16) us) (k + n) w2 ys loose in
    let sum : total r.merged + (k + n) ≡ total (r.merged ++ k ∷ []) + n =
      omega (arith, total-append r.merged k) in
    record {
      earlier = r.earlier;
      merged = r.merged ++ k ∷ [];
      chunk = r.chunk;
      store = r.store;
      list = r.list;
      split =
          ap (λ l. l ++ spare k ∷ []) r.split
          ∙ append_assoc r.earlier (spares r.merged) (spare k ∷ [])
          ∙ ap (λ l. r.earlier ++ l) (spares-append r.merged k);
      taken_before = r.taken_before;
      returns = run ∙ r.returns;
      loose = subst (λ m. Loose w0 r.store a e r.chunk m q r.earlier vs r.list) sum r.loose;
    }

shorter : (fuel : ℕ) (us : List Chunk) (k : Ended us) → length us < suc fuel → length k.most < fuel
shorter fuel us k lt =
    let size : length us ≡ length k.most + 1 = ap length k.eq ∙ length-append k.most (k.end ∷ []) in
    omega arith

-- Enough fuel is more than there are chunks before.
pub merge_back-Backed :
    (fuel : ℕ) (w0 w : Words) (a e f n q : ℕ) (us vs : List Chunk) (xs : List ℕ)
    → length us < fuel
    → Loose w0 w a e f n q us vs xs
    → Backed w0 a e n q us vs (merge_back fuel a (a + 16) f w)
merge_back-Backed zero w0 w a e f n q us vs xs lt s = absurd (omega arith)
merge_back-Backed (suc fuel) w0 w a e f n q us vs xs lt s = elim (last_chunk us) [
  | inl none_before ↦
      back_end w0 w a e f n q us vs xs fuel s
        (subst (λ l. last_word 1 l % 2 ≡ 1) (sym none_before) refl)
  | inr k ↦
      subst (λ l. Backed w0 a e n q l vs (merge_back (suc fuel) a (a + 16) f w)) (sym k.eq)
        (back_more fuel w0 w a e f n q k.most vs xs k.end
          (λ g m w2 ys. merge_back-Backed fuel w0 w2 a e g m q k.most vs ys (shorter fuel us k lt))
          (subst (λ l. Loose w0 w a e f n q l vs xs) k.eq s))
]

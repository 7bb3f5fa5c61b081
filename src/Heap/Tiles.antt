-- ===== src/Heap/Tiles.antt =====
-- The chunks of an arena, side by side, each header with the size word of the chunk before.
use loom_bootloader.Base.{ℕ, ◌+◌, ◌%◌, ◌≤◌, ◌≡◌, List, [], ◌∷◌, ◌++◌, arith, refl, sym, ap, ◌∙◌}
use mathlib.Core.Path.{subst}
use mathlib.Core.List.{Perm, Permᴰ}
use mathlib.Core.HLevel.{×_prop}
use mathlib.Core.Logic.{∥∥₁_elim}
use loom_bootloader.Heap.{Words, c_prev_size, c_size}
use loom_bootloader.Heap.Free.{Each, Each-map, NoLink}

-- A chunk of some bytes, free or in use.
pub data Chunk : Type 0 where
  spare : ℕ → Chunk
  taken : ℕ → Chunk

abbrev pub bytes : Chunk → ℕ
bytes (spare n) = n
bytes (taken n) = n

-- The word in its header: the low bit tells a chunk in use.
abbrev pub size_word : Chunk → ℕ
size_word (spare n) = n
size_word (taken n) = n + 1

-- Where the chunks from an address on end, the last size word, the addresses of all, of the free ones.
abbrev pub stop : ℕ → List Chunk → ℕ
stop b [] = b
stop b (c ∷ cs) = stop (b + bytes c) cs

abbrev pub last_word : ℕ → List Chunk → ℕ
last_word p [] = p
last_word p (c ∷ cs) = last_word (size_word c) cs

abbrev pub starts : ℕ → List Chunk → List ℕ
starts b [] = []
starts b (c ∷ cs) = b ∷ starts (b + bytes c) cs

abbrev pub frees : ℕ → List Chunk → List ℕ
frees b [] = []
frees b (spare n ∷ cs) = b ∷ frees (b + n) cs
frees b (taken n ∷ cs) = frees (b + n) cs

-- The chunks that the headers from `b` to `e` describe.
unfoldable pub Tiles : Words → (b prev e : ℕ) → List Chunk → Type 0
Tiles w b prev e [] = b ≡ e
Tiles w b prev e (c ∷ cs) =
    (w (c_prev_size b) ≡ prev)
    × (w (c_size b) ≡ size_word c)
    × (bytes c % 8 ≡ 0)
    × (16 ≤ bytes c)
    × Tiles w (b + bytes c) (size_word c) e cs

pub Tiles-split :
    (w : Words) (b p e : ℕ) (us vs : List Chunk)
    → Tiles w b p e (us ++ vs)
    → Tiles w b p (stop b us) us × Tiles w (stop b us) (last_word p us) e vs
unfolding Tiles
Tiles-split w b p e [] vs h = (refl, h)
Tiles-split w b p e (c ∷ us) vs (h1, h2, h3, h4, h) =
    let (k, l) = Tiles-split w (b + bytes c) (size_word c) e us vs h in ((h1, h2, h3, h4, k), l)

pub Tiles-join :
    (w : Words) (b p e : ℕ) (us vs : List Chunk)
    → Tiles w b p (stop b us) us
    → Tiles w (stop b us) (last_word p us) e vs
    → Tiles w b p e (us ++ vs)
unfolding Tiles
Tiles-join w b p e [] vs k h = h
Tiles-join w b p e (c ∷ us) vs (h1, h2, h3, h4, k) h =
    (h1, h2, h3, h4, Tiles-join w (b + bytes c) (size_word c) e us vs k h)

pub frees-append :
    (b : ℕ) (us vs : List Chunk) → frees b (us ++ vs) ≡ frees b us ++ frees (stop b us) vs
frees-append b [] vs = refl
frees-append b (spare n ∷ us) vs = ap (λ l. b ∷ l) (frees-append (b + n) us vs)
frees-append b (taken n ∷ us) vs = frees-append (b + n) us vs

pub starts-append :
    (b : ℕ) (us vs : List Chunk) → starts b (us ++ vs) ≡ starts b us ++ starts (stop b us) vs
starts-append b [] vs = refl
starts-append b (c ∷ us) vs = ap (λ l. b ∷ l) (starts-append (b + bytes c) us vs)

pub stop-aligned :
    (w : Words) (b p e : ℕ) (cs : List Chunk) → b % 8 ≡ 0 → Tiles w b p e cs → e % 8 ≡ 0
unfolding Tiles
stop-aligned w b p e [] h t = omega arith
stop-aligned w b p e (c ∷ cs) h (h1, h2, h3, h4, t) =
    stop-aligned w (b + bytes c) (size_word c) e cs (omega arith) t

-- Headers that two stores have alike.
abbrev pub SameHeader : Words → Words → ℕ → Type 0
SameHeader w w' b = (w' (c_prev_size b) ≡ w (c_prev_size b)) × (w' (c_size b) ≡ w (c_size b))

pub Tiles-frame :
    (w w' : Words) (b p e : ℕ) (cs : List Chunk)
    → Each (SameHeader w w') (starts b cs)
    → Tiles w b p e cs
    → Tiles w' b p e cs
unfolding Tiles
Tiles-frame w w' b p e [] same h = h
Tiles-frame w w' b p e (c ∷ cs) same (h1, h2, h3, h4, h) = (
  same.0.0 ∙ h1,
  same.0.1 ∙ h2,
  h3,
  h4,
  Tiles-frame w w' (b + bytes c) (size_word c) e cs same.1 h,
)

-- The first chunk gets another one before it.
pub Tiles-behind :
    (w w' : Words) (b p q e : ℕ) (c : Chunk) (cs : List Chunk)
    → w' (c_prev_size b) ≡ q
    → w' (c_size b) ≡ w (c_size b)
    → Each (SameHeader w w') (starts (b + bytes c) cs)
    → Tiles w b p e (c ∷ cs)
    → Tiles w' b q e (c ∷ cs)
unfolding Tiles
Tiles-behind w w' b p q e c cs before size same (h1, h2, h3, h4, h) =
    (before, size ∙ h2, h3, h4, Tiles-frame w w' (b + bytes c) (size_word c) e cs same h)

-- The sizes alone: chunks of 16 bytes and more from `b` to `e`.
unfoldable pub Laid : (b e : ℕ) → List Chunk → Type 0
Laid b e [] = b ≡ e
Laid b e (c ∷ cs) = (bytes c % 8 ≡ 0) × (16 ≤ bytes c) × Laid (b + bytes c) e cs

pub Tiles-Laid : (w : Words) (b p e : ℕ) (cs : List Chunk) → Tiles w b p e cs → Laid b e cs
unfolding Tiles Laid
Tiles-Laid w b p e [] t = t
Tiles-Laid w b p e (c ∷ cs) (h1, h2, h3, h4, t) =
    (h3, h4, Tiles-Laid w (b + bytes c) (size_word c) e cs t)

-- Chunks stand between the ends of their tiling, 16 bytes at least before the end.
pub Laid-within :
    (b e k : ℕ) (cs : List Chunk)
    → k ≤ b
    → Laid b e cs
    → Each (λ x. (k ≤ x) × (x + 16 ≤ e)) (starts b cs) × (b ≤ e)
unfolding Laid
Laid-within b e k [] h t = (tt, omega arith)
Laid-within b e k (c ∷ cs) h (h3, h4, t) =
    let (rest, below) = Laid-within (b + bytes c) e k cs (omega arith) t in
    (((h, omega arith), rest), omega arith)

pub starts-within :
    (w : Words) (b p e k : ℕ) (cs : List Chunk)
    → k ≤ b
    → Tiles w b p e cs
    → Each (λ x. (k ≤ x) × (x + 16 ≤ e)) (starts b cs) × (b ≤ e)
starts-within w b p e k cs h t = Laid-within b e k cs h (Tiles-Laid w b p e cs t)

pub Each-frees :
    (P : ℕ → Type 0) (b : ℕ) (cs : List Chunk) → Each P (starts b cs) → Each P (frees b cs)
Each-frees P b [] h = tt
Each-frees P b (spare n ∷ cs) h = (h.0, Each-frees P (b + n) cs h.1)
Each-frees P b (taken n ∷ cs) h = Each-frees P (b + n) cs h.1

-- A header's two words are no links of the free chunks.
abbrev pub NoHeaderLink : ℕ → ℕ → Type 0
NoHeaderLink x b = NoLink (c_prev_size b) x × NoLink (c_size b) x

header_links_far :
    (b : ℕ) (xs ys : List ℕ)
    → Each (λ x. b + 16 ≤ x) xs
    → Each (λ x. b + 16 ≤ x) ys
    → Each (λ x. NoHeaderLink x b) xs × Each (λ y. NoHeaderLink b y) ys
header_links_far b xs ys h k = (
  Each-map (λ x. b + 16 ≤ x) (λ x. NoHeaderLink x b) xs
      (λ x l. ((omega arith, omega arith), (omega arith, omega arith))) h,
  Each-map (λ x. b + 16 ≤ x) (λ y. NoHeaderLink b y) ys
      (λ y l. ((omega arith, omega arith), (omega arith, omega arith))) k,
)

pub Each-zip :
    (P Q R : ℕ → Type 0) (xs : List ℕ)
    → ((x : ℕ) → P x → Q x → R x)
    → Each P xs
    → Each Q xs
    → Each R xs
Each-zip P Q R [] f h k = tt
Each-zip P Q R (x ∷ xs) f h k = (f x h.0 k.0, Each-zip P Q R xs f h.1 k.1)

header_far :
    (b n e : ℕ) (cs : List Chunk)
    → 16 ≤ n
    → Laid (b + n) e cs
    → Each (λ x. b + 16 ≤ x) (starts (b + n) cs)
header_far b n e cs h t =
    Each-map (λ x. (b + 16 ≤ x) × (x + 16 ≤ e)) (λ x. b + 16 ≤ x) (starts (b + n) cs) (λ x k. k.0)
      (Laid-within (b + n) e (b + 16) cs (omega arith) t).0

pub Laid-no_links :
    (b e : ℕ) (cs : List Chunk)
    → Laid b e cs
    → Each (λ y. Each (λ x. NoHeaderLink x y) (frees b cs)) (starts b cs)
unfolding Laid
Laid-no_links b e [] t = tt
Laid-no_links b e (spare n ∷ cs) (h3, h4, t) =
    let rest = Laid-no_links (b + n) e cs t in
    let far = header_far b n e cs h4 t in
    let (here, there) =
      header_links_far b (frees (b + n) cs) (starts (b + n) cs)
        (Each-frees (λ x. b + 16 ≤ x) (b + n) cs far) far in
    (
      (((omega arith, omega arith), (omega arith, omega arith)), here),
      Each-zip (λ y. NoHeaderLink b y) (λ y. Each (λ x. NoHeaderLink x y) (frees (b + n) cs))
          (λ y. NoHeaderLink b y × Each (λ x. NoHeaderLink x y) (frees (b + n) cs))
          (starts (b + n) cs) (λ y k l. (k, l)) there rest,
    )
Laid-no_links b e (taken n ∷ cs) (h3, h4, t) =
    let far = header_far b n e cs h4 t in
    let (here, there) =
      header_links_far b (frees (b + n) cs) (starts (b + n) cs)
        (Each-frees (λ x. b + 16 ≤ x) (b + n) cs far) far in
    (here, Laid-no_links (b + n) e cs t)

pub headers_no_links :
    (w : Words) (b p e : ℕ) (cs : List Chunk)
    → Tiles w b p e cs
    → Each (λ y. Each (λ x. NoHeaderLink x y) (frees b cs)) (starts b cs)
headers_no_links w b p e cs t = Laid-no_links b e cs (Tiles-Laid w b p e cs t)

-- What holds of a list holds of its permutations.
Each-Permᴰ : (P : ℕ → Type 0) {xs ys : List ℕ} → Permᴰ xs ys → Each P ys → Each P xs
Each-Permᴰ P (Permᴰ.nil) h = tt
Each-Permᴰ P (Permᴰ.cons e d) h = (subst P (sym e) h.0, Each-Permᴰ P d h.1)
Each-Permᴰ P (Permᴰ.swap e1 e2) h = (subst P (sym e1) h.1.0, (subst P (sym e2) h.0, h.1.1))
Each-Permᴰ P (Permᴰ.trans d1 d2) h = Each-Permᴰ P d1 (Each-Permᴰ P d2 h)

Each-prop : (P : ℕ → Type 0) → ((x : ℕ) → IsProp (P x)) → (xs : List ℕ) → IsProp (Each P xs)
Each-prop P prop [] = λ x y. refl
Each-prop P prop (x ∷ xs) = ×_prop (prop x) (Each-prop P prop xs)

pub Each-Perm :
    (P : ℕ → Type 0)
    → ((x : ℕ) → IsProp (P x))
    → (xs ys : List ℕ) → Perm xs ys
    → Each P ys
    → Each P xs
Each-Perm P prop xs ys p h = ∥∥₁_elim p (Each-prop P prop xs) (λ d. Each-Permᴰ P d h)

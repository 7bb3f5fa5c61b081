-- ===== src/Fat/File/Outcome.antt =====
-- What a call of `fatRead` leaves, and how the outcomes of its rounds add up.
use loom_bootloader.Base.{
  ℕ, ◌+◌, ◌-◌, ◌/◌, ◌≤◌, ◌<◌, ◌≡◌, ◌≢◌, min, arith, refl, ap, ◌∙◌, Exec, ltb, Bool-cases, inl, inr,
}
use loom_bootloader.Error.{LoomError}
use loom_bootloader.Memory.{Memory}
use loom_bootloader.BlockDev.{BlockDev}
use loom_bootloader.BlockDev.Read.Stages.{Disjoint, Away}
use loom_bootloader.Fat.{FatFs, get_cluster_size}
use loom_bootloader.Fat.File.{FatFile, Reading, stopped, after_read, after_run}
use loom_bootloader.Fat.File.Chain.{byte_at, byte_of}

-- The file's cluster is the one that its position is in, if that is before the end.
abbrev pub IsPlaced : (n : ℕ) → (ℕ → ℕ) → FatFile → Type 0
IsPlaced n cl f = f.position < f.size → f.pos ≡ cl (f.position / n)

-- What a call leaves that was asked for `nbytes` bytes, on success and on errors.
pub record DeliveredOf (n : ℕ) (fs : FatFs) (d cl : ℕ → ℕ) (dev : BlockDev) (f : FatFile)
    (nbytes buf nread : ℕ) (m : Memory) (x : Reading) : Type 0 where
  pub same_size : x.file.size ≡ f.size
  pub placed : IsPlaced n cl x.file
  pub from : f.position ≤ x.file.position
  pub upto : x.file.position ≤ f.position + min (f.size - f.position) nbytes
  pub all :
      x.error ≡ LoomError.none → x.file.position ≡ f.position + min (f.size - f.position) nbytes
  pub counted : x.nread ≡ nread + (x.file.position - f.position)
  pub bytes :
      (i : ℕ)
      → f.position + i < x.file.position
      → x.memory (buf + i) ≡ byte_at n fs d cl (f.position + i)
  pub outside : (a : ℕ) → Away dev nbytes buf a → x.memory a ≡ m a

pub after_read_error :
    (e : LoomError) (m : Memory) (f : FatFile) (read c nread : ℕ)
    (rest : FatFile → ℕ → Memory → Exec Reading)
    → e ≢ LoomError.none
    → after_read (e, m) f read c nread rest ≡ stopped e f nread m
unfolding after_read
after_read_error LoomError.none m f read c nread rest h = absurd (h refl)
after_read_error _ m f read c nread rest h = refl

pub after_run_error :
    (e : LoomError) (read c : ℕ) (dev : BlockDev) (fs : FatFs) (f : FatFile) (n buf nread : ℕ)
    (m : Memory) (rest : ℕ → FatFile → ℕ → Memory → Exec Reading)
    → e ≢ LoomError.none
    → after_run (e, read, c) dev fs f n buf nread m rest ≡ stopped e f nread m
unfolding after_run
after_run_error LoomError.none read c dev fs f n buf nread m rest h = absurd (h refl)
after_run_error _ read c dev fs f n buf nread m rest h = refl

-- A call that ends before it reads anything.
pub nothing_read :
    (fs : FatFs) (d cl : ℕ → ℕ) (dev : BlockDev) (f : FatFile) (nbytes buf nread : ℕ)
    (m m' : Memory) (e : LoomError)
    → IsPlaced (get_cluster_size fs) cl f
    → (e ≡ LoomError.none → min (f.size - f.position) nbytes ≡ 0)
    → ((a : ℕ) → Away dev nbytes buf a → m' a ≡ m a)
    → DeliveredOf
        (get_cluster_size fs)
        fs
        d
        cl
        dev
        f
        nbytes
        buf
        nread
        m
        (record { error = e; file = f; nread = nread; memory = m' })
nothing_read fs d cl dev f nbytes buf nread m m' e placed none outside = record {
  same_size = refl;
  placed = placed;
  from = omega arith;
  upto = omega arith;
  all = λ g. omega (arith, none g);
  counted = omega arith;
  bytes = λ i lt. absurd (omega arith);
  outside = outside;
}

-- A run that was read, and what the rest of the loop delivers behind it.
pub Delivered-more :
    (fs : FatFs) (d cl : ℕ → ℕ) (dev : BlockDev) (f f1 : FatFile) (nbytes buf nread read : ℕ)
    (m m1 : Memory) (x : Reading)
    → Disjoint dev nbytes buf
    → f1.size ≡ f.size
    → f1.position ≡ f.position + read
    → read ≤ min (f.size - f.position) nbytes
    → ((i : ℕ) → i < read → m1 (buf + i) ≡ byte_of fs d cl (f.position + i))
    → ((a : ℕ) → Away dev read buf a → m1 a ≡ m a)
    → DeliveredOf
        (get_cluster_size fs)
        fs
        d
        cl
        dev
        f1
        (nbytes - read)
        (buf + read)
        (nread + read)
        m1
        x
    → DeliveredOf (get_cluster_size fs) fs d cl dev f nbytes buf nread m x
Delivered-more fs d cl dev f f1 nbytes buf nread read m m1 x apart size moved le here out k =
    let from = k.from in
    let upto = k.upto in
    let counted = k.counted in
    record {
      same_size = k.same_size ∙ size;
      placed = k.placed;
      from = omega arith;
      upto = omega arith;
      all = λ g. omega (arith, k.all g);
      counted = omega arith;
      bytes = λ i lt. elim (Bool-cases (ltb i read)) [
        | inl early ↦ k.outside (buf + i) (ground arith) ∙ here i (ground arith)
        | inr late ↦
            ap x.memory {x = buf + i} {y = buf + read + (i - read)} (ground arith)
            ∙ k.bytes (i - read) (ground arith)
            ∙ ap (byte_of fs d cl) {x = f1.position + (i - read)} {y = f.position + i}
                (ground arith)
      ];
      outside = λ a away. k.outside a (ground arith) ∙ out a (ground arith);
    }

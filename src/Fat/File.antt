-- ===== src/Fat/File.antt =====
-- src/mods/fat/fat.c, `fatRead`: the next bytes of an open file. `disk` is the device as the
-- allocation table is read from it, as in `Cluster`, without the cache that those reads change; the
-- file's bytes are read by `block_dev_read`.
pub mod Chain
pub mod Run
pub mod Outcome
pub mod Rounds
pub mod Read
mod Samples
use loom_bootloader.Base.{
  ℕ, zero, suc, ◌+◌, ◌-◌, ◌*◌, ◌%◌, ◌≤◌, ◌<◌, ◌≡◌, min, Exec, ok, hang, ◌>>=◌, Bool, not, ◌||◌,
  ◌&&◌, ◌==◌, ltb, leb, if◌then◌else◌, u32, usize,
}
use loom_bootloader.Error.{LoomError}
use loom_bootloader.Memory.{Memory}
use loom_bootloader.BlockDev.{BlockDev, block_dev_read}
use loom_bootloader.Fat.{FatFs, get_cluster_limit, get_cluster_size, get_cluster_offset}
use loom_bootloader.Fat.Cluster.{Disk, next_cluster}

-- `loom_file` with its `fat_file_ctx`; `pos` is the cluster that the position is in.
pub record FatFile : Type 0 where
  pub size : ℕ
  pub position : ℕ
  pub cluster : ℕ
  pub pos : ℕ

-- A cluster read to its end: the run goes on if the next cluster stands behind it.
pub advance :
    LoomError × ℕ → (cluster read : ℕ) → (ℕ → Exec (LoomError × ℕ × ℕ)) → Exec (LoomError × ℕ × ℕ)
advance (LoomError.none, next) cluster read rest =
    let more = rest next in
    if u32 (cluster + 1) == next then more else ok (LoomError.none, read, next)
advance (e, next) cluster read rest = ok (e, read, next)

-- The inner loop: from `read` bytes planned and the cluster to read on in, to the bytes of a run of
-- clusters side by side and the cluster behind it.
pub read_run :
    (fuel : ℕ) → Disk → FatFs → (max_read read cluster cluster_off : ℕ) → Exec (LoomError × ℕ × ℕ)
read_run zero disk fs n r c off = hang
read_run (suc k) disk fs n r c off =
    let room = get_cluster_size fs - off in
    let within = read_run k disk fs n (usize (r + (n - r))) c 0 in
    if not (ltb r n)
    then ok (LoomError.none, r, c)
    else if leb room (n - r)
    then advance (next_cluster disk c fs) c (usize (r + room))
        (λ next. read_run k disk fs n (usize (r + room)) next 0)
    else within

-- The file, the bytes read so far and the store, and the error that `out` sets, if any.
pub record Reading : Type 0 where
  pub error : LoomError
  pub file : FatFile
  pub nread : ℕ
  pub memory : Memory

abbrev pub stopped : LoomError → FatFile → ℕ → Memory → Exec Reading
stopped e f n m = ok (record { error = e; file = f; nread = n; memory = m })

-- The state behind a run of `read` bytes that was read, and the run that was not.
pub after_read :
    LoomError × Memory
    → FatFile
    → (read cluster nread : ℕ) → (FatFile → ℕ → Memory → Exec Reading)
    → Exec Reading
after_read (LoomError.none, m) f read c nread rest =
    rest (record f { position = usize (f.position + read); pos = c }) (usize (nread + read)) m
after_read (e, m) f read c nread rest = stopped e f nread m

pub after_run :
    LoomError × ℕ × ℕ
    → BlockDev
    → FatFs
    → FatFile
    → (max_read buf nread : ℕ) → Memory
    → (ℕ → FatFile → ℕ → Memory → Exec Reading)
    → Exec Reading
after_run (LoomError.none, read, c) dev fs f n buf nread m rest = do
  r ←
      block_dev_read dev (usize (get_cluster_offset f.pos fs + f.position % get_cluster_size fs))
        (min read n) buf m
  after_read r f (min read n) c nread (rest (min read n))
after_run (e, read, c) dev fs f n buf nread m rest = stopped e f nread m

-- The loop of `fatRead`; each run has `run_fuel`.
pub read_loop :
    (fuel run_fuel : ℕ)
    → Disk
    → BlockDev
    → FatFs
    → FatFile
    → (nbytes buf nread : ℕ) → Memory
    → Exec Reading
read_loop zero k disk dev fs f nbytes buf nread m = hang
read_loop (suc l) k disk dev fs f nbytes buf nread m =
    if nbytes == 0 || (leb f.size f.position || leb (get_cluster_limit fs.type) f.pos)
    then stopped LoomError.none f nread m
    else do
      run ←
          read_run k disk fs (min (f.size - f.position) nbytes) 0 f.pos
            (f.position % get_cluster_size fs)
      after_run run dev fs f (min (f.size - f.position) nbytes) buf nread m
          (λ read f1 nread1 m1. read_loop l k disk dev fs f1 (nbytes - read) (buf + read) nread1 m1)

-- `fatRead`; a byte is read in each round of a loop at least, before the last test.
pub read_file : Disk → BlockDev → FatFs → FatFile → (nbytes buf nread : ℕ) → Memory → Exec Reading
read_file disk dev fs f nbytes buf nread m =
    read_loop (suc nbytes) (suc (suc nbytes)) disk dev fs f nbytes buf nread m

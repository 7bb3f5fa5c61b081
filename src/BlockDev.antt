-- ===== src/BlockDev.antt =====
-- src/core/block_dev.c and include/loom/block_dev.h: reads of bytes from a device of blocks.
-- The driver's `readv` is an argument: it takes the requests in order, and gives an error code
-- and the store that it leaves.
pub mod Driver
pub mod Read
pub mod Cache
mod Samples
use loom_bootloader.Base.{
  ℕ, ◌+◌, ◌-◌, ◌*◌, ◌/◌, ◌%◌, ◌≤◌, ◌<◌, min, List, [], ◌∷◌, ◌++◌, Bool, ◌||◌, ◌&&◌, not, Exec, ok,
  panic, ◌>>=◌, ◌>>◌, assert, ◌==◌, ltb, leb, if◌then◌else◌, usize,
}
use loom_bootloader.Error.{LoomError}
use loom_bootloader.Memory.{Memory, null, mem_copy}

-- `loom_io_req`; the requests that `next` links are a list.
pub record IoReq : Type 0 where
  pub block : ℕ
  pub count : ℕ
  pub buf : ℕ

abbrev pub request : ℕ → ℕ → ℕ → IoReq
request b n p = record { block = b; count = n; buf = p }

abbrev pub Readv : Type 0
Readv = List IoReq → Memory → Exec (LoomError × Memory)

-- The fields of `loom_block_dev` that a read uses; the cache stands in `Cache`.
pub record BlockDev : Type 0 where
  pub readv : Readv
  pub scratch : ℕ
  pub block_size : ℕ
  pub blocks : ℕ

-- The local variables of `loomBlockDevRead`.
pub record Plan : Type 0 where
  pub reqs : List IoReq
  pub size : ℕ
  pub block : ℕ
  pub mbuf : ℕ
  pub copy_first : ℕ
  pub copy_last : ℕ

-- A first block that is read in part goes to the first half of the scratch buffer.
pub plan_first : BlockDev → (offset : ℕ) → Plan → Plan
plan_first dev offset p =
    let block_offset = offset % dev.block_size in
    let copy_first = min (dev.block_size - block_offset) p.size in
    if block_offset == 0 then p else record p {
      reqs = p.reqs ++ request p.block 1 dev.scratch ∷ [];
      size = p.size - copy_first;
      block = usize (p.block + 1);
      mbuf = p.mbuf + copy_first;
      copy_first = copy_first;
    }

-- Whole blocks go to the caller's buffer.
pub plan_middle : BlockDev → Plan → Plan
plan_middle dev p =
    let blocks = p.size / dev.block_size in
    let nbytes = usize (blocks * dev.block_size) in
    if leb dev.block_size p.size
    then record p {
      reqs = p.reqs ++ request p.block blocks p.mbuf ∷ [];
      size = p.size - nbytes;
      block = usize (p.block + blocks);
      mbuf = p.mbuf + nbytes;
    }
    else p

-- What is left goes to the second half of the scratch buffer.
pub plan_last : BlockDev → Plan → Exec Plan
plan_last dev p = if p.size == 0 then ok p else do
  assert (ltb p.size dev.block_size)
  ok (record p {
    reqs = p.reqs ++ request p.block 1 (dev.scratch + dev.block_size) ∷ [];
    copy_last = p.size;
  })

abbrev pub start : BlockDev → (offset size buf : ℕ) → Plan
start dev offset size buf = record {
  reqs = [];
  size = size;
  block = offset / dev.block_size;
  mbuf = buf;
  copy_first = 0;
  copy_last = 0;
}

pub issue : BlockDev → List IoReq → Memory → Exec (LoomError × Memory)
issue dev [] m = ok (LoomError.none, m)
issue dev (r ∷ rs) m = dev.readv (r ∷ rs) m

abbrev pub copy_if : (dst src count : ℕ) → Memory → Exec Memory
copy_if d s n m = if n == 0 then ok m else mem_copy d s n m

-- The copies out of the scratch buffer, unless the driver reports an error.
pub finish : BlockDev → (offset buf : ℕ) → Plan → LoomError × Memory → Exec (LoomError × Memory)
finish dev offset buf p (LoomError.none, m) = do
  m1 ← copy_if buf (dev.scratch + offset % dev.block_size) p.copy_first m
  m2 ← copy_if p.mbuf (dev.scratch + dev.block_size) p.copy_last m1
  ok (LoomError.none, m2)
finish dev offset buf p (e, m) = ok (e, m)

pub block_dev_read : BlockDev → (offset size buf : ℕ) → Memory → Exec (LoomError × Memory)
block_dev_read dev offset size buf m = do
  assert (not (dev.scratch == null) && not (dev.block_size == 0))
  assert (size == 0 || not (buf == null))
  p ← plan_last dev (plan_middle dev (plan_first dev offset (start dev offset size buf)))
  r ← issue dev p.reqs m
  finish dev offset buf p r

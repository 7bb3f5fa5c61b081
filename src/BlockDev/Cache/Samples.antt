-- ===== src/BlockDev/Cache/Samples.antt =====
-- A cache of two entries, and a read of two bytes inside the block 1 of a device of four-byte blocks.
use loom_bootloader.Base.{ℕ, ◌+◌, ◌≡◌, ok, ok_injective, refl, arith, ap, sym, ◌∙◌, inl}
use loom_bootloader.Error.{LoomError}
use loom_bootloader.Memory.{Memory}
use loom_bootloader.BlockDev.{BlockDev, Readv}
use loom_bootloader.BlockDev.Driver.{fill, Serves}
use loom_bootloader.BlockDev.Read.Confined.{Confined}
use loom_bootloader.BlockDev.Cache.{Cache, cache_init, cached_read, init_loop, link_mru_head}
use loom_bootloader.BlockDev.Cache.Slots.{Coherent}
use loom_bootloader.BlockDev.Cache.Init.{cache_init-Coherent}
use loom_bootloader.BlockDev.Cache.Answer.{Answered}
use loom_bootloader.BlockDev.Cache.Read.{cached_read-Answered}

abbrev ramp : ℕ → ℕ
ramp o = o + 100

abbrev ramp_readv : Readv
ramp_readv reqs m = ok (LoomError.none, fill ramp 4 reqs m)

abbrev dev : BlockDev
dev = record { readv = ramp_readv; scratch = 5000; block_size = 4; blocks = 8 }

abbrev blank : Memory
blank a = 0

ramp-Serves : Serves ramp_readv ramp 4
ramp-Serves = record {
  returns = λ reqs m h. ((LoomError.none, fill ramp 4 reqs m), refl, λ e a. refl);
}

ramp-Confined : Confined ramp_readv ramp 4
ramp-Confined = record { outside = λ reqs m r e a f. ap (λ q. q.1 a) (sym (ok_injective e)) ∙ f m }

-- A heap that hands out one block after another.
abbrev bump : ℕ → ℕ → ℕ × ℕ
bump n h = (h, h + n)

abbrev keep : ℕ → ℕ → ℕ
keep p h = h

abbrev unset : Cache
unset = record {
  count = 0;
  block_size = 0;
  table = 0;
  mru = 0;
  slots = 0;
  io_reqs = 0;
  links = record { prev = λ a. 0; next = λ a. 0 };
  block = λ a. 0;
}

abbrev cache : Cache
cache =
    record (init_loop 2 0 (record {
      count = 0;
      block_size = 0;
      table = 6000;
      mru = 0;
      slots = 6032;
      io_reqs = 6040;
      links = unset.links;
      block = unset.block;
    })) { count = 2; block_size = 4 }

cache_init-Coherent_example : Coherent ramp cache blank × (cache.count ≡ 2) × (cache.block_size ≡ 4)
unfolding cache_init
cache_init-Coherent_example =
    cache_init-Coherent bump keep ramp blank unset cache 2 4 6000 6088 refl

cached_read-Answered_example :
    (e : LoomError) × ((m' : Memory) × ((c' : Cache) × ((cached_read dev cache 5 2 1000 blank
            ≡ ok (e, m', c'))
          × Answered ramp dev cache 5 2 1000 blank e m' c')))
unfolding init_loop link_mru_head cache_init
cached_read-Answered_example =
    cached_read-Answered ramp dev cache 5 2 1000 ramp-Serves ramp-Confined
      (record { same_size = refl; from_buf = inl (omega arith); from_scratch = inl (omega arith) })
      (omega arith) (omega arith) (inl (omega arith)) (omega arith) (omega arith) blank
      (cache_init-Coherent bump keep ramp blank unset cache 2 4 6000 6088 refl).0

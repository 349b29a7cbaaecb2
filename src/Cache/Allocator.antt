-- ===== src/Cache/Allocator.antt =====
-- What the cache uses of the allocator, and the cache itself: `apc_cache_t`. The allocator of
-- apc_sma.c is one value of the interface (Sma/Api/Instance.antt).
use apcu.Prelude.{ℕ, Bool, true, Option, List, ◌==◌, if◌then◌else◌}
use apcu.Sma.Malloc.{Attempt}
use apcu.Cache.Types.{Entry, Header, Env, ZendString, Zval}

pub record Allocator : Type 1 where
  pub Mem : Type 0
  pub total_size : Mem → ℕ
  pub max_alloc_size : Mem → ℕ
  pub try_malloc : Mem → ℕ → Attempt Mem
  pub free : Mem → ℕ → Mem
  pub check_avail : Mem → ℕ → Bool
  pub check_avail_contiguous : Mem → ℕ → Bool
  pub defrag : (D : Type 0) → (D → ℕ → ℕ → Bool × D) → Mem → D → Mem × D
  -- the owner's data changes by the callback alone
  pub defrag_inv :
      (D : Type 0) (P : D → Type 0) (move : D → ℕ → ℕ → Bool × D)
      → ((d : D) (old new : ℕ) → P d → P (move d old new).1)
      → (m : Mem) (d : D) → P d
      → P (defrag D move m d).1

-- `expunge_threshold size hundredth` is `size + hundredth * threshold`, which the source computes
-- in floating point.
pub record Cache (a : Allocator) : Type 0 where
  pub header : Header
  pub slots : List (List Entry)
  pub sma : a.Mem
  pub nslots : ℕ
  pub gc_ttl : ℕ
  pub ttl : ℕ
  pub expunge_threshold : ℕ → ℕ → ℕ
  pub defend : Bool

-- `apc_cache_wlock`, `apc_cache_rlock`: inside `apcu_entry` the lock is held already.
unfoldable pub wlock : Env → Bool
wlock env = if env.entry_level == 0 then env.wlock_granted else true

unfoldable pub rlock : Env → Bool
rlock env = if env.entry_level == 0 then env.rlock_granted else true

-- What the cache uses of apc_persist.c: the size of the entry with the form in which the value is
-- kept, if the value can be kept, and the value that is made of that form.
pub record Codec : Type 0 where
  pub persist : ZendString → Zval → Option (ℕ × Zval)
  pub unpersist : Zval → Option Zval

-- What one call of the interface takes from outside. `meanwhile` is what other processes do at a
-- point where the call holds no lock; `tries` bounds the restarts of an allocation.
pub record Call (a : Allocator) : Type 0 where
  pub env : Env
  pub codec : Codec
  pub meanwhile : Cache a → Cache a
  pub tries : ℕ

-- ===== src/Tests/CacheRuns.antt =====
-- The cache on a segment of 4096 bytes, with two slots and two entries.
use apcu.Prelude.{◌≡◌, refl, Bool, true, false, Option, none, some, [], ◌∷◌, arith}
use apcu.Prelude.Int.{pos}
use apcu.Sma.Api.{init_segment}
use apcu.Sma.Api.Instance.{sma_allocator}
use apcu.Cache.Types.{ZendString, long, Entry, Header, Env, no_slam_key}
use apcu.Cache.Allocator.{Allocator, Cache, Codec, Call, wlock}
use apcu.Cache.Entry.{hash_slot, key_equals, expired, hard_expired}
use apcu.Cache.Valid.{IsValid, total_count, total_weight, weight}
use apcu.Cache.Allocator.{rlock}
use apcu.Cache.Fetch.{fetch}
use apcu.Cache.Update.{Updated, IncArgs, php_inc_updater, atomic_update_long}
use apcu.Cache.Store.{store}
use apcu.Tests.SmaRuns.{platform}

instance abbrev pub allocator : Allocator
allocator = sma_allocator true

abbrev pub key_a : ZendString
key_a = record { h = 4; val = 97 ∷ [] }

abbrev pub key_b : ZendString
key_b = record { h = 7; val = 98 ∷ [] }

abbrev pub entry_a : Entry
entry_a = record {
  addr = 1000;
  ttl = pos 5;
  ref_count = pos 1;
  nhits = 0;
  ctime = 100;
  mtime = 100;
  dtime = 0;
  atime = 100;
  mem_size = 96;
  val = long (pos 1);
  key = key_a;
}

abbrev pub entry_b : Entry
entry_b = record entry_a { addr = 2000; ttl = pos 0; key = key_b; mem_size = 80 }

unfoldable pub memory : allocator.Mem
unfolding sma_allocator init_segment
memory = record {
  initialized = true;
  size = 4096;
  max_alloc_size = 3800;
  shmaddr = 0;
  seg = init_segment 4096 0;
}

abbrev pub header : Header
header = record {
  nhits = 0;
  nmisses = 0;
  ninserts = 2;
  ncleanups = 0;
  ndefragmentations = 0;
  nexpunges = 0;
  nentries = 2;
  mem_size = 176;
  stime = 1;
  lastkey = no_slam_key;
  gc = [];
}

abbrev pub cache : Cache allocator
cache = record {
  header = header;
  slots = (entry_a ∷ []) ∷ (entry_b ∷ []) ∷ [];
  sma = memory;
  nslots = 2;
  gc_ttl = 3600;
  ttl = 0;
  expunge_threshold = λ size hundredth. size;
  defend = false;
}

pub cache-IsValid : IsValid cache
unfolding total_count total_weight weight
cache-IsValid = record {
  some_slots = omega arith;
  sized = refl;
  good = (((refl, tt), (tt, tt)), (((refl, tt), (tt, tt)), tt));
  tally = record { count = refl; bytes = refl };
}

abbrev pub env : Env
env = record {
  now = 101;
  wall = 101;
  pid = 1;
  entry_level = 0;
  wlock_granted = true;
  rlock_granted = true;
}

abbrev pub codec : Codec
codec = record { persist = λ key val. some (96, val); unpersist = λ val. some val }

abbrev pub call : Call allocator
call = record { env = env; codec = codec; meanwhile = λ c. c; tries = 2 }

abbrev cache_of : Option (Bool × Cache allocator) → Cache allocator
cache_of none = cache
cache_of (some (b, c)) = c

pub after_store : Cache allocator
unfolding store memory sma_allocator platform
after_store = cache_of (store call cache key_a (long (pos 2)) (pos 9) false)

pub after_store_runs :
    store call cache key_a (long (pos 2)) (pos 9) false ≡ some (true, after_store)
unfolding after_store wlock hash_slot key_equals
after_store_runs = refl

-- a new integer under `key_c`
abbrev pub key_c : ZendString
key_c = record { h = 9; val = 99 ∷ [] }

pub after_zero : Cache allocator
unfolding store memory sma_allocator platform
after_zero = cache_of (store call cache key_c (long (pos 0)) (pos 0) true)

pub after_zero_runs : store call cache key_c (long (pos 0)) (pos 0) true ≡ some (true, after_zero)
unfolding after_zero wlock hash_slot key_equals expired
after_zero_runs = refl

after_fetch : Cache allocator
unfolding fetch
after_fetch = elim (fetch call cache key_a 101) [ none ↦ cache | some (v, c) ↦ c ]

after_fetch_runs : fetch call cache key_a 101 ≡ some (some (long (pos 1)), after_fetch)
unfolding after_fetch rlock hash_slot key_equals hard_expired
after_fetch_runs = refl

-- five more
abbrev pub five : IncArgs
five = record { step = pos 5; rval = pos 0 }

after_inc : Updated allocator IncArgs
unfolding atomic_update_long
after_inc = elim (atomic_update_long php_inc_updater call cache key_a five false (pos 0)) [
  | none ↦ record { done = false; result = five; cache = cache }
  | some u ↦ u
]

after_inc_runs :
    atomic_update_long php_inc_updater call cache key_a five false (pos 0) ≡ some after_inc
unfolding after_inc rlock hash_slot key_equals hard_expired
after_inc_runs = refl

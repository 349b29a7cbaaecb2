-- ===== src/Cache/Create.antt =====
-- `make_prime` and `apc_cache_create` (apc_cache.c).
pub mod Primes
use apcu.Prelude.{
  ℕ, ◌+◌, ◌*◌, ◌/◌, Bool, true, false, Option, none, some, List, [], ◌∷◌, ltb, if◌then◌else◌,
  replicate,
}
use apcu.Sma.Malloc.{malloc}
use apcu.Cache.Types.{Header, no_slam_key}
use apcu.Cache.Allocator.{Allocator, Cache}

-- the table without its sentinel
abbrev pub primes : List ℕ
primes =
    257 ∷ 521 ∷ 1031 ∷ 2053 ∷ 3079 ∷ 4099 ∷ 5147 ∷ 6151 ∷ 7177 ∷ 8209 ∷ 9221 ∷ 10243 ∷ 11273 ∷ 12289
    ∷ 13313 ∷ 14341 ∷ 15361 ∷ 16411 ∷ 17417 ∷ 18433 ∷ 19457 ∷ 20483 ∷ 30727 ∷ 40961 ∷ 61441 ∷ 81929
    ∷ 122887 ∷ 163841 ∷ 245771 ∷ 327689 ∷ 491527 ∷ 655373 ∷ 983063 ∷ 1310627 ∷ 1474489 ∷ 1965983
    ∷ 2621347 ∷ 3276719 ∷ 3932063 ∷ 4587431 ∷ 5242801 ∷ 6553511 ∷ 7864243 ∷ 8847271 ∷ 9830321
    ∷ 10485667 ∷ []

-- the loop over the table; `last` is the entry before `k`
pub prime_loop : ℕ → ℕ → List ℕ → ℕ
prime_loop n last [] = last
prime_loop n last (k ∷ ks) = if ltb n k then k else prime_loop n k ks

pub make_prime : ℕ → ℕ
unfolding prime_loop
make_prime n = prime_loop n 0 primes

-- The options of apc_cache_create, and what the build fixes: the size of the header in the
-- segment and of one slot.
pub record Options : Type 0 where
  pub size_hint : ℕ
  pub gc_ttl : ℕ
  pub ttl : ℕ
  pub expunge_threshold : ℕ → ℕ → ℕ
  pub defend : Bool
  pub sizeof_header : ℕ
  pub sizeof_slot : ℕ

slots_of : Options → ℕ → ℕ
unfolding make_prime
slots_of o size = make_prime (if ltb 0 o.size_hint then o.size_hint else size / 2048)

module _ ⦃a : Allocator⦄ where
  -- The callback of the allocation is `apc_cache_default_expunge` without a cache, which does
  -- nothing and returns 1. `none` is the fatal error.
  unfoldable pub create : Options → a.Mem → (stime : ℕ) → Option (Cache a)
  unfolding slots_of malloc
  create o sma stime =
      let nslots = slots_of o (a.total_size sma) in
      elim (malloc a.max_alloc_size a.try_malloc (λ m _. (true, m)) 2 false sma
        (o.sizeof_header + nslots * o.sizeof_slot)) [
          | none ↦ none
          | some (none, _) ↦ none
          | some (some _, sma') ↦ some (record {
            header = record {
              nhits = 0;
              nmisses = 0;
              ninserts = 0;
              ncleanups = 0;
              ndefragmentations = 0;
              nexpunges = 0;
              nentries = 0;
              mem_size = 0;
              stime = stime;
              lastkey = no_slam_key;
              gc = [];
            };
            slots = replicate nslots [];
            sma = sma';
            nslots = nslots;
            gc_ttl = o.gc_ttl;
            ttl = o.ttl;
            expunge_threshold = o.expunge_threshold;
            defend = o.defend;
          })
        ]

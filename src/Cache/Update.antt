-- ===== src/Cache/Update.antt =====
-- `apc_cache_update` and `apc_cache_atomic_update_long` (apc_cache.c), with the updaters of
-- php_apc.c. An updater gets the data of its caller and gives it back.
pub mod Laws
use apcu.Prelude.{ℕ, Bool, true, false, Option, none, some, ◌==◌, ltb, ◌-◌, ◌^◌, ◌%◌, if◌then◌else◌}
use apcu.Prelude.Int.{ℤ, pos, negsuc, ◌+ℤ◌}
use apcu.Cache.Types.{ZendString, long, is_simple, Entry}
use apcu.Cache.Allocator.{Allocator, Cache, Call, wlock, rlock}
use apcu.Cache.Entry.{update_entry}
use apcu.Cache.Find.{find_nostat}
use apcu.Cache.Store.{store}

-- what a call gives back: whether the update succeeded, the caller's data, the cache
pub record Updated (a : Allocator) (D : Type 0) : Type 0 where
  pub done : Bool
  pub result : D
  pub cache : Cache a

-- `zend_long` addition wraps round at 64 bits.
unfoldable pub wrap_long : ℤ → ℤ
wrap_long (pos n) = let m = n % 2 ^ 64 in if ltb m (2 ^ 63) then pos m else negsuc (2 ^ 64 - m - 1)
wrap_long (negsuc n) =
    let m = n % 2 ^ 64 in if ltb m (2 ^ 63) then negsuc m else pos (2 ^ 64 - m - 1)

-- `struct php_inc_updater_args`
pub record IncArgs : Type 0 where
  pub step : ℤ
  pub rval : ℤ

unfoldable pub php_inc_updater : ℤ → IncArgs → Bool × ℤ × IncArgs
unfolding wrap_long ◌+ℤ◌
php_inc_updater n args =
    let sum = wrap_long (n +ℤ args.step) in (true, sum, record args { rval = sum })

eq_ℤ : ℤ → ℤ → Bool
eq_ℤ (pos m) (pos n) = m == n
eq_ℤ (negsuc m) (negsuc n) = m == n
eq_ℤ _ _ = false

-- `ATOMIC_CAS(*entry, old, new)`
unfoldable pub php_cas_updater : ℤ → ℤ × ℤ → Bool × ℤ × (ℤ × ℤ)
unfolding eq_ℤ
php_cas_updater n (old, new) =
    if eq_ℤ n old then (true, new, (old, new)) else (false, n, (old, new))

pub set_long : ℤ → ℕ → Entry → Entry
set_long n t e = record e { val = long n; mtime = t }

module _ ⦃a : Allocator⦄ {D : Type 0} where
  -- the two kinds of write to the entry that was found; `none` leaves the entry as it is
  apply_update : (Entry → D → Bool × Entry × D) → ℕ → Cache a → Entry → D → Updated a D
  unfolding update_entry is_simple
  apply_update updater t cache e d =
      let r = updater e d in
      let changed = r.1 in
      if is_simple e.val
      then record {
        done = r.0;
        result = r.2;
        cache = update_entry cache e.addr (λ _. record changed { mtime = t });
      }
      else record { done = false; result = d; cache = cache }

  pub apply_long : (ℤ → D → Bool × ℤ × D) → ℕ → Cache a → Entry → D → Updated a D
  unfolding update_entry set_long
  apply_long updater t cache e d = elim e.val [
    | long n ↦
        let r = updater n d in
        record { done = r.0; result = r.2; cache = update_entry cache e.addr (set_long r.1 t) }
    | _ ↦ record { done = false; result = d; cache = cache }
  ]

  -- one pass from `retry_update` on; `none` is an entry that is not there
  pub update_pass :
      Bool
      → (Cache a → Entry → D → Updated a D)
      → Cache a
      → ZendString
      → ℕ
      → D
      → Option (Updated a D)
  unfolding find_nostat
  update_pass locked apply cache key t d =
      if locked
      then elim (find_nostat cache key t) [ none ↦ none | some e ↦ some (apply cache e d) ]
      else some (record { done = false; result = d; cache = cache })

  -- The jump back to `retry_update` is taken at most once. `none` outside is an allocation whose
  -- restarts ran out.
  pub update_with :
      Bool
      → (Cache a → Entry → D → Updated a D)
      → Call a
      → Cache a
      → ZendString
      → D
      → (insert_if_not_found : Bool) → ℤ
      → Option (Updated a D)
  unfolding update_pass
  update_with locked apply call cache key d insert_if_not_found ttl =
      let t = call.env.now in
      let inserted = store call (call.meanwhile cache) key (long (pos 0)) ttl true in
      elim (update_pass locked apply cache key t d) [
        | some u ↦ some u
        | none ↦
            if insert_if_not_found
            then elim inserted [
              | none ↦ none
              | some (_, c) ↦ elim (update_pass locked apply (call.meanwhile c) key t d) [
                | some u ↦ some u
                | none ↦ some (record { done = false; result = d; cache = call.meanwhile c })
              ]
            ]
            else some (record { done = false; result = d; cache = cache })
      ]

  unfoldable update :
      (Entry → D → Bool × Entry × D)
      → Call a
      → Cache a
      → ZendString
      → D
      → (insert_if_not_found : Bool) → ℤ
      → Option (Updated a D)
  unfolding update_with apply_update wlock
  update updater call = update_with (wlock call.env) (apply_update updater call.env.now) call

  unfoldable pub atomic_update_long :
      (ℤ → D → Bool × ℤ × D)
      → Call a
      → Cache a
      → ZendString
      → D
      → (insert_if_not_found : Bool) → ℤ
      → Option (Updated a D)
  unfolding update_with apply_long rlock
  atomic_update_long updater call =
      update_with (rlock call.env) (apply_long updater call.env.now) call

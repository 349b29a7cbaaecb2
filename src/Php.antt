-- ===== src/Php.antt =====
-- The functions that a script calls (php_apc.c), on the cache of the process. A call carries the
-- codec with the serializer that the settings name.
pub mod Batch
pub mod Stored
use apcu.Prelude.{
  ℕ, Bool, true, false, Option, none, some, List, [], ◌∷◌, ◌++◌, ◌>>=◌, ◌==◌, ◌&&◌, if◌then◌else◌,
}
use apcu.Prelude.Int.{ℤ, pos, ◌-ℤ◌}
use apcu.Cache.Types.{
  ZendString, Zval, undef, null_value, string, array, object, Buckets, end, bucket, memcmp_eq, Env,
}
use apcu.Cache.Allocator.{Allocator, Cache, Call}
use apcu.Cache.Delete.{delete}
use apcu.Cache.Expunge.{clear}
use apcu.Cache.Fetch.{fetch, exists, entry}
use apcu.Cache.Store.{store}
use apcu.Cache.Update.{IncArgs, php_inc_updater, php_cas_updater, atomic_update_long, wrap_long}
use apcu.Iterator.Types.{Iterator, deref}
use apcu.Iterator.Methods.{values, apc_iterator_delete}

-- What a function returns. The arrays are given by their values, by their keys where every value is
-- the same, or by both.
pub data Answer : Type 0 where
  flag : Bool → Answer
  number : ℤ → Answer
  single : Zval → Answer
  listed : List Zval → Answer
  keyed : List ZendString → Answer
  paired : List (ZendString × Zval) → Answer

-- What a function uses of PHP: the conversion of a value to a string, the string of a number, and
-- the iterator that an object is, if it is one.
pub record Php : Type 0 where
  pub to_string : Zval → ZendString
  pub long_to_str : ℤ → ZendString
  pub iterator_of : ℕ → Option Iterator

-- `zend_hash_update` of an array with strings as keys
hash_update : List (ZendString × Zval) → ZendString → Zval → List (ZendString × Zval)
unfolding memcmp_eq
hash_update [] key v = (key, v) ∷ []
hash_update ((k, w) ∷ rest) key v =
    if k.h == key.h && memcmp_eq k.val key.val
    then (key, v) ∷ rest
    else (k, w) ∷ hash_update rest key v

module _ ⦃a : Allocator⦄ where
  -- one value of the array that `apcu_delete` got, and those that were not deleted so far
  pub delete_value : Env → Zval → List Zval → Cache a → List Zval × Cache a
  unfolding delete
  delete_value env (string p s) failed cache =
      let r = delete env cache s in (if r.0 then failed else failed ++ string p s ∷ [], r.1)
  delete_value env z failed cache = (failed ++ z ∷ [], cache)

  pub delete_each : Env → List Zval → List Zval → Cache a → List Zval × Cache a
  unfolding deref
  delete_each env [] failed cache = (failed, cache)
  delete_each env (z ∷ zs) failed cache =
      let r = delete_value env (deref z) failed cache in delete_each env zs r.0 r.1

  -- `fuel` bounds the rounds of an iterator.
  pub apcu_delete : Php → (fuel : ℕ) → Call a → (keys : Zval) → Cache a → Option (Answer × Cache a)
  unfolding values apc_iterator_delete
  apcu_delete php fuel call (string p s) cache =
      let r = delete call.env cache s in some (flag r.0, r.1)
  apcu_delete php fuel call (array p info bs) cache =
      let r = delete_each call.env (values bs) [] cache in some (listed r.0, r.1)
  apcu_delete php fuel call (object p) cache = elim (php.iterator_of p) [
    | none ↦ some (flag false, cache)
    | some it ↦ apc_iterator_delete fuel call it cache >>= λ r. some (flag r.0, r.2)
  ]
  apcu_delete php fuel call keys cache = some (flag false, cache)

  unfoldable exists_value : Env → Zval → List ZendString → Cache a → List ZendString × Cache a
  unfolding exists
  exists_value env (string p s) found cache =
      let r = exists env cache s env.now in (if r.0 then found ++ s ∷ [] else found, r.1)
  exists_value env z found cache = (found, cache)

  unfoldable exists_each : Env → List Zval → List ZendString → Cache a → List ZendString × Cache a
  unfolding deref
  exists_each env [] found cache = (found, cache)
  exists_each env (z ∷ zs) found cache =
      let r = exists_value env (deref z) found cache in exists_each env zs r.0 r.1

  unfoldable apcu_exists : Php → Call a → (key : Zval) → Cache a → Answer × Cache a
  unfolding values exists
  apcu_exists php call (array p info bs) cache =
      let r = exists_each call.env (values bs) [] cache in (keyed r.0, r.1)
  apcu_exists php call (string p s) cache =
      let r = exists call.env cache s call.env.now in (flag r.0, r.1)
  apcu_exists php call key cache =
      let r = exists call.env cache (php.to_string key) call.env.now in (flag r.0, r.1)

  unfoldable fetch_value :
      Call a
      → Zval
      → List (ZendString × Zval)
      → Cache a
      → Option (List (ZendString × Zval) × Cache a)
  unfolding fetch hash_update
  fetch_value call (string p s) found cache =
      fetch call cache s call.env.now >>= λ (r : Option Zval × Cache a).
      some (elim r.0 [ none ↦ found | some v ↦ hash_update found s v ], r.1)
  fetch_value call z found cache = some (found, cache)

  unfoldable fetch_each :
      Call a
      → List Zval
      → List (ZendString × Zval)
      → Cache a
      → Option (List (ZendString × Zval) × Cache a)
  unfolding deref
  fetch_each call [] found cache = some (found, cache)
  fetch_each call (z ∷ zs) found cache =
      fetch_value call (deref z) found cache >>= λ (r : List (ZendString × Zval) × Cache a).
      fetch_each call zs r.0 r.1

  -- one key: what `success` is set to, and the answer
  unfoldable fetch_one : Call a → ZendString → Cache a → Option (Bool × Answer × Cache a)
  unfolding fetch
  fetch_one call key cache = fetch call cache key call.env.now >>= λ (r : Option Zval × Cache a).
      elim r.0 [ none ↦ some (false, flag false, r.1) | some v ↦ some (true, single v, r.1) ]

  unfoldable apcu_fetch : Php → Call a → (key : Zval) → Cache a → Option (Bool × Answer × Cache a)
  unfolding values
  apcu_fetch php call (array p info bs) cache =
      fetch_each call (values bs) [] cache >>= λ (r : List (ZendString × Zval) × Cache a).
      some (true, paired r.0, r.1)
  apcu_fetch php call (string p s) cache = fetch_one call s cache
  apcu_fetch php call key cache = fetch_one call (php.to_string key) cache

  -- `zend_long_to_str` where a bucket has no key
  key_of : Php → ℤ → Option (ℕ × ZendString) → ZendString
  key_of php h none = php.long_to_str h
  key_of php h (some (p, k)) = k

  -- the keys that were not stored
  unfoldable pub store_each :
      Php
      → Call a
      → (ttl : ℤ) (exclusive : Bool) → Buckets
      → List ZendString
      → Cache a
      → Option (List ZendString × Cache a)
  unfolding key_of deref
  store_each php call ttl exclusive end failed cache = some (failed, cache)
  store_each php call ttl exclusive (bucket h key undef bs) failed cache =
      store_each php call ttl exclusive bs failed cache
  store_each php call ttl exclusive (bucket h key z bs) failed cache =
      store call cache (key_of php h key) (deref z) ttl exclusive >>= λ (r : Bool × Cache a).
      store_each php call ttl exclusive bs (if r.0 then failed else failed ++ key_of php h key ∷ [])
        r.1

  unfoldable pub apc_store_helper :
      Php
      → Call a
      → (key : Zval) (val : Option Zval) (ttl : ℤ) (exclusive : Bool) → Cache a
      → Option (Answer × Cache a)
  unfolding store
  apc_store_helper php call (array p info bs) val ttl exclusive cache =
      store_each php call ttl exclusive bs [] cache >>= λ (r : List ZendString × Cache a).
      some (keyed r.0, r.1)
  apc_store_helper php call (string p s) none ttl exclusive cache = some (flag false, cache)
  apc_store_helper php call (string p s) (some val) ttl exclusive cache =
      store call cache s val ttl exclusive >>= λ (r : Bool × Cache a). some (flag r.0, r.1)
  apc_store_helper php call key val ttl exclusive cache = some (flag false, cache)

  unfoldable apcu_store :
      Php → Call a → Zval → Option Zval → (ttl : ℤ) → Cache a → Option (Answer × Cache a)
  apcu_store php call key val ttl cache = apc_store_helper php call key val ttl false cache

  unfoldable apcu_add :
      Php → Call a → Zval → Option Zval → (ttl : ℤ) → Cache a → Option (Answer × Cache a)
  apcu_add php call key val ttl cache = apc_store_helper php call key val ttl true cache

  -- `apcu_inc` and `apcu_dec` after their arguments: what `success` is set to, and the answer
  unfoldable inc_by :
      Call a → ZendString → (step ttl : ℤ) → Cache a → Option (Bool × Answer × Cache a)
  unfolding atomic_update_long php_inc_updater
  inc_by call key step ttl cache =
      elim (atomic_update_long php_inc_updater call cache key (record { step = step; rval = pos 0 })
        true ttl) [
          | none ↦ none
          | some u ↦ some (u.done, (if u.done then number u.result.rval else flag false), u.cache)
        ]

  unfoldable apcu_inc :
      Call a → ZendString → (step ttl : ℤ) → Cache a → Option (Bool × Answer × Cache a)
  apcu_inc call key step ttl cache = inc_by call key step ttl cache

  -- `0 - step` wraps around
  unfoldable apcu_dec :
      Call a → ZendString → (step ttl : ℤ) → Cache a → Option (Bool × Answer × Cache a)
  unfolding wrap_long ◌-ℤ◌
  apcu_dec call key step ttl cache = inc_by call key (wrap_long (pos 0 -ℤ step)) ttl cache

  unfoldable apcu_cas : Call a → ZendString → (old new : ℤ) → Cache a → Option (Answer × Cache a)
  unfolding atomic_update_long php_cas_updater
  apcu_cas call key old new cache =
      elim (atomic_update_long php_cas_updater call cache key (old, new) false (pos 0)) [
        | none ↦ none
        | some u ↦ some (flag u.done, u.cache)
      ]

  -- The null value is returned where there is no value.
  unfoldable apcu_entry :
      Call a
      → (generator : Env → Cache a → Option Zval × Cache a) → ZendString
      → (ttl : ℤ) → Cache a
      → Option (Answer × Cache a)
  unfolding entry
  apcu_entry call generator key ttl cache =
      entry call generator cache key ttl call.env.now >>= λ (r : Option Zval × Cache a).
      some (single (elim r.0 [ none ↦ null_value | some v ↦ v ]), r.1)

  unfoldable apcu_clear_cache : Env → Cache a → Answer × Cache a
  apcu_clear_cache env cache = (flag true, clear env cache)

-- ===== src/Tests/CacheWitnesses.antt =====
-- The theorems on the cache at the cache of Tests/CacheRuns.antt.
use apcu.Prelude.{
  ap, ◌≡◌, ◌≢◌, refl, Bool, true, false, not, ◌&&◌, none, some, arith, is_some, if◌then◌else◌,
}
use apcu.Prelude.Int.{pos}
use apcu.Cache.Types.{long, Entry}
use apcu.Cache.Allocator.{Cache, wlock, rlock}
use apcu.Cache.Entry.{key_equals, hard_expired, ttl_over, expired, hash_slot}
use apcu.Cache.Find.{find_nostat}
use apcu.Cache.Fetch.{stat}
use apcu.Cache.Update.{Updated, IncArgs, php_inc_updater, set_long, atomic_update_long}
use apcu.Cache.Update.Laws.{atomic_update_long-find, atomic_update_long-inserts}
use apcu.Cache.Store.{store}
use apcu.Cache.Store.Keeps.{store-IsValid}
use apcu.Cache.Store.Laws.{store-find}
use apcu.Cache.Store.Ends.{store_total}
use apcu.Cache.Remove.{wlocked_gc}
use apcu.Cache.Insert.{wlocked_insert}
use apcu.Cache.Insert.Laws.{insert-answer, insert-find, insert-find_keeps, insert-IsValid}
use apcu.Cache.Delete.{delete}
use apcu.Cache.Delete.Laws.{delete-answer, delete-find, delete-find_other, delete-IsValid}
use apcu.Cache.Expunge.{drop_expired, real_expunge, default_expunge}
use apcu.Cache.Expunge.Drop.{drop_expired-find}
use apcu.Cache.Expunge.Laws.{real_expunge-find}
use apcu.Cache.Expunge.Default.{default_expunge-IsValid}
use apcu.Cache.Valid.{IsValid}
use apcu.Tests.CacheRuns.{
  allocator, key_a, key_b, entry_a, entry_b, cache, cache-IsValid, env, call, after_store,
  after_store_runs, key_c, after_zero, after_zero_runs, five,
}

b_ne_a : key_b ≢ key_a
b_ne_a e = absurd (omega (arith, ap (λ k. k.h) e))

store-find_example :
    (e : Entry) × (find_nostat after_store key_a 105 ≡ some e)
    × (e.val ≡ long (pos 2))
    × (e.ttl ≡ pos 9)
    × (e.ref_count ≡ pos 0)
unfolding ttl_over
store-find_example =
    store-find call cache after_store key_a (long (pos 2)) (long (pos 2)) 96 (pos 9) false 105
      (λ c v. v) cache-IsValid refl after_store_runs refl

store-IsValid_example : IsValid after_store
store-IsValid_example =
    store-IsValid call cache key_a (long (pos 2)) (pos 9) false (true, after_store) (λ c v. v)
      cache-IsValid after_store_runs

store_total_example :
    (r : Bool × Cache allocator) × (store call cache key_b (long (pos 3)) (pos 0) true ≡ some r)
store_total_example =
    store_total call 0 refl (λ d. omega arith) cache key_b (long (pos 3)) (pos 0) true

insert-answer_example :
    (wlocked_insert env cache entry_b true).0 ≡ not (true && is_some (find_nostat cache key_b 100))
insert-answer_example = insert-answer env cache entry_b true

insert-find_example :
    find_nostat (wlocked_insert env cache entry_b false).1 key_b 500
    ≡ (if hard_expired entry_b 500 then none else some entry_b)
unfolding wlocked_insert wlocked_gc hash_slot key_equals
insert-find_example = insert-find env cache entry_b false cache-IsValid refl 500

insert-find_keeps_example :
    find_nostat (wlocked_insert env cache entry_a false).1 key_b 500 ≡ some entry_b
unfolding find_nostat hash_slot key_equals expired hard_expired
insert-find_keeps_example =
    insert-find_keeps env cache entry_a false cache-IsValid key_b 500 entry_b b_ne_a refl refl

insert-IsValid_example : IsValid (wlocked_insert env cache entry_b true).1
insert-IsValid_example = insert-IsValid env cache entry_b true cache-IsValid

delete-answer_example : (delete env cache key_a).0 ≡ is_some (stat env cache key_a)
unfolding wlock rlock
delete-answer_example = delete-answer env cache key_a refl refl

delete-find_example : find_nostat (delete env cache key_a).1 key_a 102 ≡ none
unfolding wlock
delete-find_example = delete-find env cache key_a refl cache-IsValid 102

delete-find_other_example :
    find_nostat (delete env cache key_a).1 key_b 102 ≡ find_nostat cache key_b 102
delete-find_other_example = delete-find_other env cache key_a cache-IsValid key_b 102 b_ne_a

delete-IsValid_example : IsValid (delete env cache key_a).1
delete-IsValid_example = delete-IsValid env cache key_a cache-IsValid

drop_expired-find_example :
    find_nostat (drop_expired env cache) key_b 300 ≡ elim (find_nostat cache key_b 300) [
      | none ↦ none
      | some e ↦ if expired cache e 101 then none else some e
    ]
drop_expired-find_example = drop_expired-find env cache cache-IsValid key_b 300

default_expunge-IsValid_example : IsValid (default_expunge (λ c. c) env cache 3000).1
default_expunge-IsValid_example = default_expunge-IsValid (λ c. c) env cache 3000 cache-IsValid

real_expunge-find_example : find_nostat (real_expunge env cache) key_a 101 ≡ none
real_expunge-find_example = real_expunge-find env cache key_a 101

atomic_update_long-find_example :
    (u : Updated allocator IncArgs) × (atomic_update_long php_inc_updater call cache key_a five
        false
        (pos 0)
      ≡ some u)
    × (u.done ≡ (php_inc_updater (pos 1) five).0)
    × (u.result ≡ (php_inc_updater (pos 1) five).2)
    × (find_nostat u.cache key_a 101 ≡ some (set_long (php_inc_updater (pos 1) five).1 101 entry_a))
unfolding rlock find_nostat hash_slot key_equals hard_expired
atomic_update_long-find_example =
    atomic_update_long-find php_inc_updater call cache key_a five false (pos 0) entry_a (pos 1) refl
      refl refl

atomic_update_long-inserts_example :
    (u : Updated allocator IncArgs) × (e : Entry) × (atomic_update_long php_inc_updater call cache
        key_c five true
        (pos 0)
      ≡ some u)
    × (u.done ≡ (php_inc_updater (pos 0) five).0)
    × (u.result ≡ (php_inc_updater (pos 0) five).2)
    × (find_nostat u.cache key_c 101 ≡ some e)
    × (e.val ≡ long (php_inc_updater (pos 0) five).1)
    × (e.ttl ≡ pos 0)
unfolding rlock find_nostat hash_slot key_equals hard_expired ttl_over
atomic_update_long-inserts_example =
    atomic_update_long-inserts php_inc_updater call cache after_zero key_c five (pos 0) 96
      (λ x. refl) cache-IsValid refl refl refl after_zero_runs refl

-- ===== src/Tests/IteratorWitnesses.antt =====
-- The theorems on the iterator at the cache of Tests/CacheRuns.antt.
use apcu.Prelude.{
  ℕ, zero, suc, ◌+◌, ◌<◌, ◌≡◌, refl, true, false, not, none, some, List, [], ◌∷◌, ◌==◌, ◌&&◌, arith,
  ◌⊎◌, length, take, is_some, ltb,
}
use apcu.Prelude.Int.{pos}
use apcu.Stack.Refines.{IsStack, items}
use apcu.Cache.Types.{Zval, string}
use apcu.Cache.Allocator.{Cache, rlock}
use apcu.Cache.Valid.{weight}
use apcu.Cache.Expunge.{entry_in}
use apcu.Iterator.Types.{check_expiry, search_match, Iterator, Engine, fetch_active, fetch_deleted}
use apcu.Iterator.Fetch.{apc_iterator_fetch_active, apc_iterator_totals}
use apcu.Iterator.Gather.{found, found_all}
use apcu.Iterator.Items.{ResolveAll, item_keys, entry_keys}
use apcu.Iterator.Covers.{fetch_active-covers}
use apcu.Iterator.Methods.{apc_iterator_obj_init, fetch_of_list, valid, iter_all}
use apcu.Iterator.Restart.{valid-restarts}
use apcu.Iterator.Totals.{total_hits, totals-sums}
use apcu.Iterator.Construct.{is_ready, Sound, bad_search, apc_iterator_obj_init-ready}
use apcu.Tests.CacheRuns.{allocator, key_a, entry_a, entry_b, header, cache, call}

abbrev engine : Engine
engine = record { hash_val = λ s. 5; compile = λ s. some (λ k. k.h == 4); lval = λ z. pos 0 }

abbrev it : Iterator
it = record {
  initialized = true;
  format = 3;
  fetch = fetch_active;
  slot_idx = 0;
  chunk_size = 100;
  stack = record { cells = []; capacity = 100; size = 0 };
  entries = record { cells = []; capacity = 100; size = 0 };
  stack_idx = 0;
  regex = none;
  search_hash = none;
  key_idx = 0;
  totals_flag = false;
  hits = 0;
  size = 0;
  count = 0;
}

abbrev deleted : Iterator
deleted = record it {
  fetch = fetch_deleted;
  stack = record { cells = record { key = key_a; value = [] } ∷ []; capacity = 1; size = 1 };
  stack_idx = 1;
}

stacked :
    {A : Type 0} (cells : List A) (n : ℕ)
    → n < 2
    → n ≡ length cells
    → IsStack (record { cells = cells; capacity = 100; size = n })
stacked cells n h e = record {
  written = omega (arith, e);
  roomy = omega arith;
  nonempty = omega arith;
}

resolves : (k : ℕ) → ResolveAll cache (found_all it 101 (take k cache.slots))
unfolding found_all found check_expiry search_match entry_in
resolves zero = tt
resolves (suc zero) = ((entry_a, refl, refl), tt)
resolves (suc (suc zero)) = ((entry_a, refl, refl), ((entry_b, refl, refl), tt))
resolves (suc (suc (suc k))) = ((entry_a, refl, refl), ((entry_b, refl, refl), tt))

fetch_active-covers_example :
    (k : ℕ) × (after : Iterator) × (apc_iterator_fetch_active call it cache
      ≡ some (length (found_all it 101 (take k cache.slots)), after, cache))
    × (after.slot_idx ≡ 0 + k)
    × (item_keys (items after.stack) ≡ entry_keys (found_all it 101 (take k cache.slots)))
    × ((k ≡ 2) ⊎ (100 < length (found_all it 101 (take k cache.slots))))
    × IsStack after.stack
    × IsStack after.entries
    × (after.entries.size ≡ 0)
unfolding rlock
fetch_active-covers_example =
    fetch_active-covers call cache it refl (λ d. refl) (stacked [] 0 (omega arith) refl)
      (stacked [] 0 (omega arith) refl) refl resolves

-- a cache with one removed entry, which the iterator has passed
abbrev removed : Cache allocator
removed = record cache { header = record header { gc = entry_b ∷ [] } }

valid-restarts_example :
    valid call deleted removed ≡ some (some true, record deleted { stack_idx = 0 }, removed)
unfolding rlock
valid-restarts_example =
    valid-restarts call deleted removed refl refl refl refl (omega arith) refl refl (omega arith)

totals-sums_example :
    ((apc_iterator_totals call it cache).count ≡ 0 + length (found_all it 101 cache.slots))
    × ((apc_iterator_totals call it cache).size ≡ 0 + weight (found_all it 101 cache.slots))
    × ((apc_iterator_totals call it cache).hits ≡ 0 + total_hits (found_all it 101 cache.slots))
unfolding rlock
totals-sums_example = totals-sums call it cache refl

abbrev pattern : Zval
pattern = string 1 (record { h = 0; val = 47 ∷ 97 ∷ 47 ∷ [] })

apc_iterator_obj_init-ready_example :
    (is_ready (apc_iterator_obj_init engine true (some pattern) 3 0 1) ≡ (
      true
      && (not (ltb iter_all 3)
          && (is_some (fetch_of_list 1) && not (bad_search engine (some pattern))))))
    × Sound (apc_iterator_obj_init engine true (some pattern) 3 0 1)
apc_iterator_obj_init-ready_example = apc_iterator_obj_init-ready engine true (some pattern) 3 0 1

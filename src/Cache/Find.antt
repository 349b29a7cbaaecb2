-- ===== src/Cache/Find.antt =====
-- The lookups of apc_cache.c: `apc_cache_rlocked_find_nostat`, `apc_cache_rlocked_find`,
-- `apc_cache_rlocked_find_incref`.
pub mod Laws
use apcu.Prelude.{ℕ, ◌+◌, Option, none, some, List, [], ◌∷◌, if◌then◌else◌}
use apcu.Cache.Types.{ZendString, Entry}
use apcu.Cache.Allocator.{Allocator, Cache}
use apcu.Cache.Entry.{key_equals, hard_expired, hash_slot, slot, update_entry, entry_incref}

-- the walk along a slot: the first entry with the key decides
unfoldable pub find_walk : ZendString → ℕ → List Entry → Option Entry
find_walk key t [] = none
find_walk key t (e ∷ es) =
    if key_equals e key then if hard_expired e t then none else some e else find_walk key t es

module _ ⦃a : Allocator⦄ where
  unfoldable pub find_nostat : Cache a → ZendString → ℕ → Option Entry
  unfolding find_walk
  find_nostat cache key t = find_walk key t (slot cache (hash_slot cache key))

  unfoldable pub count_hit : ℕ → Entry → Entry
  count_hit t e = record e { nhits = e.nhits + 1; atime = t }

  unfoldable pub count_miss : Cache a → Cache a
  count_miss cache =
      let hd = cache.header in record cache { header = record hd { nmisses = hd.nmisses + 1 } }

  -- the counts of a hit on the entry at `addr`
  unfoldable pub hit_entry : Cache a → ℕ → ℕ → Cache a
  unfolding update_entry count_hit
  hit_entry cache addr t =
      let hd = cache.header in
      update_entry (record cache { header = record hd { nhits = hd.nhits + 1 } }) addr (count_hit t)

  -- the walk of the lookup with statistics along a slot
  unfoldable pub find_loop : Cache a → ZendString → ℕ → List Entry → Option Entry × Cache a
  unfolding count_miss hit_entry count_hit
  find_loop cache key t [] = (none, count_miss cache)
  find_loop cache key t (e ∷ es) =
      let rest = find_loop cache key t es in
      if key_equals e key
      then if hard_expired e t
        then (none, count_miss cache)
        else (some (count_hit t e), hit_entry cache e.addr t)
      else rest

  unfoldable pub find : Cache a → ZendString → ℕ → Option Entry × Cache a
  unfolding find_loop
  find cache key t = find_loop cache key t (slot cache (hash_slot cache key))

  unfoldable pub find_incref : Cache a → ZendString → ℕ → Option Entry × Cache a
  unfolding find entry_incref
  find_incref cache key t =
      let r = find cache key t in
      elim r.0 [ none ↦ (none, r.1) | some e ↦ (some e, entry_incref r.1 e.addr) ]

-- ===== src/Cache/Delete.antt =====
-- `apc_cache_delete` (apc_cache.c).
pub mod Walk
pub mod Laws
use apcu.Prelude.{ℕ, Bool, true, false, List, [], ◌∷◌, if◌then◌else◌}
use apcu.Cache.Types.{ZendString, Entry, Env}
use apcu.Cache.Allocator.{Allocator, Cache, wlock}
use apcu.Cache.Entry.{key_equals, hash_slot, slot, set_slot}
use apcu.Cache.Remove.{remove_entry}

module _ ⦃a : Allocator⦄ where
  -- whether the key was found, the cache behind the removal, and what is left of the slot
  pub delete_walk : Env → ZendString → Cache a → List Entry → Bool × Cache a × List Entry
  unfolding remove_entry
  delete_walk env key cache [] = (false, cache, [])
  delete_walk env key cache (e ∷ es) =
      let r = delete_walk env key cache es in
      if key_equals e key then (true, remove_entry env cache e, es) else (r.0, r.1, e ∷ r.2)

  unfoldable pub delete : Env → Cache a → ZendString → Bool × Cache a
  unfolding delete_walk
  delete env cache key =
      let s = hash_slot cache key in
      let r = delete_walk env key cache (slot cache s) in
      let c = r.1 in if wlock env then (r.0, set_slot c s r.2) else (false, cache)

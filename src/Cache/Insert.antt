-- ===== src/Cache/Insert.antt =====
-- `apc_cache_wlocked_insert` (apc_cache.c).
pub mod Walk
pub mod Laws
use apcu.Prelude.{ℕ, zero, suc, ◌+◌, Bool, true, false, List, [], ◌∷◌, ◌&&◌, not, if◌then◌else◌}
use apcu.Cache.Types.{Entry, Header, Env}
use apcu.Cache.Allocator.{Allocator, Cache}
use apcu.Cache.Entry.{key_equals, hard_expired, expired, hash_slot, slot, set_slot}
use apcu.Cache.Remove.{remove_entry, wlocked_gc}

-- what the walk along one slot does: whether the insertion goes on, the cache behind the removals,
-- and the slot with the new entry in it
pub record Walked (a : Allocator) : Type 0 where
  pub linked : Bool
  pub cache : Cache a
  pub entries : List Entry

module _ ⦃a : Allocator⦄ where
  pub insert_walk : Env → Bool → Entry → Cache a → List Entry → Walked a
  insert_walk env exclusive new cache [] = record {
    linked = true;
    cache = cache;
    entries = new ∷ [];
  }
  insert_walk env exclusive new cache (e ∷ es) = elim (key_equals e new.key) [
    | true ↦
        if exclusive && not (hard_expired e new.ctime)
        then record { linked = false; cache = cache; entries = e ∷ es }
        else record { linked = true; cache = remove_entry env cache e; entries = new ∷ es }
    | false ↦ elim (expired cache e new.ctime) [
      | true ↦ insert_walk env exclusive new (remove_entry env cache e) es
      | false ↦
          let w = insert_walk env exclusive new cache es in
          record { linked = w.linked; cache = w.cache; entries = e ∷ w.entries }
    ]
  ]

  -- the counters of the header for a new entry
  pub count_insert : Header → Entry → Header
  count_insert hd new = record hd {
    mem_size = hd.mem_size + new.mem_size;
    nentries = hd.nentries + 1;
    ninserts = hd.ninserts + 1;
  }

  unfoldable pub wlocked_insert : Env → Cache a → Entry → Bool → Bool × Cache a
  unfolding insert_walk count_insert
  wlocked_insert env cache new exclusive =
      let c = wlocked_gc env cache in
      let s = hash_slot c new.key in
      let w = insert_walk env exclusive new c (slot c s) in
      let walked = w.cache in
      let c' = set_slot walked s w.entries in
      if w.linked then (true, record c' { header = count_insert c'.header new }) else (false, c')

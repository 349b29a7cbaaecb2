-- ===== src/Cache/Fetch.antt =====
-- `apc_cache_fetch`, `apc_cache_exists`, `apc_cache_entry`, `apc_cache_stat`, `apc_cache_info`
-- (apc_cache.c). `none` outside is a fault: a read through an entry that is gone, or an allocation
-- whose restarts ran out.
pub mod Laws
pub mod Pins
pub mod Returned
use apcu.Prelude.{
  ℕ, ◌+◌, Bool, true, false, Option, none, some, List, [], ◌∷◌, ◌==◌, if◌then◌else◌, length, map,
  ◌++◌,
}
use apcu.Prelude.Int.{ℤ}
use apcu.Cache.Types.{ZendString, Zval, Entry, Env}
use apcu.Cache.Allocator.{Allocator, Cache, Call, wlock, rlock}
use apcu.Cache.Entry.{key_equals, hash_slot, slot, entry_release}
use apcu.Cache.Expunge.{entry_in}
use apcu.Cache.Find.{find, find_incref}
use apcu.Cache.Store.{wlocked_store_internal}

-- the array of `apc_cache_stat`
pub record Stat : Type 0 where
  pub hits : ℕ
  pub access_time : ℕ
  pub mtime : ℕ
  pub creation_time : ℕ
  pub deletion_time : ℕ
  pub ttl : ℤ
  pub refs : ℤ

-- the array of `apc_cache_link_info`
pub record LinkInfo : Type 0 where
  pub info : ZendString
  pub ttl : ℤ
  pub num_hits : ℕ
  pub mtime : ℕ
  pub creation_time : ℕ
  pub deletion_time : ℕ
  pub access_time : ℕ
  pub ref_count : ℤ
  pub mem_size : ℕ

-- the array of `apc_cache_info`; the three lists are there unless it is limited
pub record Lists : Type 0 where
  pub cache_list : List LinkInfo
  pub deleted_list : List LinkInfo
  pub slot_distribution : List (ℕ × ℕ)

pub record CacheInfo : Type 0 where
  pub num_slots : ℕ
  pub ttl : ℕ
  pub num_hits : ℕ
  pub num_misses : ℕ
  pub num_inserts : ℕ
  pub num_entries : ℕ
  pub cleanups : ℕ
  pub defragmentations : ℕ
  pub expunges : ℕ
  pub start_time : ℕ
  pub mem_size : ℕ
  pub lists : Option Lists

stat_of : Entry → Stat
stat_of e = record {
  hits = e.nhits;
  access_time = e.atime;
  mtime = e.mtime;
  creation_time = e.ctime;
  deletion_time = e.dtime;
  ttl = e.ttl;
  refs = e.ref_count;
}

link_info : Entry → LinkInfo
link_info e = record {
  info = e.key;
  ttl = e.ttl;
  num_hits = e.nhits;
  mtime = e.mtime;
  creation_time = e.ctime;
  deletion_time = e.dtime;
  access_time = e.atime;
  ref_count = e.ref_count;
  mem_size = e.mem_size;
}

unfoldable pub stat_walk : ZendString → List Entry → Option Stat
unfolding stat_of
stat_walk key [] = none
stat_walk key (e ∷ es) = if key_equals e key then some (stat_of e) else stat_walk key es

-- the loop over the slots: their entries, and how many stand in each slot that has some
slots_info : ℕ → List (List Entry) → List LinkInfo × List (ℕ × ℕ)
unfolding link_info
slots_info i [] = ([], [])
slots_info i (es ∷ ss) =
    let r = slots_info (i + 1) ss in
    (map link_info es ++ r.0, (if length es == 0 then r.1 else (i, length es) ∷ r.1))

module _ ⦃a : Allocator⦄ where
  -- The lock is given back before the value is read, so the entry is read as the other processes
  -- leave it. The reference is dropped at the end.
  unfoldable pub fetch : Call a → Cache a → ZendString → ℕ → Option (Option Zval × Cache a)
  unfolding find_incref entry_in entry_release
  fetch call cache key t =
      let r = find_incref cache key t in
      let later = call.meanwhile r.1 in
      if rlock call.env
      then elim r.0 [
        | none ↦ some (none, r.1)
        | some e ↦ elim (entry_in e.addr (later.header.gc ∷ later.slots)) [
          | none ↦ none
          | some e' ↦ some (call.codec.unpersist e'.val, entry_release later e.addr)
        ]
      ]
      else some (none, cache)

  unfoldable pub exists : Env → Cache a → ZendString → ℕ → Bool × Cache a
  unfolding find
  exists env cache key t =
      let r = find cache key t in
      if rlock env then elim r.0 [ none ↦ (false, r.1) | some e ↦ (true, r.1) ] else (false, cache)

  -- `generator` is the user's function: it runs one level deeper, may use the cache, and gives a
  -- value unless it fails or throws.
  unfoldable pub entry :
      Call a
      → (generator : Env → Cache a → Option Zval × Cache a) → Cache a
      → ZendString
      → ℤ
      → ℕ
      → Option (Option Zval × Cache a)
  unfolding find_incref entry_release wlocked_store_internal
  entry call generator cache key ttl now =
      let outer = call.env in
      let env = record outer { entry_level = outer.entry_level + 1 } in
      let r = find_incref cache key now in
      let made = generator env r.1 in
      if wlock call.env
      then elim r.0 [
        | some e ↦ some (call.codec.unpersist e.val, entry_release r.1 e.addr)
        | none ↦ elim made.0 [
          | none ↦ some (none, made.1)
          | some v ↦
              elim (wlocked_store_internal (record call { env = env }) made.1 key v ttl true) [
                | none ↦ none
                | some (_, c) ↦ some (some v, c)
              ]
        ]
      ]
      else some (none, cache)

  unfoldable pub stat : Env → Cache a → ZendString → Option Stat
  unfolding stat_walk
  stat env cache key = if rlock env then stat_walk key (slot cache (hash_slot cache key)) else none

  unfoldable info : Env → Cache a → (limited : Bool) → Option CacheInfo
  unfolding slots_info link_info
  info env cache limited =
      let hd = cache.header in
      let all = slots_info 0 cache.slots in
      if rlock env
      then some (record {
        num_slots = cache.nslots;
        ttl = cache.ttl;
        num_hits = hd.nhits;
        num_misses = hd.nmisses;
        num_inserts = hd.ninserts;
        num_entries = hd.nentries;
        cleanups = hd.ncleanups;
        defragmentations = hd.ndefragmentations;
        expunges = hd.nexpunges;
        start_time = hd.stime;
        mem_size = hd.mem_size;
        lists =
            if limited
            then none
            else some (record {
              cache_list = all.0;
              deleted_list = map link_info hd.gc;
              slot_distribution = all.1;
            });
      })
      else none

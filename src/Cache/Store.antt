-- ===== src/Cache/Store.antt =====
-- `apc_cache_defense`, `apc_persist` as the cache calls it, `apc_cache_set_entry_values`,
-- `apc_cache_store` and `apc_cache_wlocked_store_internal` (apc_cache.c). `none` outside is a
-- call whose restarts ran out.
pub mod Keeps
pub mod Laws
pub mod Ends
use apcu.Prelude.{
  ℕ, zero, suc, ◌+◌, Bool, true, false, Option, none, some, List, [], ◌∷◌, ◌&&◌, not, ◌==◌,
  if◌then◌else◌, length,
}
use apcu.Prelude.Int.{ℤ, pos}
use apcu.Sma.Malloc.{Attempt, no_lock, full, got, malloc}
use apcu.Cache.Types.{ZendString, Zval, Entry, Header, Env, SlamKey}
use apcu.Cache.Allocator.{Allocator, Cache, Call, wlock}
use apcu.Cache.Entry.{entry_release}
use apcu.Cache.Remove.{free_entry}
use apcu.Cache.Insert.{wlocked_insert}
use apcu.Cache.Expunge.{default_expunge}

-- `apc_cache_set_entry_values`
pub set_entry_values : Entry → ℤ → ℕ → Entry
set_entry_values entry ttl t = record entry {
  ttl = ttl;
  nhits = 0;
  ctime = t;
  mtime = t;
  atime = t;
  dtime = 0;
}

-- the same key, as far as its hash and length tell, in the same second, by another process
pub is_slam : Env → SlamKey → ZendString → ℕ → Bool
is_slam env last key t =
    last.hash == key.h
    && (last.len == length key.val && (last.mtime == t && not (last.owner_pid == env.pid)))

module _ ⦃a : Allocator⦄ where
  pub note_key : Env → Cache a → ZendString → ℕ → Cache a
  note_key env cache key t =
      let hd = cache.header in
      record cache {
        header = record hd {
          lastkey = record { hash = key.h; len = length key.val; mtime = t; owner_pid = env.pid };
        };
      }

  pub defense : Env → Cache a → ZendString → ℕ → Bool × Cache a
  unfolding is_slam note_key
  defense env cache key t =
      if cache.defend
      then if is_slam env cache.header.lastkey key t
        then (true, cache)
        else (false, note_key env cache key t)
      else (false, cache)

  -- one try of the allocator on the cache's segment
  pub cache_try : Cache a → ℕ → Attempt (Cache a)
  cache_try cache n = elim (a.try_malloc cache.sma n) [
    | no_lock ↦ no_lock
    | full m ↦ full (record cache { sma = m })
    | got ptr m ↦ got ptr (record cache { sma = m })
  ]

  -- the allocation of `n` bytes for an entry, with `apc_cache_default_expunge` as the callback
  pub cache_malloc : Call a → Cache a → ℕ → Option (Option ℕ × Cache a)
  unfolding malloc cache_try default_expunge
  cache_malloc call cache n =
      malloc (λ (c : Cache a). a.max_alloc_size c.sma) cache_try
        (λ c size. default_expunge call.meanwhile call.env c size) call.tries false cache n

  -- The entry that `apc_persist` builds: its count is 1 from its allocation on. The fields of
  -- `set_entry_values` hold nothing yet.
  pub persist : Call a → Cache a → ZendString → Zval → Option (Option Entry × Cache a)
  unfolding cache_malloc
  persist call cache key val = elim (call.codec.persist key val) [
    | none ↦ some (none, cache)
    | some (size, kept) ↦ elim (cache_malloc call cache size) [
      | none ↦ none
      | some (none, c) ↦ some (none, c)
      | some (some addr, c) ↦ some (
        some (record {
          addr = addr;
          ttl = pos 0;
          ref_count = pos 1;
          nhits = 0;
          ctime = 0;
          mtime = 0;
          dtime = 0;
          atime = 0;
          mem_size = size;
          val = kept;
          key = key;
        }),
        c,
      )
    ]
  ]

  -- the end of a store: the entry goes in and is released, or it is freed
  pub insert_or_free : Env → Cache a → Entry → Bool → Bool × Cache a
  unfolding wlocked_insert entry_release free_entry
  insert_or_free env cache entry exclusive =
      let r = wlocked_insert env cache entry exclusive in
      if r.0 then (true, entry_release r.1 entry.addr) else (false, free_entry r.1 entry)

  -- Other processes act until the lock is there. The release of the new entry's reference, behind the
  -- lock, is one step with the insertion: what others do in between comes behind the call.
  unfoldable pub store :
      Call a → Cache a → ZendString → Zval → ℤ → (exclusive : Bool) → Option (Bool × Cache a)
  unfolding defense persist set_entry_values insert_or_free
  store call cache key val ttl exclusive =
      let t = call.env.now in
      let guarded = defense call.env cache key t in
      let built = persist call guarded.1 key val in
      if guarded.0 then some (false, guarded.1) else elim built [
        | none ↦ none
        | some (none, c) ↦ some (false, c)
        | some (some fresh, c) ↦
            let entry = set_entry_values fresh ttl t in
            let seen = call.meanwhile c in
            some (
              if wlock call.env
              then insert_or_free call.env seen entry exclusive
              else (false, free_entry seen entry))
      ]

  -- the same under a lock that is held already
  unfoldable pub wlocked_store_internal :
      Call a → Cache a → ZendString → Zval → ℤ → (exclusive : Bool) → Option (Bool × Cache a)
  unfolding defense persist set_entry_values insert_or_free
  wlocked_store_internal call cache key val ttl exclusive =
      let t = call.env.now in
      let guarded = defense call.env cache key t in
      let built = persist call guarded.1 key val in
      if guarded.0 then some (false, guarded.1) else elim built [
        | none ↦ none
        | some (none, c) ↦ some (false, c)
        | some (some fresh, c) ↦
            some (insert_or_free call.env c (set_entry_values fresh ttl t) exclusive)
      ]

-- ===== src/Cache/Expunge.antt =====
-- `apc_cache_wlocked_real_expunge`, `apc_cache_clear`, `apc_cache_default_expunge` and
-- `apc_cache_wlocked_move_entry` (apc_cache.c).
pub mod Sweep
pub mod Freed
pub mod Drop
pub mod Laws
pub mod Default
use apcu.Prelude.{
  ℕ, zero, suc, ◌+◌, ◌/◌, Bool, true, false, Option, none, some, List, [], ◌∷◌, ◌++◌, not, ltb, leb,
  ◌==◌, if◌then◌else◌,
}
use apcu.Cache.Types.{Entry, Header, Env, SlamKey, no_slam_key}
use apcu.Cache.Allocator.{Allocator, Cache, wlock}
use apcu.Cache.Entry.{in_use, expired, update_at, update_slots}
use apcu.Cache.Remove.{remove_entry, wlocked_gc}

-- the lists of entries that the move callback works on: the slots and the removed entries
pub record Lists : Type 0 where
  pub slots : List (List Entry)
  pub gc : List Entry

unfoldable pub entry_at : ℕ → List Entry → Option Entry
entry_at addr [] = none
entry_at addr (e ∷ es) = if e.addr == addr then some e else entry_at addr es

unfoldable pub entry_in : ℕ → List (List Entry) → Option Entry
unfolding entry_at
entry_in addr [] = none
entry_in addr (es ∷ ss) = elim (entry_at addr es) [ none ↦ entry_in addr ss | some e ↦ some e ]

pub move_to : ℕ → Entry → Entry
move_to new e = record e { addr = new }

-- An allocation that no list holds is an entry that is still being built: its count is 1 since it
-- was allocated, so it is not moved.
pub move_entry : Lists → ℕ → ℕ → Bool × Lists
unfolding entry_in move_to update_at update_slots
move_entry ls old new = elim (entry_in old (ls.gc ∷ ls.slots)) [
  | none ↦ (false, ls)
  | some e ↦ if in_use e then (false, ls) else (
    true,
    record {
      slots = update_slots old (move_to new) ls.slots;
      gc = update_at old (move_to new) ls.gc;
    },
  )
]

module _ ⦃a : Allocator⦄ where
  pub expunge_slot : Env → Cache a → List Entry → Cache a
  expunge_slot env cache [] = cache
  expunge_slot env cache (e ∷ es) = expunge_slot env (remove_entry env cache e) es

  -- the cache behind the removals, and the emptied slots
  pub expunge_slots : Env → Cache a → List (List Entry) → Cache a × List (List Entry)
  unfolding expunge_slot
  expunge_slots env cache [] = (cache, [])
  expunge_slots env cache (es ∷ ss) =
      let r = expunge_slots env (expunge_slot env cache es) ss in (r.0, [] ∷ r.1)

  pub count_expunge : Header → Header
  count_expunge hd = record hd { nexpunges = hd.nexpunges + 1 }

  pub reset_counters : Env → Header → Header
  reset_counters env hd = record hd {
    stime = env.now;
    ninserts = 0;
    nentries = 0;
    nhits = 0;
    nmisses = 0;
    lastkey = no_slam_key;
  }

  pub real_expunge : Env → Cache a → Cache a
  unfolding expunge_slots count_expunge reset_counters
  real_expunge env cache =
      let r =
        expunge_slots env (record cache { header = count_expunge cache.header }) cache.slots in
      let c = r.0 in record c { header = reset_counters env c.header; slots = r.1 }

  pub clear : Env → Cache a → Cache a
  unfolding real_expunge wlocked_gc
  clear env cache =
      let c = wlocked_gc env (real_expunge env cache) in
      let hd = c.header in
      if wlock env
      then record c { header = record hd { ncleanups = 0; ndefragmentations = 0; nexpunges = 0 } }
      else cache

  pub drop_expired_slot : Env → Cache a → List Entry → Cache a × List Entry
  drop_expired_slot env cache [] = (cache, [])
  drop_expired_slot env cache (e ∷ es) = elim (expired cache e env.now) [
    | true ↦ drop_expired_slot env (remove_entry env cache e) es
    | false ↦ let r = drop_expired_slot env cache es in (r.0, e ∷ r.1)
  ]

  pub drop_expired_slots : Env → Cache a → List (List Entry) → Cache a × List (List Entry)
  unfolding drop_expired_slot
  drop_expired_slots env cache [] = (cache, [])
  drop_expired_slots env cache (es ∷ ss) =
      let d = drop_expired_slot env cache es in
      let r = drop_expired_slots env d.0 ss in (r.0, d.1 ∷ r.1)

  pub drop_expired : Env → Cache a → Cache a
  unfolding drop_expired_slots
  drop_expired env cache =
      let r = drop_expired_slots env cache cache.slots in let c = r.0 in record c { slots = r.1 }

  pub defragment : Cache a → Cache a
  unfolding move_entry
  defragment cache =
      let hd = cache.header in
      let r = a.defrag Lists move_entry cache.sma (record { slots = cache.slots; gc = hd.gc }) in
      record cache {
        header = record hd { ndefragmentations = hd.ndefragmentations + 1; gc = r.1.gc };
        slots = r.1.slots;
        sma = r.0;
      }

  pub wipe_lastkey : Cache a → Cache a
  wipe_lastkey cache =
      let hd = cache.header in record cache { header = record hd { lastkey = no_slam_key } }

  -- what the default expunge does under the lock, up to `end_lbl`
  pub make_room : Env → Cache a → ℕ → Cache a
  unfolding real_expunge wlocked_gc drop_expired defragment wipe_lastkey
  make_room env cache requested =
      let size = cache.expunge_threshold requested (a.total_size cache.sma / 100) in
      let swept = wlocked_gc env (drop_expired env cache) in
      let packed = defragment swept in
      if leb (a.total_size cache.sma) size
      then wlocked_gc env (real_expunge env cache)
      else if not (a.check_avail swept.sma size)
      then real_expunge env swept
      else if not (a.check_avail_contiguous packed.sma size)
      then real_expunge env packed
      else wipe_lastkey packed

  -- `meanwhile` is what other processes do between the read of the counter and the lock.
  unfoldable pub default_expunge :
      (meanwhile : Cache a → Cache a) → Env → Cache a → ℕ → Bool × Cache a
  unfolding make_room
  default_expunge meanwhile env cache size =
      let seen = meanwhile cache in
      let roomy = make_room env seen size in
      let hd = roomy.header in
      if not (wlock env)
      then (true, seen)
      else if ltb cache.header.ncleanups seen.header.ncleanups
      then (false, seen)
      else (true, record roomy { header = record hd { ncleanups = hd.ncleanups + 1 } })

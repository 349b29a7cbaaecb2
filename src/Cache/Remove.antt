-- ===== src/Cache/Remove.antt =====
-- `apc_cache_wlocked_remove_entry` and `apc_cache_wlocked_gc` (apc_cache.c). To unlink an entry is
-- to leave it out of the list that is walked.
pub mod Effects
use apcu.Prelude.{
  ℕ, zero, suc, ◌+◌, ◌-◌, Bool, true, false, Option, none, some, List, [], ◌∷◌, ◌&&◌, ◌||◌, not,
  ltb, leb, ◌==◌, if◌then◌else◌,
}
use apcu.Cache.Types.{Entry, Header, Env}
use apcu.Cache.Allocator.{Allocator, Cache}
use apcu.Cache.Entry.{in_use}

module _ ⦃a : Allocator⦄ where
  unfoldable pub free_entry : Cache a → Entry → Cache a
  free_entry cache entry = record cache { sma = a.free cache.sma entry.addr }

  -- the counters of the header when `entry` is taken out
  adjust_header : Header → Entry → Header
  adjust_header hd entry = record hd {
    mem_size = if hd.mem_size == 0 then hd.mem_size else hd.mem_size - entry.mem_size;
    nentries = if hd.nentries == 0 then hd.nentries else hd.nentries - 1;
  }

  unfoldable pub remove_entry : Env → Cache a → Entry → Cache a
  unfolding free_entry adjust_header
  remove_entry env cache entry =
      let hd = adjust_header cache.header entry in
      if in_use entry
      then record cache { header = record hd { gc = record entry { dtime = env.wall } ∷ hd.gc } }
      else free_entry (record cache { header = hd }) entry

  -- The entry stays on the list: it is referenced and its time is not over. A clock that ran
  -- backwards gives a negative age, which is below every limit.
  unfoldable pub gc_keeps : Cache a → ℕ → Entry → Bool
  gc_keeps cache now entry =
      in_use entry && (cache.gc_ttl == 0 || leb now (entry.dtime + cache.gc_ttl))

  unfoldable pub gc_loop : ℕ → Cache a → List Entry → Cache a × List Entry
  gc_loop now cache [] = (cache, [])
  gc_loop now cache (e ∷ es) = elim (gc_keeps cache now e) [
    | true ↦ let r = gc_loop now cache es in (r.0, e ∷ r.1)
    | false ↦ gc_loop now (free_entry cache e) es
  ]

  unfoldable pub wlocked_gc : Env → Cache a → Cache a
  unfolding gc_loop gc_keeps free_entry
  wlocked_gc env cache =
      let r = gc_loop env.wall cache cache.header.gc in
      let hd = r.0.header in let c = r.0 in record c { header = record hd { gc = r.1 } }

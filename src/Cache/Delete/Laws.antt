-- ===== src/Cache/Delete/Laws.antt =====
-- `apc_cache_delete` against lookups.
use apcu.Prelude.{
  ℕ, ◌+◌, ◌≡◌, ap, ◌∙◌, ◌≢◌, Bool, true, false, none, List, [], arith, length, Bool-cases, inl, inr,
  is_some, get_or, set, get_or-set_self, get_or-set_ne, length-set,
}
use apcu.Cache.Types.{ZendString, Entry, Env}
use apcu.Cache.Allocator.{Allocator, Cache, wlock, rlock}
use apcu.Cache.Entry.{hash_slot, slot}
use apcu.Cache.Find.{find_walk, find_nostat}
use apcu.Cache.Fetch.{stat}
use apcu.Cache.Insert.Walk.{find_walk-none}
use apcu.Cache.Insert.Laws.{hash_slot-lt, ne-dec}
use apcu.Cache.Delete.{delete_walk, delete}
use apcu.Cache.Delete.Walk.{
  delete_walk-SameTable, delete_walk-answer, delete_walk-Lacks_self, delete_walk-find_other,
  delete_walk-Distinct, delete_walk-Placed, delete_walk-Tally,
}
use apcu.Cache.Valid.{
  weight, total_count, total_weight, total-set, Tally, GoodSlots-get, GoodSlots-set, IsValid,
}

module _ ⦃a : Allocator⦄ (env : Env) (cache : Cache a) (key : ZendString) where
  abbrev walk : Bool × Cache a × List Entry
  walk = delete_walk env key cache (slot cache (hash_slot cache key))

  -- With both locks granted a deletion succeeds exactly if `apc_cache_stat` knows the key.
  pub delete-answer :
      wlock env ≡ true → rlock env ≡ true → (delete env cache key).0 ≡ is_some (stat env cache key)
  unfolding delete stat
  delete-answer w r = rw (w, r) (delete_walk-answer env key cache _)

  module _ (granted : wlock env ≡ true) where
    slots_after : (delete env cache key).1.slots ≡ set cache.slots (hash_slot cache key) walk.2
    unfolding delete
    slots_after = rw granted (rw (delete_walk-SameTable env key cache _).slots)

    nslots_after : (delete env cache key).1.nslots ≡ cache.nslots
    unfolding delete
    nslots_after = rw granted (delete_walk-SameTable env key cache _).nslots

    header_after : (delete env cache key).1.header ≡ walk.1.header
    unfolding delete
    header_after = rw granted

    find_after :
        (k : ZendString) (t : ℕ)
        → find_nostat (delete env cache key).1 k t
          ≡ find_walk k t
              (get_or (set cache.slots (hash_slot cache key) walk.2) (hash_slot cache k) [])
    unfolding find_nostat hash_slot
    find_after k t = rw (slots_after, nslots_after)

    -- After a deletion under the lock the key is not found at any time.
    pub delete-find : IsValid cache → (t : ℕ) → find_nostat (delete env cache key).1 key t ≡ none
    delete-find v t =
        let s = hash_slot cache key in
        let lt = hash_slot-lt cache key v in
        let good = GoodSlots-get cache.nslots 0 s cache.slots v.good lt in
        find_after key t
        ∙ ap (find_walk key t) (get_or-set_self cache.slots s walk.2 [] lt)
        ∙ find_walk-none key t walk.2 (delete_walk-Lacks_self env key cache _ good.1)

    find_other_granted :
        IsValid cache
        → (k : ZendString) (t : ℕ) → k ≢ key
        → find_nostat (delete env cache key).1 k t ≡ find_nostat cache k t
    unfolding find_nostat
    find_other_granted v k t ne = elim (ne-dec (hash_slot cache key) (hash_slot cache k)) [
      | inr other ↦
          find_after k t ∙ ap (find_walk k t) (get_or-set_ne cache.slots _ _ walk.2 [] other)
      | inl same ↦
          let at =
            get_or-set_self cache.slots (hash_slot cache key) walk.2 []
              (hash_slot-lt cache key v) in
          find_after k t ∙ rw (← same) (rw at (delete_walk-find_other env key cache _ k t ne))
    ]

    delete-Tally :
        IsValid cache
        → Tally walk.1.header
            (total_count (set cache.slots (hash_slot cache key) walk.2))
            (total_weight (set cache.slots (hash_slot cache key) walk.2))
    unfolding weight
    delete-Tally v =
        let s = hash_slot cache key in
        let lt = hash_slot-lt cache key v in
        let counts = total-set cache.slots s walk.2 lt in
        let others = total-set cache.slots s [] lt in
        let n = total_count (set cache.slots s []) in
        let m = total_weight (set cache.slots s []) in
        let t = v.tally in
        let before : Tally cache.header (n + length (slot cache s)) (m + weight (slot cache s)) =
          omega arith in
        let after : Tally walk.1.header (n + length walk.2) (m + weight walk.2) =
          delete_walk-Tally env key n m cache (slot cache s) before in
        omega arith

    IsValid-granted : IsValid cache → IsValid (delete env cache key).1
    IsValid-granted v =
        let s = hash_slot cache key in
        let good = GoodSlots-get cache.nslots 0 s cache.slots v.good (hash_slot-lt cache key v) in
        record {
          some_slots = rw nslots_after v.some_slots;
          sized = rw (slots_after, nslots_after) (length-set cache.slots s walk.2 ∙ v.sized);
          good =
              rw (slots_after, nslots_after)
                (GoodSlots-set cache.nslots 0 s cache.slots walk.2 v.good (
                  delete_walk-Placed env key cache.nslots (0 + s) cache _ good.0,
                  delete_walk-Distinct env key cache _ good.1,
                ));
          tally = rw (header_after, slots_after) (delete-Tally v);
        }

  refused : wlock env ≡ false → (delete env cache key).1 ≡ cache
  unfolding delete
  refused h = rw h

  -- A deletion, whether it gets the lock or not, leaves every lookup of another key as it was.
  pub delete-find_other :
      IsValid cache
      → (k : ZendString) (t : ℕ) → k ≢ key
      → find_nostat (delete env cache key).1 k t ≡ find_nostat cache k t
  delete-find_other v k t ne = elim (Bool-cases (wlock env)) [
    | inl h ↦ find_other_granted h v k t ne
    | inr h ↦ rw (refused h)
  ]

  -- A deletion, whether it gets the lock or not, keeps the invariant.
  pub delete-IsValid : IsValid cache → IsValid (delete env cache key).1
  delete-IsValid v = elim (Bool-cases (wlock env)) [
    | inl h ↦ IsValid-granted h v
    | inr h ↦ rw (refused h) v
  ]

-- ===== src/Cache/Insert/Laws.antt =====
-- The insertion as a change of the table: `apc_cache_wlocked_insert` against lookups.
use apcu.Prelude.{
  ℕ, ◌+◌, ◌%◌, ◌<◌, ◌≡◌, sym, ap, ◌∙◌, ◌≢◌, ◌⊎◌, Bool, true, false, not, ◌&&◌, none, some, [],
  arith, length, if◌then◌else◌, Bool-cases, inl, inr, is_some, get_or, set, get_or-set_self,
  get_or-set_ne, length-set,
}
use apcu.Cache.Types.{ZendString, Entry, Env}
use apcu.Cache.Allocator.{Allocator, Cache}
use apcu.Cache.Entry.{hard_expired, expired, hash_slot, slot}
use apcu.Cache.Remove.{wlocked_gc}
use apcu.Cache.Remove.Effects.{
  SameTable, SameTable-trans, expired_congr, wlocked_gc-SameTable, wlocked_gc-Tally,
}
use apcu.Cache.Find.{find_walk, find_nostat}
use apcu.Cache.Insert.{Walked, insert_walk, wlocked_insert}
use apcu.Cache.Insert.Walk.{
  insert_walk-SameTable, insert_walk-linked, insert_walk-find_self, insert_walk-find_keeps,
  insert_walk-find_only, insert_walk-Distinct, insert_walk-Placed, insert_walk-Tally, settled,
}
use apcu.Cache.Valid.{
  weight, total_count, total_weight, total-set, Tally, GoodSlot, GoodSlots-get, GoodSlots-set,
  IsValid,
}

pub ne-dec : (i j : ℕ) → (i ≡ j) ⊎ (i ≢ j)
ne-dec i j = ground arith

module _ ⦃a : Allocator⦄ where
  find_nostat_congr :
      {c d : Cache a}
      → SameTable c d
      → (k : ZendString) (t : ℕ) → find_nostat d k t ≡ find_nostat c k t
  unfolding find_nostat hash_slot
  find_nostat_congr s k t = rw (s.slots, s.nslots)

  -- the slot of a key lies in the table
  pub hash_slot-lt : (c : Cache a) (k : ZendString) → IsValid c → hash_slot c k < length c.slots
  unfolding hash_slot
  hash_slot-lt c k v = rw v.sized (mod_lt k.h c.nslots v.some_slots)
    where
      mod_lt : (x n : ℕ) → 0 < n → x % n < n
      mod_lt x n h = omega arith

  module _ (env : Env) (cache : Cache a) (new : Entry) (exclusive : Bool) where
    abbrev walk : Walked a
    walk =
        let c = wlocked_gc env cache in
        insert_walk env exclusive new c (slot c (hash_slot c new.key))

    walk-SameTable : SameTable cache walk.cache
    walk-SameTable =
        SameTable-trans (wlocked_gc-SameTable env cache)
          (insert_walk-SameTable env exclusive new (wlocked_gc env cache) _)

    slot_before :
        slot (wlocked_gc env cache) (hash_slot (wlocked_gc env cache) new.key)
        ≡ slot cache (hash_slot cache new.key)
    unfolding hash_slot
    slot_before = let s = wlocked_gc-SameTable env cache in rw (s.slots, s.nslots)

    slots_after :
        (wlocked_insert env cache new exclusive).1.slots
        ≡ set cache.slots (hash_slot cache new.key) walk.entries
    unfolding wlocked_insert hash_slot
    slots_after =
        let s = walk-SameTable in
        let g = wlocked_gc-SameTable env cache in
        elim (Bool-cases walk.linked) [
          | inl l ↦ rw l (rw (s.slots, g.nslots))
          | inr l ↦ rw l (rw (s.slots, g.nslots))
        ]

    nslots_after : (wlocked_insert env cache new exclusive).1.nslots ≡ cache.nslots
    unfolding wlocked_insert
    nslots_after = elim (Bool-cases walk.linked) [
      | inl l ↦ rw l walk-SameTable.nslots
      | inr l ↦ rw l walk-SameTable.nslots
    ]

    header_after :
        (wlocked_insert env cache new exclusive).1.header ≡ settled env exclusive new walk
    unfolding wlocked_insert
    header_after = elim (Bool-cases walk.linked) [ inl l ↦ rw l | inr l ↦ rw l ]

    linked_answer : (wlocked_insert env cache new exclusive).0 ≡ walk.linked
    unfolding wlocked_insert
    linked_answer = elim (Bool-cases walk.linked) [ inl l ↦ rw l | inr l ↦ rw l ]

    find_after :
        (k : ZendString) (t : ℕ)
        → find_nostat (wlocked_insert env cache new exclusive).1 k t
          ≡ find_walk k t (
              get_or
                (set cache.slots (hash_slot cache new.key) walk.entries)
                (hash_slot cache k)
                [])
    unfolding find_nostat hash_slot
    find_after k t = rw (slots_after, nslots_after)

    -- An insertion fails exactly if it is exclusive and a lookup at its time finds the key.
    pub insert-answer :
        (wlocked_insert env cache new exclusive).0
        ≡ not (exclusive && is_some (find_nostat cache new.key new.ctime))
    unfolding find_nostat
    insert-answer =
        linked_answer
        ∙ insert_walk-linked env exclusive new (wlocked_gc env cache) _
        ∙ ap (λ es. not (exclusive && is_some (find_walk new.key new.ctime es))) slot_before

    -- After a successful insertion the key finds the new entry until it expires.
    pub insert-find :
        IsValid cache
        → (wlocked_insert env cache new exclusive).0 ≡ true
        → (t : ℕ)
        → find_nostat (wlocked_insert env cache new exclusive).1 new.key t
          ≡ (if hard_expired new t then none else some new)
    insert-find v done t =
        find_after new.key t
        ∙ ap (find_walk new.key t)
            (get_or-set_self cache.slots _ _ [] (hash_slot-lt cache new.key v))
        ∙ insert_walk-find_self env exclusive new (wlocked_gc env cache) _ t
            (sym linked_answer ∙ done)

    -- An insertion, successful or not, keeps every entry under another key that has not expired
    -- at its time.
    pub insert-find_keeps :
        IsValid cache
        → (k : ZendString) (t : ℕ) (x : Entry) → k ≢ new.key
        → find_nostat cache k t ≡ some x
        → expired cache x new.ctime ≡ false
        → find_nostat (wlocked_insert env cache new exclusive).1 k t ≡ some x
    unfolding find_nostat
    insert-find_keeps v k t x ne f live =
        elim (ne-dec (hash_slot cache new.key) (hash_slot cache k)) [
          | inr other ↦
              find_after k t ∙ ap (find_walk k t) (get_or-set_ne cache.slots _ _ _ [] other) ∙ f
          | inl same ↦
              let at =
                get_or-set_self cache.slots (hash_slot cache new.key) walk.entries []
                  (hash_slot-lt cache new.key v) in
              let f' : find_walk k t (slot cache (hash_slot cache new.key)) ≡ some x = rw same f in
              let got =
                insert_walk-find_keeps env exclusive new (wlocked_gc env cache)
                  (slot (wlocked_gc env cache) (hash_slot (wlocked_gc env cache) new.key)) k t x ne
                  (rw slot_before f')
                  (expired_congr (wlocked_gc-SameTable env cache) x new.ctime ∙ live) in
              find_after k t ∙ rw (← same) (rw at got)
        ]

    -- Under another key an insertion brings nothing to light that was not found before.
    pub insert-find_only :
        IsValid cache
        → (k : ZendString) (t : ℕ) (x : Entry) → k ≢ new.key
        → find_nostat (wlocked_insert env cache new exclusive).1 k t ≡ some x
        → find_nostat cache k t ≡ some x
    unfolding find_nostat
    insert-find_only v k t x ne f = elim (ne-dec (hash_slot cache new.key) (hash_slot cache k)) [
      | inr other ↦
          ap (find_walk k t) (sym (get_or-set_ne cache.slots _ _ walk.entries [] other))
          ∙ sym (find_after k t)
          ∙ f
      | inl same ↦
          let at = get_or-set_self cache.slots _ walk.entries [] (hash_slot-lt cache new.key v) in
          let f' : find_walk k t walk.entries ≡ some x =
            ap (find_walk k t) (sym (rw (← same) at)) ∙ sym (find_after k t) ∙ f in
          let good =
            GoodSlots-get cache.nslots 0 _ cache.slots v.good (hash_slot-lt cache new.key v) in
          let got =
            insert_walk-find_only env exclusive new (wlocked_gc env cache) _ k t x ne
              (rw slot_before good.1) f' in
          rw (← same) (rw slot_before at got)
    ]

    insert-GoodSlot :
        IsValid cache → GoodSlot cache.nslots (0 + hash_slot cache new.key) walk.entries
    unfolding hash_slot
    insert-GoodSlot v =
        let s = hash_slot cache new.key in
        let good =
          GoodSlots-get cache.nslots 0 s cache.slots v.good (hash_slot-lt cache new.key v) in
        (
          insert_walk-Placed env exclusive new cache.nslots (0 + s) (wlocked_gc env cache) _
              (omega arith) (rw slot_before good.0),
          insert_walk-Distinct env exclusive new (wlocked_gc env cache) _ (rw slot_before good.1),
        )

    insert-Tally :
        IsValid cache
        → Tally
            (settled env exclusive new walk)
            (total_count (set cache.slots (hash_slot cache new.key) walk.entries))
            (total_weight (set cache.slots (hash_slot cache new.key) walk.entries))
    unfolding weight
    insert-Tally v =
        let s = hash_slot cache new.key in
        let lt = hash_slot-lt cache new.key v in
        let counts = total-set cache.slots s walk.entries lt in
        let others = total-set cache.slots s [] lt in
        let n = total_count (set cache.slots s []) in
        let m = total_weight (set cache.slots s []) in
        let swept = wlocked_gc-Tally env cache _ _ v.tally in
        let before : Tally (wlocked_gc env cache).header (n + length (slot cache s))
            (m + weight (slot cache s)) =
          omega arith in
        let after : Tally (settled env exclusive new walk) (n + length walk.entries)
            (m + weight walk.entries) =
          insert_walk-Tally env exclusive new n m (wlocked_gc env cache)
            (slot (wlocked_gc env cache) (hash_slot (wlocked_gc env cache) new.key))
            (rw slot_before before) in
        omega arith

    -- The insertion keeps the invariant.
    pub insert-IsValid : IsValid cache → IsValid (wlocked_insert env cache new exclusive).1
    insert-IsValid v = record {
      some_slots = rw nslots_after v.some_slots;
      sized = rw (slots_after, nslots_after) (length-set cache.slots _ walk.entries ∙ v.sized);
      good =
          rw (slots_after, nslots_after)
            (GoodSlots-set cache.nslots 0 _ cache.slots walk.entries v.good (insert-GoodSlot v));
      tally = rw (header_after, slots_after) (insert-Tally v);
    }

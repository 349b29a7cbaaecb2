-- ===== src/Cache/Expunge/Drop.antt =====
-- The removal of expired entries, and the garbage collection.
use apcu.Prelude.{
  ℕ, suc, ◌+◌, ◌≡◌, refl, ap, ◌∙◌, none, some, List, [], ◌∷◌, arith, length, if◌then◌else◌, get_or,
  zero,
}
use apcu.Cache.Types.{ZendString, Entry, Env}
use apcu.Cache.Allocator.{Allocator, Cache}
use apcu.Cache.Entry.{expired, hash_slot, slot}
use apcu.Cache.Remove.{wlocked_gc}
use apcu.Cache.Remove.Effects.{wlocked_gc-SameTable, wlocked_gc-Tally}
use apcu.Cache.Find.{find_nostat}
use apcu.Cache.Expunge.{drop_expired_slot, drop_expired_slots, drop_expired}
use apcu.Cache.Expunge.Sweep.{
  unexpired, Distinct-unexpired, Placed-unexpired, find_walk-unexpired, drop_slot-SameTable,
  drop_slot-unexpired, drop_slots-SameTable, drop_slots-Tally, unexpired_congr,
}
use apcu.Cache.Insert.Laws.{hash_slot-lt}
use apcu.Cache.Valid.{total_count, total_weight, GoodSlot, GoodSlots, GoodSlots-get, Tally, IsValid}

module _ ⦃a : Allocator⦄ where
  pub wlocked_gc-IsValid : (env : Env) (c : Cache a) → IsValid c → IsValid (wlocked_gc env c)
  wlocked_gc-IsValid env c v =
      let s = wlocked_gc-SameTable env c in
      record {
        some_slots = rw s.nslots v.some_slots;
        sized = rw (s.slots, s.nslots) v.sized;
        good = rw (s.slots, s.nslots) v.good;
        tally = rw s.slots (wlocked_gc-Tally env c _ _ v.tally);
      }

  drop_slots-get :
      (env : Env) (c : Cache a) (ss : List (List Entry)) (i : ℕ)
      → get_or (drop_expired_slots env c ss).1 i [] ≡ unexpired c env.now (get_or ss i [])
  unfolding drop_expired_slots unexpired
  drop_slots-get env c [] i = refl
  drop_slots-get env c (es ∷ ss) zero = drop_slot-unexpired env c es
  drop_slots-get env c (es ∷ ss) (suc i) =
      drop_slots-get env (drop_expired_slot env c es).0 ss i
      ∙ unexpired_congr (drop_slot-SameTable env c es) env.now _

  drop_slots-GoodSlots :
      (env : Env) (c : Cache a) (n i : ℕ) (ss : List (List Entry))
      → GoodSlots n i ss
      → GoodSlots n i (drop_expired_slots env c ss).1
  unfolding drop_expired_slots
  drop_slots-GoodSlots env c n i [] g = tt
  drop_slots-GoodSlots env c n i (es ∷ ss) g =
      let here : GoodSlot n i (drop_expired_slot env c es).1 =
        rw (drop_slot-unexpired env c es)
          (Placed-unexpired c env.now n i es g.0.0, Distinct-unexpired c env.now es g.0.1) in
      (here, drop_slots-GoodSlots env (drop_expired_slot env c es).0 n (suc i) ss g.1)

  length-drop_slots :
      (env : Env) (c : Cache a) (ss : List (List Entry))
      → length (drop_expired_slots env c ss).1 ≡ length ss
  unfolding drop_expired_slots
  length-drop_slots env c [] = refl
  length-drop_slots env c (es ∷ ss) =
      ap suc (length-drop_slots env (drop_expired_slot env c es).0 ss)

  -- After the removal of the expired entries a lookup finds what it found before, unless that
  -- has expired, by its own time to live or by the cache's.
  pub drop_expired-find :
      (env : Env) (c : Cache a)
      → IsValid c
      → (k : ZendString) (t : ℕ)
      → find_nostat (drop_expired env c) k t ≡ elim (find_nostat c k t) [
        | none ↦ none
        | some e ↦ if expired c e env.now then none else some e
      ]
  unfolding drop_expired find_nostat hash_slot
  drop_expired-find env c v k t =
      let s = hash_slot c k in
      let good = GoodSlots-get c.nslots 0 s c.slots v.good (hash_slot-lt c k v) in
      rw ((drop_slots-SameTable env c c.slots).nslots, drop_slots-get env c c.slots s)
        (find_walk-unexpired c env.now (slot c s) k t good.1)

  pub drop_expired-IsValid : (env : Env) (c : Cache a) → IsValid c → IsValid (drop_expired env c)
  unfolding drop_expired
  drop_expired-IsValid env c v =
      let s = drop_slots-SameTable env c c.slots in
      let t = v.tally in
      let t' : Tally (drop_expired_slots env c c.slots).0.header
          (0 + total_count (drop_expired_slots env c c.slots).1)
          (0 + total_weight (drop_expired_slots env c c.slots).1) =
        drop_slots-Tally env 0 0 c c.slots (omega arith) in
      record {
        some_slots = rw s.nslots v.some_slots;
        sized = rw s.nslots (length-drop_slots env c c.slots ∙ v.sized);
        good = rw s.nslots (drop_slots-GoodSlots env c c.nslots 0 c.slots v.good);
        tally = omega arith;
      }

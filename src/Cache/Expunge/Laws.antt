-- ===== src/Cache/Expunge/Laws.antt =====
-- The real expunge and `apc_cache_clear`.
use apcu.Prelude.{
  ℕ, suc, ◌≡◌, refl, ◌∙◌, none, List, [], ◌∷◌, arith, length, Bool-cases, inl, inr, get_or, zero,
}
use apcu.Cache.Types.{ZendString, Entry, Env}
use apcu.Cache.Allocator.{Allocator, Cache, wlock}
use apcu.Cache.Remove.{remove_entry}
use apcu.Cache.Remove.Effects.{SameTable, SameTable-refl, SameTable-trans, remove_entry-SameTable}
use apcu.Cache.Find.{find_walk, find_nostat}
use apcu.Cache.Expunge.{
  expunge_slot, expunge_slots, real_expunge, count_expunge, reset_counters, clear,
}
use apcu.Cache.Expunge.Sweep.{expunge_slots-Tally}
use apcu.Cache.Valid.{total_count, total_weight, GoodSlots, Tally, IsValid}
use apcu.Cache.Expunge.Drop.{wlocked_gc-IsValid}

module _ ⦃a : Allocator⦄ where
  expunge_slot-SameTable :
      (env : Env) (c : Cache a) (es : List Entry) → SameTable c (expunge_slot env c es)
  unfolding expunge_slot
  expunge_slot-SameTable env c [] = SameTable-refl c
  expunge_slot-SameTable env c (e ∷ es) =
      SameTable-trans (remove_entry-SameTable env c e)
        (expunge_slot-SameTable env (remove_entry env c e) es)

  expunge_slots-SameTable :
      (env : Env) (c : Cache a) (ss : List (List Entry)) → SameTable c (expunge_slots env c ss).0
  unfolding expunge_slots
  expunge_slots-SameTable env c [] = SameTable-refl c
  expunge_slots-SameTable env c (es ∷ ss) =
      SameTable-trans (expunge_slot-SameTable env c es)
        (expunge_slots-SameTable env (expunge_slot env c es) ss)

  -- the slots that are left hold nothing
  expunge_slots-empty :
      (env : Env) (c : Cache a) (n i : ℕ) (ss : List (List Entry))
      → (total_count (expunge_slots env c ss).1 ≡ 0)
        × (total_weight (expunge_slots env c ss).1 ≡ 0)
        × (length (expunge_slots env c ss).1 ≡ length ss)
        × GoodSlots n i (expunge_slots env c ss).1
  unfolding expunge_slots total_count total_weight
  expunge_slots-empty env c n i [] = (refl, refl, refl, tt)
  expunge_slots-empty env c n i (es ∷ ss) =
      let ih = expunge_slots-empty env (expunge_slot env c es) n (suc i) ss in
      (omega arith, omega arith, omega arith, ((tt, tt), ih.3))

  expunge_slots-get :
      (env : Env) (c : Cache a) (ss : List (List Entry)) (i : ℕ)
      → get_or (expunge_slots env c ss).1 i [] ≡ []
  unfolding expunge_slots
  expunge_slots-get env c [] i = refl
  expunge_slots-get env c (es ∷ ss) zero = refl
  expunge_slots-get env c (es ∷ ss) (suc i) = expunge_slots-get env (expunge_slot env c es) ss i

  -- A real expunge leaves nothing to find.
  pub real_expunge-find :
      (env : Env) (c : Cache a) (k : ZendString) (t : ℕ)
      → find_nostat (real_expunge env c) k t ≡ none
  unfolding real_expunge find_nostat find_walk
  real_expunge-find env c k t = rw expunge_slots-get

  pub real_expunge-IsValid : (env : Env) (c : Cache a) → IsValid c → IsValid (real_expunge env c)
  unfolding real_expunge count_expunge reset_counters
  real_expunge-IsValid env c v =
      let hd = c.header in
      let c' : Cache a = record c { header = count_expunge hd } in
      let t = v.tally in
      let t' : Tally c'.header (total_count c.slots) (total_weight c.slots) = omega arith in
      let done = expunge_slots-Tally env c' c.slots t' in
      let left = expunge_slots-empty env c' c.nslots 0 c.slots in
      let s = expunge_slots-SameTable env c' c.slots in
      record {
        some_slots = rw s.nslots v.some_slots;
        sized = rw s.nslots (left.2 ∙ v.sized);
        good = rw s.nslots left.3;
        tally = record { count = omega arith; bytes = omega arith };
      }

  -- Clearing the cache, or failing to lock it, keeps the invariant.
  pub clear-IsValid : (env : Env) (c : Cache a) → IsValid c → IsValid (clear env c)
  unfolding clear
  clear-IsValid env c v =
      let w = wlocked_gc-IsValid env (real_expunge env c) (real_expunge-IsValid env c v) in
      let t = w.tally in
      elim (Bool-cases (wlock env)) [
        | inl g ↦ rw g (record {
          some_slots = w.some_slots;
          sized = w.sized;
          good = w.good;
          tally = record { count = t.count; bytes = t.bytes };
        })
        | inr g ↦ rw g v
      ]

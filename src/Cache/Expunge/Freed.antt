-- ===== src/Cache/Expunge/Freed.antt =====
-- What `apc_cache_clear` frees: the entries of the table without references, and the removed
-- entries that are not to be kept.
use apcu.Prelude.{
  ℕ, ◌≡◌, refl, ap, ◌∙◌, true, false, List, [], ◌∷◌, arith, if◌then◌else◌, Bool-cases, inl, inr,
}
use apcu.Cache.Types.{Entry, Env}
use apcu.Cache.Allocator.{Allocator, Cache}
use apcu.Cache.Entry.{in_use}
use apcu.Cache.Remove.{gc_keeps, gc_loop, remove_entry, wlocked_gc, free_entry}
use apcu.Cache.Remove.Effects.{gc-remove_entry, remove_entry-SameTable}
use apcu.Cache.Expunge.{expunge_slot, expunge_slots, real_expunge, count_expunge, reset_counters}
use apcu.Cache.Expunge.Sweep.{stamped}

module _ ⦃a : Allocator⦄ where
  -- the memory when the entries of a list that are not referenced are freed
  unfoldable pub free_unused : a.Mem → List Entry → a.Mem
  free_unused m [] = m
  free_unused m (e ∷ es) = free_unused (if in_use e then m else a.free m e.addr) es

  unfoldable pub free_table : a.Mem → List (List Entry) → a.Mem
  free_table m [] = m
  free_table m (es ∷ ss) = free_table (free_unused m es) ss

  -- the memory when the entries of a list that a collection does not keep are freed
  unfoldable pub free_dead : Cache a → ℕ → a.Mem → List Entry → a.Mem
  free_dead c now m [] = m
  free_dead c now m (e ∷ es) = free_dead c now (if gc_keeps c now e then m else a.free m e.addr) es

  remove_entry-sma :
      (env : Env) (c : Cache a) (e : Entry)
      → (remove_entry env c e).sma ≡ (if in_use e then c.sma else a.free c.sma e.addr)
  unfolding remove_entry
  remove_entry-sma env c e = elim (Bool-cases (in_use e)) [ inl h ↦ rw h refl | inr h ↦ rw h refl ]

  expunge_slot-sma :
      (env : Env) (c : Cache a) (es : List Entry)
      → (expunge_slot env c es).sma ≡ free_unused c.sma es
  unfolding expunge_slot free_unused
  expunge_slot-sma env c [] = refl
  expunge_slot-sma env c (e ∷ es) =
      expunge_slot-sma env (remove_entry env c e) es
      ∙ ap (λ m. free_unused m es) (remove_entry-sma env c e)

  expunge_slots-sma :
      (env : Env) (c : Cache a) (ss : List (List Entry))
      → (expunge_slots env c ss).0.sma ≡ free_table c.sma ss
  unfolding expunge_slots free_table
  expunge_slots-sma env c [] = refl
  expunge_slots-sma env c (es ∷ ss) =
      expunge_slots-sma env (expunge_slot env c es) ss
      ∙ ap (λ m. free_table m ss) (expunge_slot-sma env c es)

  -- an entry that was put on the list just now is not collected
  pub gc_keeps-stamped :
      (env : Env) (c : Cache a) (x : Entry)
      → in_use x ≡ true
      → gc_keeps c env.wall (stamped env x) ≡ true
  unfolding gc_keeps in_use
  gc_keeps-stamped env c x u = ground arith

  -- so the removals of now add nothing to what a collection frees
  remove_entry-dead :
      (env : Env) (b c : Cache a) (m : a.Mem) (e : Entry)
      → free_dead b env.wall m (remove_entry env c e).header.gc ≡ free_dead b env.wall m c.header.gc
  unfolding free_dead
  remove_entry-dead env b c m e = elim (Bool-cases (in_use e)) [
    | inl u ↦
        let stays : gc_keeps b env.wall (stamped env e) ≡ true = gc_keeps-stamped env b e u in
        let l : (remove_entry env c e).header.gc ≡ stamped env e ∷ c.header.gc =
          rw (gc-remove_entry env c e, u) refl in
        ap (free_dead b env.wall m) l
        ∙ ap (λ k. free_dead b env.wall (if k then m else a.free m e.addr) c.header.gc) stays
    | inr u ↦
        let l : (remove_entry env c e).header.gc ≡ c.header.gc =
          rw (gc-remove_entry env c e, u) refl in
        ap (free_dead b env.wall m) l
  ]

  expunge_slot-dead :
      (env : Env) (b c : Cache a) (m : a.Mem) (es : List Entry)
      → free_dead b env.wall m (expunge_slot env c es).header.gc
        ≡ free_dead b env.wall m c.header.gc
  unfolding expunge_slot
  expunge_slot-dead env b c m [] = refl
  expunge_slot-dead env b c m (e ∷ es) =
      expunge_slot-dead env b (remove_entry env c e) m es ∙ remove_entry-dead env b c m e

  expunge_slots-dead :
      (env : Env) (b c : Cache a) (m : a.Mem) (ss : List (List Entry))
      → free_dead b env.wall m (expunge_slots env c ss).0.header.gc
        ≡ free_dead b env.wall m c.header.gc
  unfolding expunge_slots
  expunge_slots-dead env b c m [] = refl
  expunge_slots-dead env b c m (es ∷ ss) =
      expunge_slots-dead env b (expunge_slot env c es) m ss ∙ expunge_slot-dead env b c m es

  gc_keeps-gc_ttl :
      (b c : Cache a) (now : ℕ) (e : Entry)
      → c.gc_ttl ≡ b.gc_ttl
      → gc_keeps c now e ≡ gc_keeps b now e
  unfolding gc_keeps
  gc_keeps-gc_ttl b c now e same = rw same refl

  gc_loop-sma :
      (now : ℕ) (b c : Cache a) (es : List Entry)
      → c.gc_ttl ≡ b.gc_ttl
      → (gc_loop now c es).0.sma ≡ free_dead b now c.sma es
  unfolding gc_loop free_dead free_entry
  gc_loop-sma now b c [] s = refl
  gc_loop-sma now b c (e ∷ es) s = elim (Bool-cases (gc_keeps b now e)) [
    | inl h ↦
        let k : gc_keeps c now e ≡ true = gc_keeps-gc_ttl b c now e s ∙ h in
        rw (k, h, gc_loop) (gc_loop-sma now b c es s)
    | inr h ↦
        let k : gc_keeps c now e ≡ false = gc_keeps-gc_ttl b c now e s ∙ h in
        rw (k, h, gc_loop) (gc_loop-sma now b (free_entry c e) es s)
  ]

  expunge_slot-gc_ttl :
      (env : Env) (c : Cache a) (es : List Entry) → (expunge_slot env c es).gc_ttl ≡ c.gc_ttl
  unfolding expunge_slot
  expunge_slot-gc_ttl env c [] = refl
  expunge_slot-gc_ttl env c (e ∷ es) =
      expunge_slot-gc_ttl env (remove_entry env c e) es ∙ (remove_entry-SameTable env c e).gc_ttl

  expunge_slots-gc_ttl :
      (env : Env) (c : Cache a) (ss : List (List Entry))
      → (expunge_slots env c ss).0.gc_ttl ≡ c.gc_ttl
  unfolding expunge_slots
  expunge_slots-gc_ttl env c [] = refl
  expunge_slots-gc_ttl env c (es ∷ ss) =
      expunge_slots-gc_ttl env (expunge_slot env c es) ss ∙ expunge_slot-gc_ttl env c es

  -- The memory after the removal of all entries and a collection.
  pub expunge_gc-sma :
      (env : Env) (c : Cache a)
      → (wlocked_gc env (real_expunge env c)).sma
        ≡ free_dead c env.wall (free_table c.sma c.slots) c.header.gc
  unfolding wlocked_gc real_expunge reset_counters count_expunge
  expunge_gc-sma env c =
      let begun : Cache a = record c { header = count_expunge c.header } in
      let all = (expunge_slots env begun c.slots).0 in
      gc_loop-sma env.wall c (real_expunge env c) all.header.gc
        (expunge_slots-gc_ttl env begun c.slots)
      ∙ ap (λ m. free_dead c env.wall m all.header.gc) (expunge_slots-sma env begun c.slots)
      ∙ expunge_slots-dead env c begun (free_table c.sma c.slots) c.slots

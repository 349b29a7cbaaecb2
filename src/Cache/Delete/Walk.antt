-- ===== src/Cache/Delete/Walk.antt =====
-- The walk of the deletion along one slot.
use apcu.Prelude.{
  ℕ, ◌+◌, ◌≡◌, refl, sym, ◌≢◌, List, [], ◌∷◌, arith, length, Bool-cases, inl, inr, is_some,
}
use apcu.Cache.Types.{ZendString, Entry, Env}
use apcu.Cache.Allocator.{Allocator, Cache}
use apcu.Cache.Entry.{key_equals}
use apcu.Cache.Entry.Keys.{key_equals_iff, key_equals_unique}
use apcu.Cache.Remove.Effects.{
  SameTable, SameTable-refl, remove_entry-SameTable, remove_entry-Tally,
}
use apcu.Cache.Find.{find_walk}
use apcu.Cache.Fetch.{stat_walk}
use apcu.Cache.Insert.Walk.{Lacks-congr}
use apcu.Cache.Delete.{delete_walk}
use apcu.Cache.Valid.{weight, Lacks, Distinct, Placed, Tally}

module _ ⦃a : Allocator⦄ (env : Env) (key : ZendString) where
  pub delete_walk-SameTable :
      (c : Cache a) (es : List Entry) → SameTable c (delete_walk env key c es).1
  unfolding delete_walk
  delete_walk-SameTable c [] = SameTable-refl c
  delete_walk-SameTable c (e ∷ es) = elim (Bool-cases (key_equals e key)) [
    | inl h ↦ rw h (remove_entry-SameTable env c e)
    | inr h ↦ rw h (delete_walk-SameTable c es)
  ]

  -- the walk finds the key exactly if the information about it is found
  pub delete_walk-answer :
      (c : Cache a) (es : List Entry) → (delete_walk env key c es).0 ≡ is_some (stat_walk key es)
  unfolding delete_walk stat_walk
  delete_walk-answer c [] = refl
  delete_walk-answer c (e ∷ es) = elim (Bool-cases (key_equals e key)) [
    | inl h ↦ rw h
    | inr h ↦ rw h (delete_walk-answer c es)
  ]

  delete_walk-Lacks :
      (c : Cache a) (es : List Entry) (k : ZendString)
      → Lacks k es
      → Lacks k (delete_walk env key c es).2
  unfolding delete_walk
  delete_walk-Lacks c [] k l = tt
  delete_walk-Lacks c (e ∷ es) k l = elim (Bool-cases (key_equals e key)) [
    | inl h ↦ rw h l.1
    | inr h ↦ rw h (l.0, delete_walk-Lacks c es k l.1)
  ]

  -- the key itself is gone
  pub delete_walk-Lacks_self :
      (c : Cache a) (es : List Entry) → Distinct es → Lacks key (delete_walk env key c es).2
  unfolding delete_walk
  delete_walk-Lacks_self c [] d = tt
  delete_walk-Lacks_self c (e ∷ es) d = elim (Bool-cases (key_equals e key)) [
    | inl h ↦ rw h (Lacks-congr es ((key_equals_iff e key).0 h) d.0)
    | inr h ↦ rw h (h, delete_walk-Lacks_self c es d.1)
  ]

  pub delete_walk-find_other :
      (c : Cache a) (es : List Entry) (k : ZendString) (t : ℕ)
      → k ≢ key
      → find_walk k t (delete_walk env key c es).2 ≡ find_walk k t es
  unfolding delete_walk find_walk
  delete_walk-find_other c [] k t ne = refl
  delete_walk-find_other c (e ∷ es) k t ne = elim (Bool-cases (key_equals e key)) [
    | inl h ↦ rw (h, key_equals_unique e key k h (λ p. ne (sym p)))
    | inr h ↦ elim (Bool-cases (key_equals e k)) [
      | inl m ↦ rw (h, m)
      | inr m ↦ rw (h, m) (delete_walk-find_other c es k t ne)
    ]
  ]

  pub delete_walk-Distinct :
      (c : Cache a) (es : List Entry) → Distinct es → Distinct (delete_walk env key c es).2
  unfolding delete_walk
  delete_walk-Distinct c [] d = tt
  delete_walk-Distinct c (e ∷ es) d = elim (Bool-cases (key_equals e key)) [
    | inl h ↦ rw h d.1
    | inr h ↦ rw h (delete_walk-Lacks c es e.key d.0, delete_walk-Distinct c es d.1)
  ]

  pub delete_walk-Placed :
      (n i : ℕ) (c : Cache a) (es : List Entry)
      → Placed n i es
      → Placed n i (delete_walk env key c es).2
  unfolding delete_walk
  delete_walk-Placed n i c [] p = tt
  delete_walk-Placed n i c (e ∷ es) p = elim (Bool-cases (key_equals e key)) [
    | inl h ↦ rw h p.1
    | inr h ↦ rw h (p.0, delete_walk-Placed n i c es p.1)
  ]

  pub delete_walk-Tally :
      (n m : ℕ) (c : Cache a) (es : List Entry)
      → Tally c.header (n + length es) (m + weight es)
      → (let r = delete_walk env key c es in Tally r.1.header (n + length r.2) (m + weight r.2))
  unfolding delete_walk weight
  delete_walk-Tally n m c [] t = t
  delete_walk-Tally n m c (e ∷ es) t = elim (Bool-cases (key_equals e key)) [
    | inl h ↦ rw h (remove_entry-Tally env c e (n + length es) (m + weight es) (omega arith))
    | inr h ↦
        let t' = delete_walk-Tally (n + 1) (m + e.mem_size) c es (omega arith) in rw h (omega arith)
  ]

-- ===== src/Cache/Expunge/Sweep.antt =====
-- The two sweeps over the table: the removal of the expired entries, and of all.
use apcu.Prelude.{
  ℕ, ◌+◌, ◌≡◌, refl, ap, ◌∙◌, true, none, some, List, [], ◌∷◌, arith, length, if◌then◌else◌,
  Bool-cases, inl, inr, ◌⊎◌,
}
use apcu.Cache.Types.{ZendString, Entry, Env}
use apcu.Cache.Allocator.{Allocator, Cache}
use apcu.Cache.Entry.{key_equals, in_use, expired}
use apcu.Cache.Entry.Keys.{key_equals_iff}
use apcu.Cache.Remove.{remove_entry}
use apcu.Cache.Remove.Effects.{
  SameTable, SameTable-refl, SameTable-trans, remove_entry-SameTable, expired_congr,
  remove_entry-Tally, gc-remove_entry,
}
use apcu.Cache.Find.{find_walk}
use apcu.Cache.Insert.Walk.{find_walk-none, Lacks-congr}
use apcu.Cache.Expunge.{expunge_slot, expunge_slots, drop_expired_slot, drop_expired_slots}
use apcu.Cache.Valid.{weight, total_count, total_weight, Lacks, Distinct, Placed, Tally}

-- an entry stands in a list
abbrev pub Holds : Entry → List Entry → Type 0
Holds x [] = ⊥
Holds x (e ∷ es) = (e ≡ x) ⊎ Holds x es

abbrev pub HoldsSome : Entry → List (List Entry) → Type 0
HoldsSome x [] = ⊥
HoldsSome x (es ∷ ss) = Holds x es ⊎ HoldsSome x ss

-- an entry as it is put on the list of removed entries
abbrev pub stamped : Env → Entry → Entry
stamped env e = record e { dtime = env.wall }

-- the entries of a slot that have not expired
unfoldable pub unexpired : ⦃a : Allocator⦄ → Cache a → ℕ → List Entry → List Entry
unexpired c t [] = []
unexpired c t (e ∷ es) = if expired c e t then unexpired c t es else e ∷ unexpired c t es

module _ ⦃a : Allocator⦄ where
  pub unexpired_congr :
      {c d : Cache a}
      → SameTable c d
      → (t : ℕ) (es : List Entry) → unexpired d t es ≡ unexpired c t es
  unfolding unexpired
  unexpired_congr s t [] = refl
  unexpired_congr s t (e ∷ es) = rw (expired_congr s e t, unexpired_congr s t es)

  module _ (c : Cache a) (t : ℕ) where
    Lacks-unexpired : (es : List Entry) (k : ZendString) → Lacks k es → Lacks k (unexpired c t es)
    unfolding unexpired
    Lacks-unexpired [] k l = tt
    Lacks-unexpired (e ∷ es) k l = elim (Bool-cases (expired c e t)) [
      | inl h ↦ rw h (Lacks-unexpired es k l.1)
      | inr h ↦ rw h (l.0, Lacks-unexpired es k l.1)
    ]

    pub Distinct-unexpired : (es : List Entry) → Distinct es → Distinct (unexpired c t es)
    unfolding unexpired
    Distinct-unexpired [] d = tt
    Distinct-unexpired (e ∷ es) d = elim (Bool-cases (expired c e t)) [
      | inl h ↦ rw h (Distinct-unexpired es d.1)
      | inr h ↦ rw h (Lacks-unexpired es e.key d.0, Distinct-unexpired es d.1)
    ]

    pub Placed-unexpired :
        (n i : ℕ) (es : List Entry) → Placed n i es → Placed n i (unexpired c t es)
    unfolding unexpired
    Placed-unexpired n i [] p = tt
    Placed-unexpired n i (e ∷ es) p = elim (Bool-cases (expired c e t)) [
      | inl h ↦ rw h (Placed-unexpired n i es p.1)
      | inr h ↦ rw h (p.0, Placed-unexpired n i es p.1)
    ]

    -- A lookup among the unexpired entries finds what it found, unless that has expired.
    pub find_walk-unexpired :
        (es : List Entry) (k : ZendString) (now : ℕ)
        → Distinct es
        → find_walk k now (unexpired c t es) ≡ elim (find_walk k now es) [
          | none ↦ none
          | some e ↦ if expired c e t then none else some e
        ]
    unfolding unexpired find_walk
    find_walk-unexpired [] k now d = refl
    find_walk-unexpired (e ∷ es) k now d = elim (Bool-cases (key_equals e k)) [
      | inl m ↦
          let gone =
            find_walk-none k now (unexpired c t es)
              (Lacks-unexpired es k (Lacks-congr es ((key_equals_iff e k).0 m) d.0)) in
          elim (Bool-cases (expired c e t)) [
            | inl h ↦ rw (m, h) (ground (arith, gone))
            | inr h ↦ rw (h, m) (ground arith)
          ]
      | inr m ↦ elim (Bool-cases (expired c e t)) [
        | inl h ↦ rw (h, m) (find_walk-unexpired es k now d.1)
        | inr h ↦ rw (h, m) (find_walk-unexpired es k now d.1)
      ]
    ]

  module _ (env : Env) where
    pub drop_slot-SameTable :
        (c : Cache a) (es : List Entry) → SameTable c (drop_expired_slot env c es).0
    unfolding drop_expired_slot
    drop_slot-SameTable c [] = SameTable-refl c
    drop_slot-SameTable c (e ∷ es) = elim (Bool-cases (expired c e env.now)) [
      | inl h ↦
          rw (h, drop_expired_slot)
            (SameTable-trans (remove_entry-SameTable env c e)
              (drop_slot-SameTable (remove_entry env c e) es))
      | inr h ↦ rw (h, drop_expired_slot) (drop_slot-SameTable c es)
    ]

    pub drop_slot-unexpired :
        (c : Cache a) (es : List Entry) → (drop_expired_slot env c es).1 ≡ unexpired c env.now es
    unfolding drop_expired_slot unexpired
    drop_slot-unexpired c [] = refl
    drop_slot-unexpired c (e ∷ es) = elim (Bool-cases (expired c e env.now)) [
      | inl h ↦
          rw (h, drop_expired_slot)
            (drop_slot-unexpired (remove_entry env c e) es
              ∙ unexpired_congr (remove_entry-SameTable env c e) env.now es)
      | inr h ↦ rw (h, drop_expired_slot) (ap (λ l. e ∷ l) (drop_slot-unexpired c es))
    ]

    drop_slot-Tally :
        (n m : ℕ) (c : Cache a) (es : List Entry)
        → Tally c.header (n + length es) (m + weight es)
        → (let r = drop_expired_slot env c es in Tally r.0.header (n + length r.1) (m + weight r.1))
    unfolding drop_expired_slot weight
    drop_slot-Tally n m c [] t = t
    drop_slot-Tally n m c (e ∷ es) t = elim (Bool-cases (expired c e env.now)) [
      | inl h ↦
          rw (h, drop_expired_slot)
            (drop_slot-Tally n m (remove_entry env c e) es
              (remove_entry-Tally env c e (n + length es) (m + weight es) (omega arith)))
      | inr h ↦
          let t' = drop_slot-Tally (n + 1) (m + e.mem_size) c es (omega arith) in
          rw (h, drop_expired_slot) (omega arith)
    ]

    pub drop_slots-SameTable :
        (c : Cache a) (ss : List (List Entry)) → SameTable c (drop_expired_slots env c ss).0
    unfolding drop_expired_slots
    drop_slots-SameTable c [] = SameTable-refl c
    drop_slots-SameTable c (es ∷ ss) =
        SameTable-trans (drop_slot-SameTable c es)
          (drop_slots-SameTable (drop_expired_slot env c es).0 ss)

    pub drop_slots-Tally :
        (n m : ℕ) (c : Cache a) (ss : List (List Entry))
        → Tally c.header (n + total_count ss) (m + total_weight ss)
        → (let r = drop_expired_slots env c ss in
            Tally r.0.header (n + total_count r.1) (m + total_weight r.1))
    unfolding drop_expired_slots total_count total_weight
    drop_slots-Tally n m c [] t = t
    drop_slots-Tally n m c (es ∷ ss) t =
        let d = drop_expired_slot env c es in
        let t' : Tally d.0.header (n + total_count ss + length d.1)
            (m + total_weight ss + weight d.1) =
          drop_slot-Tally (n + total_count ss) (m + total_weight ss) c es (omega arith) in
        let r = drop_expired_slots env d.0 ss in
        let t'' : Tally r.0.header (n + length d.1 + total_count r.1)
            (m + weight d.1 + total_weight r.1) =
          drop_slots-Tally (n + length d.1) (m + weight d.1) d.0 ss (omega arith) in
        omega arith

    expunge_slot-Tally :
        (n m : ℕ) (c : Cache a) (es : List Entry)
        → Tally c.header (n + length es) (m + weight es)
        → Tally (expunge_slot env c es).header n m
    unfolding expunge_slot weight
    expunge_slot-Tally n m c [] t = omega arith
    expunge_slot-Tally n m c (e ∷ es) t =
        expunge_slot-Tally n m (remove_entry env c e) es
          (remove_entry-Tally env c e (n + length es) (m + weight es) (omega arith))

    pub expunge_slots-Tally :
        (c : Cache a) (ss : List (List Entry))
        → Tally c.header (total_count ss) (total_weight ss)
        → Tally (expunge_slots env c ss).0.header 0 0
    unfolding expunge_slots total_count total_weight
    expunge_slots-Tally c [] t = t
    expunge_slots-Tally c (es ∷ ss) t =
        expunge_slots-Tally (expunge_slot env c es) ss
          (expunge_slot-Tally (total_count ss) (total_weight ss) c es (omega arith))

    -- what is on the list of removed entries stays there
    remove-Holds :
        (c : Cache a) (e x : Entry) → Holds x c.header.gc → Holds x (remove_entry env c e).header.gc
    remove-Holds c e x h = elim (Bool-cases (in_use e)) [
      | inl u ↦ rw (gc-remove_entry env c e, u) (inr h)
      | inr u ↦ rw (gc-remove_entry env c e, u) h
    ]

    remove-pins :
        (c : Cache a) (e : Entry)
        → in_use e ≡ true
        → Holds (stamped env e) (remove_entry env c e).header.gc
    remove-pins c e u = rw (gc-remove_entry env c e, u) (inl refl)

    expunge_slot-Holds :
        (c : Cache a) (es : List Entry) (x : Entry)
        → Holds x c.header.gc
        → Holds x (expunge_slot env c es).header.gc
    unfolding expunge_slot
    expunge_slot-Holds c [] x h = h
    expunge_slot-Holds c (e ∷ es) x h =
        expunge_slot-Holds (remove_entry env c e) es x (remove-Holds c e x h)

    expunge_slot-pins :
        (c : Cache a) (es : List Entry) (x : Entry)
        → Holds x es
        → in_use x ≡ true
        → Holds (stamped env x) (expunge_slot env c es).header.gc
    unfolding expunge_slot
    expunge_slot-pins c [] x h u = absurd h
    expunge_slot-pins c (e ∷ es) x h u = elim h [
      | inl same ↦
          expunge_slot-Holds (remove_entry env c e) es (stamped env x)
            (rw (← same) (remove-pins c e (rw same u)))
      | inr later ↦ expunge_slot-pins (remove_entry env c e) es x later u
    ]

    expunge_slots-Holds :
        (c : Cache a) (ss : List (List Entry)) (x : Entry)
        → Holds x c.header.gc
        → Holds x (expunge_slots env c ss).0.header.gc
    unfolding expunge_slots
    expunge_slots-Holds c [] x h = h
    expunge_slots-Holds c (es ∷ ss) x h =
        expunge_slots-Holds (expunge_slot env c es) ss x (expunge_slot-Holds c es x h)

    -- a referenced entry of the table is put on the list of removed entries
    pub expunge_slots-pins :
        (c : Cache a) (ss : List (List Entry)) (x : Entry)
        → HoldsSome x ss
        → in_use x ≡ true
        → Holds (stamped env x) (expunge_slots env c ss).0.header.gc
    unfolding expunge_slots
    expunge_slots-pins c [] x h u = absurd h
    expunge_slots-pins c (es ∷ ss) x h u = elim h [
      | inl here ↦
          expunge_slots-Holds (expunge_slot env c es) ss (stamped env x)
            (expunge_slot-pins c es x here u)
      | inr later ↦ expunge_slots-pins (expunge_slot env c es) ss x later u
    ]

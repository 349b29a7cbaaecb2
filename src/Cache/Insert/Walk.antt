-- ===== src/Cache/Insert/Walk.antt =====
-- The walk of the insertion along one slot.
use apcu.Prelude.{
  ℕ, ◌+◌, ◌%◌, ◌≡◌, refl, sym, ◌∙◌, ◌≢◌, Bool, true, false, not, ◌&&◌, none, some, List, [], ◌∷◌,
  arith, length, if◌then◌else◌, Bool-cases, inl, inr, is_some,
}
use apcu.Cache.Types.{ZendString, Entry, Header, Env}
use apcu.Cache.Allocator.{Allocator, Cache}
use apcu.Cache.Entry.{key_equals, hard_expired, expired}
use apcu.Cache.Entry.Keys.{key_equals_iff, key_equals_unique}
use apcu.Cache.Remove.{remove_entry}
use apcu.Cache.Remove.Effects.{
  SameTable, SameTable-refl, SameTable-trans, remove_entry-SameTable, expired_congr,
  remove_entry-Tally,
}
use apcu.Cache.Find.{find_walk}
use apcu.Cache.Insert.{Walked, insert_walk, count_insert}
use apcu.Cache.Valid.{weight, Lacks, Distinct, Placed, Tally}

pub find_walk-none :
    (k : ZendString) (t : ℕ) (es : List Entry) → Lacks k es → find_walk k t es ≡ none
unfolding find_walk
find_walk-none k t [] h = refl
find_walk-none k t (e ∷ es) h = rw (h.0, find_walk) (find_walk-none k t es h.1)

-- a list that lacks one key lacks an equal one
pub Lacks-congr : {k j : ZendString} (es : List Entry) → k ≡ j → Lacks k es → Lacks j es
Lacks-congr es p h = rw (← p) h

-- an entry that does not match a key is not matched by an entry of that key
key_equals_flip : (d e : Entry) → key_equals d e.key ≡ false → key_equals e d.key ≡ false
key_equals_flip d e h = elim (Bool-cases (key_equals e d.key)) [
  | inr g ↦ g
  | inl g ↦ cc (h, (key_equals_iff d e.key).1 (sym ((key_equals_iff e d.key).0 g)))
]

found_is : (t : ℕ) (e x : Entry) → (if hard_expired e t then none else some e) ≡ some x → e ≡ x
found_is t e x f = ground arith

misses : (e : Entry) (k : ZendString) → k ≢ e.key → key_equals e k ≡ false
misses e k ne = elim (Bool-cases (key_equals e k)) [
  | inr h ↦ h
  | inl h ↦ absurd (ne (sym ((key_equals_iff e k).0 h)))
]

module _ ⦃a : Allocator⦄ (env : Env) (exclusive : Bool) (new : Entry) where
  pub insert_walk-SameTable :
      (c : Cache a) (es : List Entry) → SameTable c (insert_walk env exclusive new c es).cache
  unfolding insert_walk
  insert_walk-SameTable c [] = SameTable-refl c
  insert_walk-SameTable c (e ∷ es) = elim (Bool-cases (key_equals e new.key)) [
    | inl h ↦ elim (Bool-cases (exclusive && not (hard_expired e new.ctime))) [
      | inl g ↦ rw (h, insert_walk, g) (SameTable-refl c)
      | inr g ↦ rw (h, insert_walk, g) (remove_entry-SameTable env c e)
    ]
    | inr h ↦ elim (Bool-cases (expired c e new.ctime)) [
      | inl g ↦
          rw (h, insert_walk, g)
            (SameTable-trans (remove_entry-SameTable env c e)
              (insert_walk-SameTable (remove_entry env c e) es))
      | inr g ↦ rw (h, insert_walk, g) (insert_walk-SameTable c es)
    ]
  ]

  -- The walk refuses exactly an exclusive insertion over an entry that a lookup finds.
  pub insert_walk-linked :
      (c : Cache a) (es : List Entry)
      → (insert_walk env exclusive new c es).linked
        ≡ not (exclusive && is_some (find_walk new.key new.ctime es))
  unfolding insert_walk find_walk
  insert_walk-linked c [] = ground arith
  insert_walk-linked c (e ∷ es) = elim (Bool-cases (key_equals e new.key)) [
    | inl h ↦ elim (Bool-cases (exclusive && not (hard_expired e new.ctime))) [
      | inl g ↦ rw (h, insert_walk, find_walk, g) (ground arith)
      | inr g ↦ rw (h, insert_walk, find_walk, g) (ground arith)
    ]
    | inr h ↦ elim (Bool-cases (expired c e new.ctime)) [
      | inl g ↦ rw (h, insert_walk, find_walk, g) (insert_walk-linked (remove_entry env c e) es)
      | inr g ↦ rw (h, insert_walk, find_walk, g) (insert_walk-linked c es)
    ]
  ]

  pub insert_walk-find_self :
      (c : Cache a) (es : List Entry) (t : ℕ)
      → (insert_walk env exclusive new c es).linked ≡ true
      → find_walk new.key t (insert_walk env exclusive new c es).entries
        ≡ (if hard_expired new t then none else some new)
  unfolding insert_walk find_walk
  insert_walk-find_self c [] t l = rw ((key_equals_iff new new.key).1 refl)
  insert_walk-find_self c (e ∷ es) t l = elim (Bool-cases (key_equals e new.key)) [
    | inl h ↦ elim (Bool-cases (exclusive && not (hard_expired e new.ctime))) [
      | inl g ↦ cc (rw (h, insert_walk, g) at l)
      | inr g ↦ rw (h, insert_walk, g) (rw ((key_equals_iff new new.key).1 refl))
    ]
    | inr h ↦ elim (Bool-cases (expired c e new.ctime)) [
      | inl g ↦
          rw (h, insert_walk, g)
            (insert_walk-find_self (remove_entry env c e) es t (rw (h, insert_walk, g) at l))
      | inr g ↦
          rw (h, insert_walk, g)
            (rw (h, find_walk) (insert_walk-find_self c es t (rw (h, insert_walk, g) at l)))
    ]
  ]

  -- every other entry that is found and not expired stays
  pub insert_walk-find_keeps :
      (c : Cache a) (es : List Entry) (k : ZendString) (t : ℕ) (x : Entry)
      → k ≢ new.key
      → find_walk k t es ≡ some x
      → expired c x new.ctime ≡ false
      → find_walk k t (insert_walk env exclusive new c es).entries ≡ some x
  unfolding insert_walk find_walk
  insert_walk-find_keeps c [] k t x ne f live = cc
  insert_walk-find_keeps c (e ∷ es) k t x ne f live = elim (Bool-cases (key_equals e k)) [
    | inl m ↦
        let f' : (if hard_expired e t then none else some e) ≡ some x = rw (m, find_walk) at f in
        let same : e ≡ x = found_is t e x f' in
        let miss = key_equals_unique e k new.key m ne in
        let fresh : expired c e new.ctime ≡ false = rw same live in
        rw (miss, insert_walk, fresh) (rw (m, find_walk) f')
    | inr m ↦
        let f' : find_walk k t es ≡ some x = rw (m, find_walk) at f in
        elim (Bool-cases (key_equals e new.key)) [
          | inl h ↦ elim (Bool-cases (exclusive && not (hard_expired e new.ctime))) [
            | inl g ↦ rw (h, insert_walk, g) f
            | inr g ↦ rw (h, insert_walk, g) (rw (misses new k ne, find_walk) f')
          ]
          | inr h ↦ elim (Bool-cases (expired c e new.ctime)) [
            | inl g ↦
                rw (h, insert_walk, g)
                  (insert_walk-find_keeps (remove_entry env c e) es k t x ne f'
                    (expired_congr (remove_entry-SameTable env c e) x new.ctime ∙ live))
            | inr g ↦
                rw (h, insert_walk, g)
                  (rw (m, find_walk) (insert_walk-find_keeps c es k t x ne f' live))
          ]
        ]
  ]

  -- no other key gets an entry
  pub insert_walk-find_only :
      (c : Cache a) (es : List Entry) (k : ZendString) (t : ℕ) (x : Entry)
      → k ≢ new.key
      → Distinct es
      → find_walk k t (insert_walk env exclusive new c es).entries ≡ some x
      → find_walk k t es ≡ some x
  unfolding insert_walk find_walk
  insert_walk-find_only c [] k t x ne d f = cc (rw (misses new k ne, find_walk) at f)
  insert_walk-find_only c (e ∷ es) k t x ne d f = elim (Bool-cases (key_equals e new.key)) [
    | inl h ↦
        let miss = key_equals_unique e new.key k h (λ p. ne (sym p)) in
        elim (Bool-cases (exclusive && not (hard_expired e new.ctime))) [
          | inl g ↦ rw (h, insert_walk, g) at f
          | inr g ↦
              let f' = rw (h, insert_walk, g) at f in
              rw (miss, find_walk) (rw (misses new k ne, find_walk) at f')
        ]
    | inr h ↦ elim (Bool-cases (expired c e new.ctime)) [
      | inl g ↦
          let f' =
            insert_walk-find_only (remove_entry env c e) es k t x ne d.1
              (rw (h, insert_walk, g) at f) in
          elim (Bool-cases (key_equals e k)) [
            | inl m ↦
                let gone = find_walk-none k t es (Lacks-congr es ((key_equals_iff e k).0 m) d.0) in
                cc (gone, f')
            | inr m ↦ rw (m, find_walk) f'
          ]
      | inr g ↦
          let f' = rw (h, insert_walk, g) at f in
          elim (Bool-cases (key_equals e k)) [
            | inl m ↦ rw (m, find_walk) (rw (m, find_walk) at f')
            | inr m ↦
                rw (m, find_walk)
                  (insert_walk-find_only c es k t x ne d.1 (rw (m, find_walk) at f'))
          ]
    ]
  ]

  insert_walk-Lacks :
      (c : Cache a) (es : List Entry) (k : ZendString)
      → key_equals new k ≡ false
      → Lacks k es
      → Lacks k (insert_walk env exclusive new c es).entries
  unfolding insert_walk
  insert_walk-Lacks c [] k n l = (n, tt)
  insert_walk-Lacks c (e ∷ es) k n l = elim (Bool-cases (key_equals e new.key)) [
    | inl h ↦ elim (Bool-cases (exclusive && not (hard_expired e new.ctime))) [
      | inl g ↦ rw (h, insert_walk, g) l
      | inr g ↦ rw (h, insert_walk, g) (n, l.1)
    ]
    | inr h ↦ elim (Bool-cases (expired c e new.ctime)) [
      | inl g ↦ rw (h, insert_walk, g) (insert_walk-Lacks (remove_entry env c e) es k n l.1)
      | inr g ↦ rw (h, insert_walk, g) (l.0, insert_walk-Lacks c es k n l.1)
    ]
  ]

  pub insert_walk-Distinct :
      (c : Cache a) (es : List Entry)
      → Distinct es
      → Distinct (insert_walk env exclusive new c es).entries
  unfolding insert_walk
  insert_walk-Distinct c [] d = (tt, tt)
  insert_walk-Distinct c (e ∷ es) d = elim (Bool-cases (key_equals e new.key)) [
    | inl h ↦ elim (Bool-cases (exclusive && not (hard_expired e new.ctime))) [
      | inl g ↦ rw (h, insert_walk, g) d
      | inr g ↦ rw (h, insert_walk, g) (Lacks-congr es ((key_equals_iff e new.key).0 h) d.0, d.1)
    ]
    | inr h ↦ elim (Bool-cases (expired c e new.ctime)) [
      | inl g ↦ rw (h, insert_walk, g) (insert_walk-Distinct (remove_entry env c e) es d.1)
      | inr g ↦
          rw (h, insert_walk, g)
            (
              insert_walk-Lacks c es e.key (key_equals_flip e new h) d.0,
              insert_walk-Distinct c es d.1,
            )
    ]
  ]

  pub insert_walk-Placed :
      (n i : ℕ) (c : Cache a) (es : List Entry)
      → new.key.h % n ≡ i
      → Placed n i es
      → Placed n i (insert_walk env exclusive new c es).entries
  unfolding insert_walk
  insert_walk-Placed n i c [] home p = (home, tt)
  insert_walk-Placed n i c (e ∷ es) home p = elim (Bool-cases (key_equals e new.key)) [
    | inl h ↦ elim (Bool-cases (exclusive && not (hard_expired e new.ctime))) [
      | inl g ↦ rw (h, insert_walk, g) p
      | inr g ↦ rw (h, insert_walk, g) (home, p.1)
    ]
    | inr h ↦ elim (Bool-cases (expired c e new.ctime)) [
      | inl g ↦ rw (h, insert_walk, g) (insert_walk-Placed n i (remove_entry env c e) es home p.1)
      | inr g ↦ rw (h, insert_walk, g) (p.0, insert_walk-Placed n i c es home p.1)
    ]
  ]

  -- the header as it stands when the insertion ends
  abbrev pub settled : Walked a → Header
  settled w = if w.linked then count_insert w.cache.header new else w.cache.header

  -- `n` entries of `m` bytes stand in the other slots
  pub insert_walk-Tally :
      (n m : ℕ) (c : Cache a) (es : List Entry)
      → Tally c.header (n + length es) (m + weight es)
      → (let w = insert_walk env exclusive new c es in
          Tally (settled w) (n + length w.entries) (m + weight w.entries))
  unfolding insert_walk weight count_insert
  insert_walk-Tally n m c [] t = omega arith
  insert_walk-Tally n m c (e ∷ es) t = elim (Bool-cases (key_equals e new.key)) [
    | inl h ↦ elim (Bool-cases (exclusive && not (hard_expired e new.ctime))) [
      | inl g ↦ rw (h, insert_walk, g) t
      | inr g ↦
          let t' = remove_entry-Tally env c e (n + length es) (m + weight es) (omega arith) in
          rw (h, insert_walk, g) (omega arith)
    ]
    | inr h ↦ elim (Bool-cases (expired c e new.ctime)) [
      | inl g ↦
          rw (h, insert_walk, g)
            (insert_walk-Tally n m (remove_entry env c e) es
              (remove_entry-Tally env c e (n + length es) (m + weight es) (omega arith)))
      | inr g ↦
          let t' = insert_walk-Tally (n + 1) (m + e.mem_size) c es (omega arith) in
          rw (h, insert_walk, g) (omega arith)
    ]
  ]

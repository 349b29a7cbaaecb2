-- ===== src/Cache/Store/Keeps.antt =====
-- `apc_cache_store` and its steps keep the invariant.
use apcu.Prelude.{
  ℕ, ◌≡◌, refl, Bool, true, false, Option, none, some, arith, if◌then◌else◌, Bool-cases,
  Option-cases, inl, inr,
}
use apcu.Prelude.Int.{ℤ}
use apcu.Sma.Malloc.{full, got}
use apcu.Sma.Malloc.Laws.{Attempt-cases, malloc_inv}
use apcu.Cache.Types.{ZendString, Zval, Entry, Env}
use apcu.Cache.Allocator.{Allocator, Cache, Call, wlock}
use apcu.Cache.Entry.{release, entry_release}
use apcu.Cache.Remove.{free_entry}
use apcu.Cache.Insert.{wlocked_insert}
use apcu.Cache.Insert.Laws.{insert-IsValid}
use apcu.Cache.Expunge.{default_expunge}
use apcu.Cache.Expunge.Default.{default_expunge-IsValid}
use apcu.Cache.Store.{
  set_entry_values, is_slam, note_key, defense, cache_try, cache_malloc, persist, insert_or_free,
  store,
}
use apcu.Cache.Valid.{IsValid}
use apcu.Cache.Valid.Update.{update_entry-IsValid}

pub some_snd :
    {A B : Type 0} {x y : A} {c d : B}
    → ◌≡◌ {A = Option (A × B)} (some (x, c)) (some (y, d))
    → d ≡ c
some_snd h = cc

module _ ⦃a : Allocator⦄ where
  -- what other processes do keeps the invariant
  abbrev pub Respects : (Cache a → Cache a) → Type 0
  Respects f = (c : Cache a) → IsValid c → IsValid (f c)

  -- a change of the memory or of the last key alone
  with_sma-IsValid : (c : Cache a) (m : a.Mem) → IsValid c → IsValid (record c { sma = m })
  with_sma-IsValid c m v = record {
    some_slots = v.some_slots;
    sized = v.sized;
    good = v.good;
    tally = v.tally;
  }

  free_entry-IsValid : (c : Cache a) (e : Entry) → IsValid c → IsValid (free_entry c e)
  unfolding free_entry
  free_entry-IsValid c e v = with_sma-IsValid c _ v

  either :
      (b : Bool) (x y : Bool × Cache a) → IsValid x.1 → IsValid y.1 → IsValid (if b then x else y).1
  either true x y v w = v
  either false x y v w = w

  pub defense-IsValid :
      (env : Env) (c : Cache a) (key : ZendString) (t : ℕ)
      → IsValid c
      → IsValid (defense env c key t).1
  unfolding defense
  defense-IsValid env c key t v =
      let t' = v.tally in
      let noted : IsValid (note_key env c key t) = record {
        some_slots = v.some_slots;
        sized = v.sized;
        good = v.good;
        tally = record { count = t'.count; bytes = t'.bytes };
      } in
      either c.defend
        (if is_slam env c.header.lastkey key t then (true, c) else (false, note_key env c key t))
        (false, c)
        (either (is_slam env c.header.lastkey key t) (true, c) (false, note_key env c key t) v
          noted)
        v

  entry_release-IsValid : (c : Cache a) (addr : ℕ) → IsValid c → IsValid (entry_release c addr)
  unfolding entry_release release
  entry_release-IsValid c addr v = update_entry-IsValid addr release (λ e. (refl, refl)) c v

  cache_try-got : (s s' : Cache a) (n ptr : ℕ) → IsValid s → cache_try s n ≡ got ptr s' → IsValid s'
  unfolding cache_try
  cache_try-got s s' n ptr w h = elim (Attempt-cases (a.try_malloc s.sma n)) [
    | inl e ↦ cc (rw (e, cache_try) at h)
    | inr (inl (m, e)) ↦ cc (rw (e, cache_try) at h)
    | inr (inr (p, m, e)) ↦
        let same : record s { sma = m } ≡ s' = cc (rw (e, cache_try) at h) in
        rw (← same) (with_sma-IsValid s m w)
  ]

  cache_try-full : (s s' : Cache a) (n : ℕ) → IsValid s → cache_try s n ≡ full s' → IsValid s'
  unfolding cache_try
  cache_try-full s s' n w h = elim (Attempt-cases (a.try_malloc s.sma n)) [
    | inl e ↦ cc (rw (e, cache_try) at h)
    | inr (inl (m, e)) ↦
        let same : record s { sma = m } ≡ s' = cc (rw (e, cache_try) at h) in
        rw (← same) (with_sma-IsValid s m w)
    | inr (inr (p, m, e)) ↦ cc (rw (e, cache_try) at h)
  ]

  pub cache_malloc-IsValid :
      (call : Call a) (c : Cache a) (n : ℕ) (r : Option ℕ × Cache a)
      → Respects call.meanwhile
      → IsValid c
      → cache_malloc call c n ≡ some r
      → IsValid r.1
  unfolding cache_malloc
  cache_malloc-IsValid call c n r ok v e =
      malloc_inv (λ (c : Cache a). a.max_alloc_size c.sma) cache_try
        (λ c size. default_expunge call.meanwhile call.env c size) IsValid cache_try-got
        cache_try-full (λ s n w. default_expunge-IsValid call.meanwhile call.env s n (ok s w))
        call.tries false c n r v e

  persist-IsValid :
      (call : Call a) (c : Cache a) (key : ZendString) (val : Zval) (r : Option Entry × Cache a)
      → Respects call.meanwhile
      → IsValid c
      → persist call c key val ≡ some r
      → IsValid r.1
  unfolding persist
  persist-IsValid call c key val r ok v h = elim (Option-cases (call.codec.persist key val)) [
    | inl k ↦ let same : c ≡ r.1 = ground (arith, rw (k, persist) at h) in rw (← same) v
    | inr ((size, kept), k) ↦ elim (Option-cases (cache_malloc call c size)) [
      | inl n ↦ cc (rw (k, persist, n) at h)
      | inr ((o, d), n) ↦
          let w : IsValid d = cache_malloc-IsValid call c size (o, d) ok v n in
          elim (Option-cases o) [
            | inl z ↦
                let n' : cache_malloc call c size ≡ some (none, d) = rw z at n in
                let same : d ≡ r.1 = ground (arith, rw (k, persist, n') at h) in rw (← same) w
            | inr (addr, z) ↦
                let n' : cache_malloc call c size ≡ some (some addr, d) = rw z at n in
                let same : d ≡ r.1 = ground (arith, rw (k, persist, n') at h) in rw (← same) w
          ]
    ]
  ]

  insert_or_free-IsValid :
      (env : Env) (c : Cache a) (e : Entry) (exclusive : Bool)
      → IsValid c
      → IsValid (insert_or_free env c e exclusive).1
  unfolding insert_or_free
  insert_or_free-IsValid env c e exclusive v =
      let r = wlocked_insert env c e exclusive in
      let w = insert-IsValid env c e exclusive v in
      either r.0 (true, entry_release r.1 e.addr) (false, free_entry r.1 e)
        (entry_release-IsValid r.1 e.addr w) (free_entry-IsValid r.1 e w)

  -- Every outcome of a store keeps the invariant.
  pub store-IsValid :
      (call : Call a) (c : Cache a) (key : ZendString) (val : Zval) (ttl : ℤ) (exclusive : Bool)
      (r : Bool × Cache a)
      → Respects call.meanwhile
      → IsValid c
      → store call c key val ttl exclusive ≡ some r
      → IsValid r.1
  unfolding store
  store-IsValid call c key val ttl exclusive r ok v h =
      let guarded = defense call.env c key call.env.now in
      let g = defense-IsValid call.env c key call.env.now v in
      elim (Bool-cases guarded.0) [
        | inl slam ↦
            let same : guarded.1 ≡ r.1 = ground (arith, rw (slam, store) at h) in rw (← same) g
        | inr calm ↦ elim (Option-cases (persist call guarded.1 key val)) [
          | inl stuck ↦ cc (rw (calm, store, stuck) at h)
          | inr ((o, d), built) ↦
              let w : IsValid d = persist-IsValid call guarded.1 key val (o, d) ok g built in
              elim (Option-cases o) [
                | inl z ↦
                    let built' : persist call guarded.1 key val ≡ some (none, d) = rw z at built in
                    let same : d ≡ r.1 = ground (arith, rw (calm, store, built') at h) in
                    rw (← same) w
                | inr (fresh, z) ↦
                    let built' : persist call guarded.1 key val ≡ some (some fresh, d) =
                      rw z at built in
                    let entry : Entry = set_entry_values fresh ttl call.env.now in
                    let h' : (if wlock call.env
                          then insert_or_free call.env (call.meanwhile d) entry exclusive
                          else (false, free_entry (call.meanwhile d) entry))
                        ≡ r =
                      ground (arith, rw (calm, store, built') at h) in
                    rw (← h') (
                      either (wlock call.env)
                        (insert_or_free call.env (call.meanwhile d) entry exclusive)
                        (false, free_entry (call.meanwhile d) entry)
                        (insert_or_free-IsValid call.env (call.meanwhile d) entry exclusive
                          (ok d w))
                        (free_entry-IsValid (call.meanwhile d) entry (ok d w)))
              ]
        ]
      ]

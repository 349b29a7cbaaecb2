-- ===== src/Cache/Store/Ends.antt =====
-- `apc_cache_store` ends.
use apcu.Prelude.{
  ◌≤◌, ℕ, suc, ◌≡◌, Bool, true, false, ltb, Option, none, some, arith, if◌then◌else◌, Bool-cases,
  Option-cases, inl, inr,
}
use apcu.Prelude.Int.{ℤ, pos}
use apcu.Sma.Malloc.Laws.{malloc_total}
use apcu.Cache.Types.{ZendString, Zval, Entry}
use apcu.Cache.Allocator.{Allocator, Cache, Call, wlock}
use apcu.Cache.Remove.{free_entry}
use apcu.Cache.Expunge.{default_expunge}
use apcu.Cache.Store.{
  set_entry_values, defense, cache_try, cache_malloc, persist, insert_or_free, store,
}

module _ ⦃a : Allocator⦄ where
  module _ (call : Call a) (k : ℕ) (enough : call.tries ≡ suc (suc k))
      (quiet : (d : Cache a) → (call.meanwhile d).header.ncleanups ≤ d.header.ncleanups) where
    default_expunge-works :
        (d : Cache a) (n : ℕ) → (default_expunge call.meanwhile call.env d n).0 ≡ true
    unfolding default_expunge
    default_expunge-works d n =
        let q = quiet d in
        let calm : ltb d.header.ncleanups (call.meanwhile d).header.ncleanups ≡ false =
          ground arith in
        elim (Bool-cases (wlock call.env)) [ inr g ↦ rw g | inl g ↦ rw (g, calm) ]

    cache_malloc_total :
        (c : Cache a) (n : ℕ) → (r : Option ℕ × Cache a) × (cache_malloc call c n ≡ some r)
    unfolding cache_malloc
    cache_malloc_total c n = rw enough (
        malloc_total (λ (c : Cache a). a.max_alloc_size c.sma) cache_try
          (λ c size. default_expunge call.meanwhile call.env c size) default_expunge-works k c n)

    persist_total :
        (c : Cache a) (key : ZendString) (val : Zval)
        → (r : Option Entry × Cache a) × (persist call c key val ≡ some r)
    unfolding persist
    persist_total c key val = elim (Option-cases (call.codec.persist key val)) [
      | inl e ↦ ((none, c), rw (e, persist))
      | inr ((size, kept), e) ↦
          let (r, ended) = cache_malloc_total c size in
          elim (Option-cases (cache_malloc call c size)) [
            | inl endless ↦ cc (rw endless at ended)
            | inr ((o, d), done) ↦ elim (Option-cases o) [
              | inl z ↦
                  let done' : cache_malloc call c size ≡ some (none, d) = rw z at done in
                  ((none, d), rw (e, persist, done'))
              | inr (addr, z) ↦
                  let done' : cache_malloc call c size ≡ some (some addr, d) = rw z at done in
                  (
                    (
                      some (record {
                        addr = addr;
                        ttl = pos 0;
                        ref_count = pos 1;
                        nhits = 0;
                        ctime = 0;
                        mtime = 0;
                        dtime = 0;
                        atime = 0;
                        mem_size = size;
                        val = kept;
                        key = key;
                      }),
                      d,
                    ),
                    rw (e, persist, done'),
                  )
            ]
          ]
    ]

    -- A store ends if its allocation has two tries or more, and what other processes do in between
    -- never raises the number of clean-ups.
    pub store_total :
        (c : Cache a) (key : ZendString) (val : Zval) (ttl : ℤ) (exclusive : Bool)
        → (r : Bool × Cache a) × (store call c key val ttl exclusive ≡ some r)
    unfolding store
    store_total c key val ttl exclusive =
        let guarded = defense call.env c key call.env.now in
        let (r, ended) = persist_total guarded.1 key val in
        elim (Bool-cases guarded.0) [
          | inl slam ↦ ((false, guarded.1), rw (slam, store))
          | inr calm ↦ elim (Option-cases (persist call guarded.1 key val)) [
            | inl endless ↦ cc (rw endless at ended)
            | inr ((o, d), built) ↦ elim (Option-cases o) [
              | inl z ↦
                  let built' : persist call guarded.1 key val ≡ some (none, d) = rw z at built in
                  ((false, d), rw (calm, store, built'))
              | inr (fresh, z) ↦
                  let built' : persist call guarded.1 key val ≡ some (some fresh, d) =
                    rw z at built in
                  (
                    if wlock call.env
                        then insert_or_free call.env (call.meanwhile d)
                            (set_entry_values fresh ttl call.env.now) exclusive
                        else (
                          false,
                          free_entry (call.meanwhile d) (set_entry_values fresh ttl call.env.now),
                        ),
                    rw (calm, store, built'),
                  )
            ]
          ]
        ]

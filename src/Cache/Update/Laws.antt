-- ===== src/Cache/Update/Laws.antt =====
-- What an atomic update of an integer does to the entry of its key.
use apcu.Prelude.{
  ℕ, ◌≡◌, refl, sym, arith, Bool, true, false, none, some, ◌==◌, Bool-cases, Option-cases, inl, inr,
}
use mathlib.Core.Path.{subst}
use apcu.Prelude.Int.{ℤ, pos}
use apcu.Cache.Types.{ZendString, Zval, long, Entry}
use apcu.Cache.Allocator.{Allocator, Cache, Call, rlock}
use apcu.Cache.Entry.{update_entry}
use apcu.Cache.Find.{find_nostat}
use apcu.Cache.Update.{Updated, set_long, apply_long, update_pass, update_with, atomic_update_long}
use apcu.Cache.Entry.{ttl_over}
use apcu.Cache.Store.{store}
use apcu.Cache.Store.Keeps.{store-IsValid}
use apcu.Cache.Store.Laws.{store-find}
use apcu.Cache.Valid.{IsValid}
use apcu.Cache.Valid.Update.{update_entry-IsValid}
use apcu.Cache.Valid.Lookup.{find_nostat-update_entry}

module _ ⦃a : Allocator⦄ {D : Type 0} (updater : ℤ → D → Bool × ℤ × D) (call : Call a) where
  set_long-find :
      (c : Cache a) (key : ZendString) (v : ℤ) (t : ℕ) (e : Entry)
      → find_nostat c key t ≡ some e
      → find_nostat (update_entry c e.addr (set_long v t)) key t ≡ some (set_long v t e)
  unfolding set_long
  set_long-find c key v t e found =
      let step = find_nostat-update_entry e.addr (set_long v t) (λ x. (refl, refl, refl)) c key t in
      let here : (e.addr == e.addr) ≡ true = ground arith in rw (step, found, here)

  -- If the lock is granted and the key finds an entry with an integer, an atomic update ends, with
  -- the updater's result on that integer; afterwards the key finds the entry with the integer
  -- that the updater writes, modified now.
  pub atomic_update_long-find :
      (c : Cache a) (key : ZendString) (d : D) (insert_if_not_found : Bool) (ttl : ℤ) (e : Entry)
      (n : ℤ)
      → rlock call.env ≡ true
      → find_nostat c key call.env.now ≡ some e
      → e.val ≡ long n
      → (u : Updated a D) × (atomic_update_long updater call c key d insert_if_not_found ttl
          ≡ some u)
        × (u.done ≡ (updater n d).0)
        × (u.result ≡ (updater n d).2)
        × (find_nostat u.cache key call.env.now ≡ some (set_long (updater n d).1 call.env.now e))
  unfolding atomic_update_long
  atomic_update_long-find c key d insert_if_not_found ttl e n granted found is_long = (
    record {
      done = (updater n d).0;
      result = (updater n d).2;
      cache = update_entry c e.addr (set_long (updater n d).1 call.env.now);
    },
    rw (granted, update_with, update_pass, found, apply_long, is_long),
    refl,
    refl,
    set_long-find c key (updater n d).1 call.env.now e found,
  )

  apply_long-IsValid :
      (t : ℕ) (c : Cache a) (e : Entry) (d : D)
      → IsValid c
      → IsValid (apply_long updater t c e d).cache
  unfolding apply_long set_long
  apply_long-IsValid t c e d v = apply_val e.val refl
    where
      apply_val : (z : Zval) → e.val ≡ z → IsValid (apply_long updater t c e d).cache
      apply_val (long n) is_long =
          rw (is_long, apply_long) (update_entry-IsValid e.addr _ (λ x. (refl, refl)) c v)
      apply_val z other = rw (other, apply_long) v

  -- Every outcome of an atomic update is a valid cache, if other processes keep caches valid.
  atomic_update_long-IsValid :
      (c : Cache a) (key : ZendString) (d : D) (insert_if_not_found : Bool) (ttl : ℤ)
      (u : Updated a D)
      → ((x : Cache a) → IsValid x → IsValid (call.meanwhile x))
      → IsValid c
      → atomic_update_long updater call c key d insert_if_not_found ttl ≡ some u
      → IsValid u.cache
  unfolding atomic_update_long update_with update_pass
  atomic_update_long-IsValid c key d insert_if_not_found ttl u ok v h =
      let t = call.env.now in
      elim (Bool-cases (rlock call.env)) [
        | inr refused ↦
            let same : c ≡ u.cache = cc (rw (refused, update_with, update_pass) at h) in
            rw (← same) v
        | inl granted ↦ elim (Option-cases (find_nostat c key t)) [
          | inr (e, found) ↦
              let same : (apply_long updater t c e d).cache ≡ u.cache =
                cc (rw (granted, update_with, update_pass, found) at h) in
              rw (← same) (apply_long-IsValid t c e d v)
          | inl absent ↦ elim (Bool-cases insert_if_not_found) [
            | inr stay ↦
                let same : c ≡ u.cache =
                  cc (rw (granted, update_with, update_pass, absent, stay) at h) in
                rw (← same) v
            | inl insert ↦
                let stored = store call (call.meanwhile c) key (long (pos 0)) ttl true in
                elim (Option-cases stored) [
                  | inl endless ↦
                      cc (rw (granted, update_with, update_pass, absent, insert, endless) at h)
                  | inr ((b, c'), ended) ↦
                      let w : IsValid (call.meanwhile c') = ok c' (
                        store-IsValid call _ key (long (pos 0)) ttl true (b, c') ok (ok c v)
                          ended) in
                      elim (Option-cases (find_nostat (call.meanwhile c') key t)) [
                        | inl still ↦
                            let same : call.meanwhile c' ≡ u.cache = cc (
                              rw (granted, update_with, update_pass, absent, insert, ended, still)
                                at h) in
                            rw (← same) w
                        | inr (e, found) ↦
                            let same : (apply_long updater t (call.meanwhile c') e d).cache
                                ≡ u.cache =
                              cc (
                                rw (granted, update_with, update_pass, absent, insert, ended, found)
                                  at h) in
                            rw (← same) (apply_long-IsValid t (call.meanwhile c') e d w)
                      ]
                ]
          ]
        ]
      ]

  inserted_long-find :
      (c c' : Cache a) (key : ZendString) (d : D) (ttl : ℤ) (e : Entry)
      → ((x : Cache a) → call.meanwhile x ≡ x)
      → rlock call.env ≡ true
      → find_nostat c key call.env.now ≡ none
      → store call c key (long (pos 0)) ttl true ≡ some (true, c')
      → find_nostat c' key call.env.now ≡ some e
      → e.val ≡ long (pos 0)
      → e.ttl ≡ ttl
      → (u : Updated a D) × (x : Entry) × (atomic_update_long updater call c key d true ttl
          ≡ some u)
        × (u.done ≡ (updater (pos 0) d).0)
        × (u.result ≡ (updater (pos 0) d).2)
        × (find_nostat u.cache key call.env.now ≡ some x)
        × (x.val ≡ long (updater (pos 0) d).1)
        × (x.ttl ≡ ttl)
  unfolding atomic_update_long set_long
  inserted_long-find c c' key d ttl e alone granted absent stored found is_zero same_ttl =
      let t = call.env.now in
      let run : update_with true (apply_long updater t) call c key d true ttl
          ≡ some (record {
            done = (updater (pos 0) d).0;
            result = (updater (pos 0) d).2;
            cache = update_entry c' e.addr (set_long (updater (pos 0) d).1 t);
          }) =
        rw (
          update_with,
          update_pass,
          absent,
          alone c,
          stored,
          alone c',
          found,
          apply_long,
          is_zero,
          alone c',
        ) in
      (
        record {
          done = (updater (pos 0) d).0;
          result = (updater (pos 0) d).2;
          cache = update_entry c' e.addr (set_long (updater (pos 0) d).1 t);
        },
        set_long (updater (pos 0) d).1 t e,
        subst
            (λ b.
              update_with b (apply_long updater t) call c key d true ttl
              ≡ some (record {
                done = (updater (pos 0) d).0;
                result = (updater (pos 0) d).2;
                cache = update_entry c' e.addr (set_long (updater (pos 0) d).1 t);
              }))
            (sym granted) run,
        refl,
        refl,
        set_long-find c' key (updater (pos 0) d).1 t e found,
        refl,
        same_ttl,
      )

  -- If the lock is granted and the key finds nothing, an atomic update that may insert stores 0
  -- under the key and applies the updater to it, where the store succeeds and keeps 0 as it is, no
  -- other process interferes, and the time to live is not over at once.
  pub atomic_update_long-inserts :
      (c c' : Cache a) (key : ZendString) (d : D) (ttl : ℤ) (size : ℕ)
      → ((x : Cache a) → call.meanwhile x ≡ x)
      → IsValid c
      → rlock call.env ≡ true
      → find_nostat c key call.env.now ≡ none
      → call.codec.persist key (long (pos 0)) ≡ some (size, long (pos 0))
      → store call c key (long (pos 0)) ttl true ≡ some (true, c')
      → ttl_over ttl call.env.now call.env.now ≡ false
      → (u : Updated a D) × (e : Entry) × (atomic_update_long updater call c key d true ttl
          ≡ some u)
        × (u.done ≡ (updater (pos 0) d).0)
        × (u.result ≡ (updater (pos 0) d).2)
        × (find_nostat u.cache key call.env.now ≡ some e)
        × (e.val ≡ long (updater (pos 0) d).1)
        × (e.ttl ≡ ttl)
  unfolding atomic_update_long set_long
  atomic_update_long-inserts c c' key d ttl size alone v granted absent kept stored live =
      let t = call.env.now in
      let (e, found, zero_there, same_ttl, free) =
        store-find call c c' key (long (pos 0)) (long (pos 0)) size ttl true t
          (λ x w. subst (λ y. IsValid y) (sym (alone x)) w) v kept stored live in
      inserted_long-find c c' key d ttl e alone granted absent stored found zero_there same_ttl

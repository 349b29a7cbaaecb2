-- ===== src/Cache/Fetch/Laws.antt =====
-- What `apc_cache_exists` and `apc_cache_fetch` answer, and that they keep the invariant.
use apcu.Prelude.{
  ℕ, ◌≡◌, refl, arith, true, Option, some, is_some, ◌∷◌, Bool-cases, Option-cases, inl, inr,
}
use apcu.Cache.Types.{ZendString, Zval, Env}
use apcu.Cache.Allocator.{Allocator, Cache, Call, rlock}
use apcu.Cache.Entry.{incref, release, entry_incref, entry_release}
use apcu.Cache.Expunge.{entry_in}
use apcu.Cache.Find.{find_nostat, find, find_incref}
use apcu.Cache.Find.Laws.{find-found, find-IsValid}
use apcu.Cache.Fetch.{exists, fetch}
use apcu.Cache.Valid.{IsValid}
use apcu.Cache.Valid.Update.{update_entry-IsValid}

module _ ⦃a : Allocator⦄ where
  -- With the lock granted, a key exists exactly if a lookup finds it.
  pub exists-answer :
      (env : Env) (c : Cache a) (key : ZendString) (t : ℕ)
      → rlock env ≡ true
      → (exists env c key t).0 ≡ is_some (find_nostat c key t)
  unfolding exists
  exists-answer env c key t granted =
      let same = find-found c key t in
      elim (Option-cases (find c key t).0) [
        | inl e ↦ rw (granted, e) (rw e at same)
        | inr (x, e) ↦ rw (granted, e) (rw e at same)
      ]

  find_incref-IsValid :
      (c : Cache a) (key : ZendString) (t : ℕ) → IsValid c → IsValid (find_incref c key t).1
  unfolding find_incref entry_incref incref
  find_incref-IsValid c key t v =
      let w = find-IsValid c key t v in
      elim (Option-cases (find c key t).0) [
        | inl e ↦ rw (e, find_incref) w
        | inr (x, e) ↦
            rw (e, find_incref) (update_entry-IsValid x.addr incref (λ y. (refl, refl)) _ w)
      ]

  -- Every outcome of a fetch is a valid cache, if other processes keep caches valid.
  pub fetch-IsValid :
      (call : Call a) (c : Cache a) (key : ZendString) (t : ℕ) (r : Option Zval × Cache a)
      → ((d : Cache a) → IsValid d → IsValid (call.meanwhile d))
      → IsValid c
      → fetch call c key t ≡ some r
      → IsValid r.1
  unfolding fetch entry_release release
  fetch-IsValid call c key t r ok v h =
      let w = find_incref-IsValid c key t v in
      let later = call.meanwhile (find_incref c key t).1 in
      let w' : IsValid later = ok _ w in
      elim (Bool-cases (rlock call.env)) [
        | inr refused ↦
            let same : c ≡ r.1 = ground (arith, rw (refused, fetch) at h) in rw (← same) v
        | inl granted ↦ elim (Option-cases (find_incref c key t).0) [
          | inl e ↦
              let same : (find_incref c key t).1 ≡ r.1 =
                ground (arith, rw (granted, fetch, e) at h) in
              rw (← same) w
          | inr (x, e) ↦ elim (Option-cases (entry_in x.addr (later.header.gc ∷ later.slots))) [
            | inl gone ↦ cc (rw (granted, fetch, e, gone) at h)
            | inr (y, there) ↦
                let same : entry_release later x.addr ≡ r.1 =
                  ground (arith, rw (granted, fetch, e, there) at h) in
                rw (← same) (update_entry-IsValid x.addr release (λ z. (refl, refl)) later w')
          ]
        ]
      ]

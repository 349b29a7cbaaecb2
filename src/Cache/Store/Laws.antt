-- ===== src/Cache/Store/Laws.antt =====
-- `apc_cache_store`: the stored value is found.
use apcu.Prelude.{
  ℕ, ◌≡◌, refl, ◌∙◌, Bool, true, false, none, some, arith, Bool-cases, Option-cases, inl, inr,
  ==_iff,
}
use mathlib.Core.Path.{subst}
use apcu.Prelude.Int.{ℤ, pos, ◌-ℤ◌}
use apcu.Cache.Types.{ZendString, Zval, Entry, Env}
use apcu.Cache.Allocator.{Allocator, Cache, Call, wlock}
use apcu.Cache.Entry.{hard_expired, ttl_over, release, entry_release}
use apcu.Cache.Find.{find_nostat}
use apcu.Cache.Insert.{wlocked_insert}
use apcu.Cache.Insert.Laws.{insert-find}
use apcu.Cache.Store.{set_entry_values, defense, cache_malloc, persist, insert_or_free, store}
use apcu.Cache.Valid.{IsValid}
use apcu.Cache.Valid.Lookup.{find_nostat-update_entry}
use apcu.Cache.Store.Keeps.{some_snd, Respects, defense-IsValid, cache_malloc-IsValid}

module _ ⦃a : Allocator⦄ where
  -- what the entry that is built holds
  record Fresh (e : Entry) (k : ZendString) (kept : Zval) : Type 0 where
    key : e.key ≡ k
    val : e.val ≡ kept
    ref_count : e.ref_count ≡ pos 1

  persist-Fresh :
      (call : Call a) (c d : Cache a) (key : ZendString) (val kept : Zval) (size : ℕ) (e : Entry)
      → Respects call.meanwhile
      → IsValid c
      → call.codec.persist key val ≡ some (size, kept)
      → persist call c key val ≡ some (some e, d)
      → Fresh e key kept × IsValid d
  unfolding persist
  persist-Fresh call c d key val kept size e ok v k h =
      elim (Option-cases (cache_malloc call c size)) [
        | inl n ↦ cc (rw (k, persist, n) at h)
        | inr ((o, d'), n) ↦ elim (Option-cases o) [
          | inl z ↦
              let n' : cache_malloc call c size ≡ some (none, d') = rw z at n in
              cc (rw (k, persist, n') at h)
          | inr (addr, z) ↦
              let n' : cache_malloc call c size ≡ some (some addr, d') = rw z at n in
              let h' = rw (k, persist, n') at h in
              (
                record { key = ground arith; val = ground arith; ref_count = ground arith },
                rw (some_snd h') (cache_malloc-IsValid call c size (some addr, d') ok v n'),
              )
        ]
      ]

  -- an insertion that succeeds leaves the entry with no reference
  insert_or_free-find :
      (env : Env) (c c' : Cache a) (e : Entry) (exclusive : Bool) (t : ℕ)
      → IsValid c
      → insert_or_free env c e exclusive ≡ (true, c')
      → hard_expired e t ≡ false
      → find_nostat c' e.key t ≡ some (release e)
  unfolding insert_or_free entry_release
  insert_or_free-find env c c' e exclusive t v h live =
      let r = wlocked_insert env c e exclusive in
      elim (Bool-cases r.0) [
        | inr no_insert ↦ cc (rw (no_insert, insert_or_free) at h)
        | inl done ↦
            let h' : entry_release r.1 e.addr ≡ c' = cc (rw (done, insert_or_free) at h) in
            let found : find_nostat r.1 e.key t ≡ some e =
              insert-find env c e exclusive v done t ∙ rw live refl in
            let here =
              find_nostat-update_entry e.addr release (λ x. (refl, refl, refl)) r.1 e.key t in
            rw (← h') (here ∙ rw found (rw ((==_iff e.addr e.addr).1 refl)))
      ]

  -- A store that succeeds leaves a valid cache in which its key finds the value in the form in
  -- which it is kept, with its time to live and no reference, as long as that time is not over.
  pub store-find :
      (call : Call a) (c c' : Cache a) (key : ZendString) (val kept : Zval) (size : ℕ) (ttl : ℤ)
      (exclusive : Bool) (t : ℕ)
      → Respects call.meanwhile
      → IsValid c
      → call.codec.persist key val ≡ some (size, kept)
      → store call c key val ttl exclusive ≡ some (true, c')
      → ttl_over ttl call.env.now t ≡ false
      → (e : Entry) × (find_nostat c' key t ≡ some e)
        × (e.val ≡ kept)
        × (e.ttl ≡ ttl)
        × (e.ref_count ≡ pos 0)
  unfolding store set_entry_values hard_expired release ◌-ℤ◌
  store-find call c c' key val kept size ttl exclusive t ok v k h live =
      let guarded = defense call.env c key call.env.now in
      elim (Bool-cases guarded.0) [
        | inl slam ↦ cc (rw (slam, store) at h)
        | inr calm ↦ elim (Option-cases (persist call guarded.1 key val)) [
          | inl stuck ↦ cc (rw (calm, store, stuck) at h)
          | inr ((o, d), built) ↦ elim (Option-cases o) [
            | inl z ↦
                let built' : persist call guarded.1 key val ≡ some (none, d) = rw z at built in
                cc (rw (calm, store, built') at h)
            | inr (fresh, z) ↦
                let built' : persist call guarded.1 key val ≡ some (some fresh, d) =
                  rw z at built in
                let (f, w) =
                  persist-Fresh call guarded.1 d key val kept size fresh ok
                    (defense-IsValid call.env c key call.env.now v) k built' in
                let entry : Entry = set_entry_values fresh ttl call.env.now in
                elim (Bool-cases (wlock call.env)) [
                  | inr refused ↦ cc (rw (calm, store, built', refused) at h)
                  | inl granted ↦
                      let h' : insert_or_free call.env (call.meanwhile d) entry exclusive
                          ≡ (true, c') =
                        ground (arith, rw (calm, store, built', granted) at h) in
                      let found : find_nostat c' fresh.key t ≡ some (release entry) =
                        insert_or_free-find call.env (call.meanwhile d) c' entry exclusive t
                          (ok d w) h' live in
                      (
                        release entry,
                        subst (λ q. find_nostat c' q t ≡ some (release entry)) f.key found,
                        f.val,
                        refl,
                        rw f.ref_count refl,
                      )
                ]
          ]
        ]
      ]

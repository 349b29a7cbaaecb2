-- ===== src/Php/Batch.antt =====
-- `apcu_delete` on an array of keys.
use apcu.Prelude.{
  ℕ, ◌≡◌, refl, ◌∙◌, Bool, true, false, List, [], ◌∷◌, ◌&&◌, ◌||◌, ◌==◌, Option, none, some, arith,
  if◌then◌else◌, Bool-cases, inl, inr, ◌↔◌,
}
use apcu.Cache.Types.{
  ZendString, Zval, undef, null_value, false_value, true_value, long, double, string, array, object,
  resource, reference, indirect, ptr, HashInfo, Buckets, Env, Entry, memcmp_eq,
}
use apcu.Cache.Allocator.{Allocator, Cache, Call, wlock}
use apcu.Cache.Valid.{IsValid}
use apcu.Cache.Find.{find_nostat}
use apcu.Cache.Entry.Keys.{memcmp_eq-eq, memcmp_eq_refl}
use apcu.Cache.Delete.{delete}
use apcu.Cache.Delete.Laws.{delete-find, delete-find_other, delete-IsValid}
use apcu.Iterator.Types.{deref}
use apcu.Iterator.Methods.{values}
use apcu.Php.{Php, listed, delete_value, delete_each, apcu_delete}

-- the two strings are one key
same_key : ZendString → ZendString → Bool
unfolding memcmp_eq
same_key s k = s.h == k.h && memcmp_eq s.val k.val

same_key_iff : (s k : ZendString) → (same_key s k ≡ true) ↔ (k ≡ s)
unfolding same_key
same_key_iff s k = (
  λ h. ground (arith, memcmp_eq-eq s.val k.val),
  λ h. rw h (ground (arith, memcmp_eq_refl s.val)),
)

-- whether a value is a key, and whether a key is among the values of an array
named : Zval → ZendString → Bool
unfolding same_key
named (string p s) k = same_key s k
named z k = false

pub names : List Zval → ZendString → Bool
unfolding deref
names [] k = false
names (z ∷ zs) k = named (deref z) k || names zs k

module _ ⦃a : Allocator⦄ (env : Env) (granted : wlock env ≡ true) where
  delete-lookup :
      (cache : Cache a) (s k : ZendString) (t : ℕ)
      → IsValid cache
      → find_nostat (delete env cache s).1 k t
        ≡ (if same_key s k then none else find_nostat cache k t)
  delete-lookup cache s k t v = elim (Bool-cases (same_key s k)) [
    | inl h ↦ let e = (same_key_iff s k).0 h in rw (h, e) (delete-find env cache s granted v t)
    | inr h ↦ rw h (delete-find_other env cache s v k t (λ e. never s k h e))
  ]
    where
      never : (s k : ZendString) → same_key s k ≡ false → k ≡ s → ⊥
      never s k h e = let f = (same_key_iff s k).1 e in ground arith

  -- what one value of the array does to the cache
  Deleted : Cache a → (ZendString → Bool) → Cache a → Type 0
  Deleted cache gone c =
      IsValid c
      × ((k : ZendString) (t : ℕ)
          → find_nostat c k t ≡ (if gone k then none else find_nostat cache k t))

  delete_value-Deleted :
      (z : Zval) (failed : List Zval) (cache : Cache a)
      → IsValid cache
      → Deleted cache (named z) (delete_value env z failed cache).1
  unfolding delete_value named Deleted
  delete_value-Deleted (string p s) failed cache v =
      (delete-IsValid env cache s v, λ k t. delete-lookup cache s k t v)
  delete_value-Deleted undef failed cache v = (v, λ k t. refl)
  delete_value-Deleted null_value failed cache v = (v, λ k t. refl)
  delete_value-Deleted false_value failed cache v = (v, λ k t. refl)
  delete_value-Deleted true_value failed cache v = (v, λ k t. refl)
  delete_value-Deleted (long n) failed cache v = (v, λ k t. refl)
  delete_value-Deleted (double n) failed cache v = (v, λ k t. refl)
  delete_value-Deleted (array p info bs) failed cache v = (v, λ k t. refl)
  delete_value-Deleted (object p) failed cache v = (v, λ k t. refl)
  delete_value-Deleted (resource p) failed cache v = (v, λ k t. refl)
  delete_value-Deleted (reference p z) failed cache v = (v, λ k t. refl)
  delete_value-Deleted (indirect p) failed cache v = (v, λ k t. refl)
  delete_value-Deleted (ptr p s) failed cache v = (v, λ k t. refl)

  delete_each-Deleted :
      (zs : List Zval) (failed : List Zval) (cache : Cache a)
      → IsValid cache
      → Deleted cache (names zs) (delete_each env zs failed cache).1
  unfolding delete_each names Deleted
  delete_each-Deleted [] failed cache v = (v, λ k t. refl)
  delete_each-Deleted (z ∷ zs) failed cache v =
      let r = delete_value env (deref z) failed cache in
      let (v₁, f) = delete_value-Deleted (deref z) failed cache v in
      let (v₂, g) = delete_each-Deleted zs r.0 r.1 v₁ in
      (
        v₂,
        λ k t.
            g k t
            ∙ both (named (deref z) k) (names zs k) (find_nostat cache k t) (find_nostat r.1 k t)
                (f k t),
      )
    where
      both :
          (x y : Bool) (o p : Option Entry)
          → p ≡ (if x then none else o)
          → (if y then none else p) ≡ (if x || y then none else o)
      both true true o p e = refl
      both true false o p e = e
      both false true o p e = refl
      both false false o p e = e

-- Where the lock is granted, and on a valid cache, `apcu_delete` on an array leaves a valid cache in
-- which each string of the array, by itself or in a reference, is not found, and every other key is
-- found as before.
pub apcu_delete-array :
    ⦃a : Allocator⦄ (php : Php) (fuel : ℕ) (call : Call a) (p : ℕ) (info : HashInfo) (bs : Buckets)
    (cache : Cache a)
    → wlock call.env ≡ true
    → IsValid cache
    → (failed : List Zval) × (c : Cache a) × (apcu_delete php fuel call (array p info bs) cache
        ≡ some (listed failed, c))
      × IsValid c
      × ((k : ZendString) (t : ℕ)
          → find_nostat c k t ≡ (if names (values bs) k then none else find_nostat cache k t))
unfolding apcu_delete Deleted
apcu_delete-array php fuel call p info bs cache granted v =
    let r = delete_each call.env (values bs) [] cache in
    let (v', f) = delete_each-Deleted call.env granted (values bs) [] cache v in
    (r.0, r.1, refl, v', f)

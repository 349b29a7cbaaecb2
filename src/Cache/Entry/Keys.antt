-- ===== src/Cache/Entry/Keys.antt =====
-- Comparison of keys decides equality, and references are counted up and down.
use apcu.Prelude.{ℕ, ◌≡◌, refl, ◌↔◌, true, false, List, [], ◌∷◌, arith, ◌≢◌, inl, inr, Bool-cases}
use apcu.Prelude.Int.{pos, +ℤ_cancel}
use apcu.Cache.Types.{ZendString, memcmp_eq, Entry}
use apcu.Cache.Entry.{key_equals, incref, release}

pub memcmp_eq-eq : (xs ys : List ℕ) → memcmp_eq xs ys ≡ true → xs ≡ ys
unfolding memcmp_eq
memcmp_eq-eq [] [] h = refl
memcmp_eq-eq [] (y ∷ ys) h = cc
memcmp_eq-eq (x ∷ xs) [] h = cc
memcmp_eq-eq (x ∷ xs) (y ∷ ys) h = ground (arith, memcmp_eq-eq xs ys)

pub memcmp_eq_refl : (xs : List ℕ) → memcmp_eq xs xs ≡ true
unfolding memcmp_eq
memcmp_eq_refl [] = refl
memcmp_eq_refl (x ∷ xs) = ground (arith, memcmp_eq_refl xs)

-- the test of `apc_entry_key_equals` passes exactly for the entry's own key
pub key_equals_iff : (e : Entry) (k : ZendString) → (key_equals e k ≡ true) ↔ (e.key ≡ k)
unfolding key_equals
key_equals_iff e k = (
  λ h. ground (arith, memcmp_eq-eq e.key.val k.val),
  λ h. rw (← h) (ground (arith, memcmp_eq_refl e.key.val)),
)

key_equals_self : (e : Entry) → key_equals e e.key ≡ true
key_equals_self e = (key_equals_iff e e.key).1 refl

-- an entry matches at most one key
pub key_equals_unique :
    (e : Entry) (k j : ZendString) → key_equals e k ≡ true → k ≢ j → key_equals e j ≡ false
key_equals_unique e k j h ne = elim (Bool-cases (key_equals e j)) [
  | inl same ↦ absurd (ne (cc ((key_equals_iff e k).0 h, (key_equals_iff e j).0 same)))
  | inr other ↦ other
]

-- two entries that match one key match the same keys
key_equals_congr :
    (d e : Entry) (k : ZendString) → key_equals d e.key ≡ true → key_equals d k ≡ key_equals e k
unfolding key_equals
key_equals_congr d e k h = let same = (key_equals_iff d e.key).0 h in ground arith

pub release-incref : (e : Entry) → release (incref e) ≡ e
unfolding release incref
release-incref e = rw (+ℤ_cancel e.ref_count (pos 1))

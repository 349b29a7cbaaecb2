-- ===== src/Persist/Content.antt =====
-- What a value is to a script, whatever the addresses of its parts are.
use apcu.Prelude.{
  ℕ, ◌≡◌, refl, true, false, Option, none, some, List, ◌∷◌, ◌==◌, if◌then◌else◌, arith, Bool-cases,
  inl, inr,
}
use apcu.Prelude.Int.{pos}
use apcu.Cache.Types.{
  ZendString, Zval, undef, null_value, false_value, true_value, long, double, string, array, object,
  resource, reference, indirect, ptr, HashInfo, Buckets, end, bucket,
}
use apcu.Persist.Zend.{is_undef, num_of_elements}
use apcu.Persist.Calc.{contains}

abbrev pub blank_info : HashInfo
blank_info = record {
  packed = false;
  table_mask = 0;
  next_free = pos 0;
  internal_pointer = 0;
  static_keys = false;
}

-- the bytes of a string, without its hash
abbrev bytes_only : ZendString → ZendString
bytes_only s = record { h = 0; val = s.val }

abbrev pub key_content : Option (ℕ × ZendString) → Option (ℕ × ZendString)
key_content none = none
key_content (some (p, k)) = some (0, bytes_only k)

-- The addresses, the hashes of strings, the holes of arrays and what an array holds besides its
-- values are forgotten; the keys, the values, their order and the references stay.
unfoldable mutual
  pub content : Zval → Zval
  content undef = undef
  content null_value = null_value
  content false_value = false_value
  content true_value = true_value
  content (long n) = long n
  content (double bits) = double bits
  content (string p s) = string 0 (bytes_only s)
  content (array p info bs) = array 0 blank_info (content_in bs)
  content (object p) = object p
  content (resource p) = resource p
  content (reference p z) = reference 0 (content z)
  content (indirect p) = indirect p
  content (ptr p s) = ptr p s

  pub content_in : Buckets → Buckets
  content_in end = end
  content_in (bucket h key z bs) =
      if is_undef (content z)
      then content_in bs
      else bucket h (key_content key) (content z) (content_in bs)

-- No part of the value lies inside itself, nor at one of the addresses.
unfoldable mutual
  pub Apart : List ℕ → Zval → Type 0
  Apart ps (string p s) = contains ps p ≡ false
  Apart ps (array p info bs) = (contains ps p ≡ false) × ApartIn (p ∷ ps) bs
  Apart ps (reference p z) = (contains ps p ≡ false) × Apart (p ∷ ps) z
  Apart ps (object p) = contains ps p ≡ false
  Apart ps (resource p) = contains ps p ≡ false
  Apart ps _ = Unit {0}

  pub ApartIn : List ℕ → Buckets → Type 0
  ApartIn ps end = Unit {0}
  ApartIn ps (bucket h key z bs) = Apart ps z × ApartIn ps bs

-- the offset that a kept value points to
unfoldable pub offset_of : Zval → Option ℕ
offset_of (string p s) = some p
offset_of (array p info bs) = some p
offset_of (reference p z) = some p
offset_of z = none

pub is_undef-content : (z : Zval) → is_undef (content z) ≡ is_undef z
unfolding is_undef content
is_undef-content undef = refl
is_undef-content null_value = refl
is_undef-content false_value = refl
is_undef-content true_value = refl
is_undef-content (long n) = refl
is_undef-content (double n) = refl
is_undef-content (string p s) = refl
is_undef-content (array p info bs) = refl
is_undef-content (object p) = refl
is_undef-content (resource p) = refl
is_undef-content (reference p z) = refl
is_undef-content (indirect p) = refl
is_undef-content (ptr p s) = refl

-- an array without elements holds holes only
pub content-empty : (bs : Buckets) → (num_of_elements bs == 0) ≡ true → content_in bs ≡ end
unfolding num_of_elements content_in
content-empty end h = refl
content-empty (bucket k key z bs) h = elim (Bool-cases (is_undef z)) [
  | inl hole ↦ rw (is_undef-content z, hole) (content-empty bs (rw (hole, num_of_elements) at h))
  | inr there ↦ let never = rw (there, num_of_elements) at h in ground arith
]

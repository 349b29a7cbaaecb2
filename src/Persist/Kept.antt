-- ===== src/Persist/Kept.antt =====
-- What a loop over buckets keeps: the kind of the table, the holes and the content.
use mathlib.Core.Path.{subst}
use apcu.Prelude.{
  ℕ, suc, ◌≡◌, refl, sym, ap, ◌∙◌, Bool, true, false, Option, none, some, if◌then◌else◌, arith,
  Bool-cases, inl, inr,
}
use apcu.Prelude.Int.{ℤ, pos}
use apcu.Cache.Types.{
  ZendString, Zval, undef, null_value, false_value, true_value, long, double, string, array, object,
  resource, reference, indirect, ptr, HashInfo, Buckets, end, bucket,
}
use apcu.Persist.Zend.{Zend, is_undef}
use apcu.Persist.Copy.{Copy, copy_key, copy_zval, copy_packed, copy_buckets, settle}
use apcu.Persist.Unpersist.{Unpersist, unpersist_zval}
use apcu.Persist.Content.{content, content_in, key_content, is_undef-content}

settle-packed :
    (idx : ℕ) (h : ℤ) (key : Option (ℕ × ZendString)) (info : HashInfo)
    → (settle idx h key info).packed ≡ info.packed
unfolding settle
settle-packed idx h none info = refl
settle-packed idx h (some k) info = refl

settled-packed :
    (b : Bool) (idx : ℕ) (h : ℤ) (key : Option (ℕ × ZendString)) (info : HashInfo)
    → (if b then info else settle idx h key info).packed ≡ info.packed
settled-packed true idx h key info = refl
settled-packed false idx h key info = settle-packed idx h key info

pub copy_packed-packed :
    (zend : Zend) (idx : ℕ) (bs : Buckets) (info : HashInfo) (k : Copy)
    → (copy_packed zend idx bs info k).1.0.packed ≡ info.packed
unfolding copy_packed
copy_packed-packed zend idx end info k = refl
copy_packed-packed zend idx (bucket h key z bs) info k =
    copy_packed-packed zend (suc idx) bs
      (if is_undef z then info else settle idx (pos idx) none info) (copy_zval zend z k).1
    ∙ settled-packed (is_undef z) idx (pos idx) none info

pub copy_buckets-packed :
    (zend : Zend) (idx : ℕ) (bs : Buckets) (info : HashInfo) (k : Copy)
    → (copy_buckets zend idx bs info k).1.0.packed ≡ info.packed
unfolding copy_buckets
copy_buckets-packed zend idx end info k = refl
copy_buckets-packed zend idx (bucket h key z bs) info k =
    copy_buckets-packed zend (suc idx) bs (if is_undef z then info else settle idx h key info)
      (if is_undef z then k else (copy_zval zend z (copy_key zend key k).1).1)
    ∙ settled-packed (is_undef z) idx h key info

settled-static :
    (b : Bool) (idx : ℕ) (h : ℤ) (key : Option (ℕ × ZendString)) (info : HashInfo)
    → (if b then info else settle idx h key info).static_keys ≡ true
    → info.static_keys ≡ true
unfolding settle
settled-static true idx h key info e = e
settled-static false idx h none info e = e
settled-static false idx h (some k) info e = cc

-- A copied array has the flag of static keys only if no key was copied.
copy_buckets-static :
    (zend : Zend) (idx : ℕ) (bs : Buckets) (info : HashInfo) (k : Copy)
    → (copy_buckets zend idx bs info k).1.0.static_keys ≡ true
    → info.static_keys ≡ true
unfolding copy_buckets
copy_buckets-static zend idx end info k e = e
copy_buckets-static zend idx (bucket h key z bs) info k e =
    settled-static (is_undef z) idx h key info (
      copy_buckets-static zend (suc idx) bs (if is_undef z then info else settle idx h key info)
        (if is_undef z then k else (copy_zval zend z (copy_key zend key k).1).1) e)

settle-static :
    (idx : ℕ) (h : ℤ) (key : Option (ℕ × ZendString)) (info : HashInfo)
    → (settle idx h key info).static_keys ≡ true
    → key ≡ none
unfolding settle
settle-static idx h none info e = refl
settle-static idx h (some k) info e = cc

pub static-no_key :
    (zend : Zend) (idx : ℕ) (h : ℤ) (key : Option (ℕ × ZendString)) (bs : Buckets) (info : HashInfo)
    (k : Copy)
    → (copy_buckets zend (suc idx) bs (settle idx h key info) k).1.0.static_keys ≡ true
    → key ≡ none
static-no_key zend idx h key bs info k e =
    settle-static idx h key info (copy_buckets-static zend (suc idx) bs (settle idx h key info) k e)

pub undef_there : (z : Zval) → is_undef z ≡ true → undef ≡ z
unfolding is_undef
undef_there undef h = refl
undef_there null_value h = ground arith
undef_there false_value h = ground arith
undef_there true_value h = ground arith
undef_there (long n) h = ground arith
undef_there (double n) h = ground arith
undef_there (string p s) h = ground arith
undef_there (array p info bs) h = ground arith
undef_there (object p) h = ground arith
undef_there (resource p) h = ground arith
undef_there (reference p z) h = ground arith
undef_there (indirect p) h = ground arith
undef_there (ptr p s) h = ground arith

-- What is kept for a value that is no hole is none either.
pub kept_there :
    (zend : Zend) (v z : Zval) (u : Unpersist)
    → content (unpersist_zval zend v u).0 ≡ content z
    → is_undef z ≡ false
    → is_undef v ≡ false
unfolding unpersist_zval is_undef
kept_there zend v z u same there = elim (Bool-cases (is_undef v)) [
  | inr h ↦ h
  | inl h ↦ absurd (
      clash (
        subst (λ (x : Zval). content (unpersist_zval zend x u).0 ≡ content z)
          (sym (undef_there v h)) same))
]
  where
    clash : content undef ≡ content z → ⊥
    clash e =
        let t : true ≡ false =
          sym (is_undef-content undef) ∙ ap is_undef e ∙ is_undef-content z ∙ there in
        ground arith

-- A bucket has the content of its key and its value.
pub bucket-content :
    (h : ℤ) (key key' : Option (ℕ × ZendString)) (z z' : Zval) (bs bs' : Buckets)
    → key_content key' ≡ key_content key
    → content z' ≡ content z
    → content_in bs' ≡ content_in bs
    → content_in (bucket h key' z' bs') ≡ content_in (bucket h key z bs)
unfolding content_in
bucket-content h key key' z z' bs bs' k e r =
    ap
      (λ (c : Zval).
        if is_undef c then content_in bs' else bucket h (key_content key') c (content_in bs'))
      e
    ∙ ap
        (λ (t : Buckets).
          if is_undef (content z) then t else bucket h (key_content key') (content z) t)
        r
    ∙ ap
        (λ c.
          if is_undef (content z) then content_in bs else bucket h c (content z) (content_in bs))
        k

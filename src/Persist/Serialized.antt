-- ===== src/Persist/Serialized.antt =====
-- The two passes where the whole value is serialized.
use apcu.Prelude.{
  ℕ, ◌+◌, ◌≡◌, refl, sym, ap, ◌∙◌, Bool, true, Option, none, some, if◌then◌else◌, inl, inr,
  Option-cases, length, List, [], ◌⊎◌,
}
use apcu.Cache.Types.{
  Zval, undef, null_value, false_value, true_value, long, double, string, array, object, resource,
  reference, indirect, ptr,
}
use apcu.Persist.Zend.{Zend, Serializer}
use apcu.Persist.Calc.{
  Calc, add_size, add_size_str, counted_once, calc_zval, calc_serialize, serialized_form,
  calc_memoize,
}
use apcu.Persist.Copy.{
  Copy, persist_alloc, copied_once, get_already_allocated, copy_serialize, copy_cstr, copy_zval,
}
use apcu.Persist.Entry.{copy_context}

module _ (zend : Zend) (serializer : Option Serializer) where
  serialize-size :
      (c : Calc) (l : Copy) (z : Zval)
      → l.alloc_cur ≡ c.size
      → (calc_serialize zend serializer c z).0 ≡ true
      → l.serialized_str ≡ (calc_serialize zend serializer c z).1.serialized_str
      → (copy_serialize zend l).1.alloc_cur ≡ (calc_serialize zend serializer c z).1.size
  unfolding calc_serialize copy_serialize add_size_str add_size copy_cstr persist_alloc
  serialize-size c l z a ok same = elim (Option-cases (serialized_form zend serializer z)) [
    | inl e ↦ cc (rw (e, calc_serialize) at ok)
    | inr (buf, e) ↦
        let kept : l.serialized_str ≡ some buf = rw (e, calc_serialize) at same in
        rw (e, calc_serialize)
          (ap
              (λ (o : Option (List ℕ)).
                l.alloc_cur
                + zend.aligned_size (
                    zend.zstr_struct_size
                      (length (elim o as (λ x. List ℕ) [ none ↦ [] | some b ↦ b ]))))
              kept
            ∙ ap (λ s. s + zend.aligned_size (zend.zstr_struct_size (length buf))) a)
  ]

  -- the second pass copies the string that the first one left
  serialized-size :
      (c : Calc) (l : Copy) (z : Zval) (p : ℕ) (count : Calc → Bool × Calc)
      (copy : Copy → Zval × Copy)
      → c.use_serialization ≡ true
      → l.use_serialization ≡ true
      → l.alloc_cur ≡ c.size
      → (counted_once zend serializer c z p count).0 ≡ true
      → l.serialized_str ≡ (counted_once zend serializer c z p count).1.serialized_str
      → (copied_once zend l p copy).1.alloc_cur ≡ (counted_once zend serializer c z p count).1.size
  unfolding counted_once copied_once
  serialized-size c l z p count copy u w a ok same =
      let counted : counted_once zend serializer c z p count ≡ calc_serialize zend serializer c z =
        ap
          (λ (b : Bool).
            if b
            then calc_serialize zend serializer c z
            else if (calc_memoize c p).0
            then (true, (calc_memoize c p).1)
            else count (calc_memoize c p).1)
          u in
      let copied : copied_once zend l p copy ≡ copy_serialize zend l =
        ap
          (λ (b : Bool).
            if b
            then copy_serialize zend l
            else elim (get_already_allocated l p) [ none ↦ copy l | some v ↦ (v, l) ])
          w in
      ap (λ (r : Zval × Copy). r.1.alloc_cur) copied
      ∙ serialize-size c l z a (ap (λ (r : Bool × Calc). r.0) (sym counted) ∙ ok)
          (same ∙ ap (λ (r : Bool × Calc). r.1.serialized_str) counted)
      ∙ ap (λ (r : Bool × Calc). r.1.size) (sym counted)

  -- A value is passed by, or is handled under its address.
  Plain : Zval → Calc → Copy → Type 0
  Plain z c l = ((calc_zval zend serializer z c).1 ≡ c) × ((copy_zval zend z l).1 ≡ l)

  Pointed : Zval → Calc → Copy → Type 0
  Pointed z c l =
      (p : ℕ) × (count : Calc → Bool × Calc) × (copy : Copy → Zval × Copy) × (calc_zval zend
          serializer z c
        ≡ counted_once zend serializer c z p count)
      × (copy_zval zend z l ≡ copied_once zend l p copy)

  zval-shape : (z : Zval) (c : Calc) (l : Copy) → Plain z c l ⊎ Pointed z c l
  unfolding calc_zval copy_zval Plain Pointed
  zval-shape undef c l = inl (refl, refl)
  zval-shape null_value c l = inl (refl, refl)
  zval-shape false_value c l = inl (refl, refl)
  zval-shape true_value c l = inl (refl, refl)
  zval-shape (long n) c l = inl (refl, refl)
  zval-shape (double n) c l = inl (refl, refl)
  zval-shape (indirect p) c l = inl (refl, refl)
  zval-shape (ptr p s) c l = inl (refl, refl)
  zval-shape (string p s) c l = inr (p, _, _, refl, refl)
  zval-shape (array p info bs) c l = inr (p, _, _, refl, refl)
  zval-shape (reference p z) c l = inr (p, _, _, refl, refl)
  zval-shape (object p) c l = inr (p, _, _, refl, refl)
  zval-shape (resource p) c l = inr (p, _, _, refl, refl)

  -- any value, where everything is serialized
  pub zval_serialized-size :
      (z : Zval) (c : Calc) (l : Copy)
      → c.use_serialization ≡ true
      → l.use_serialization ≡ true
      → l.alloc_cur ≡ c.size
      → (calc_zval zend serializer z c).0 ≡ true
      → l.serialized_str ≡ (calc_zval zend serializer z c).1.serialized_str
      → (copy_zval zend z l).1.alloc_cur ≡ (calc_zval zend serializer z c).1.size
  unfolding Plain Pointed
  zval_serialized-size z c l u w a ok same = elim (zval-shape z c l) [
    | inl (e, f) ↦ ap (λ (k : Copy). k.alloc_cur) f ∙ a ∙ ap (λ (d : Calc). d.size) (sym e)
    | inr (p, count, copy, e, f) ↦
        ap (λ (r : Zval × Copy). r.1.alloc_cur) f
        ∙ serialized-size c l z p count copy u w a (ap (λ (r : Bool × Calc). r.0) (sym e) ∙ ok)
            (same ∙ ap (λ (r : Bool × Calc). r.1.serialized_str) e)
        ∙ ap (λ (r : Bool × Calc). r.1.size) (sym e)
  ]

  -- Serializing leaves the flag.
  serialize-keeps :
      (c : Calc) (z : Zval)
      → (calc_serialize zend serializer c z).1.use_serialization ≡ c.use_serialization
  unfolding calc_serialize add_size_str add_size
  serialize-keeps c z = elim (Option-cases (serialized_form zend serializer z)) [
    | inl e ↦ rw (e, calc_serialize) refl
    | inr (buf, e) ↦ rw (e, calc_serialize) refl
  ]

  pub zval_serialized-flag :
      (z : Zval) (c : Calc)
      → c.use_serialization ≡ true
      → (calc_zval zend serializer z c).1.use_serialization ≡ true
  unfolding Plain Pointed counted_once
  zval_serialized-flag z c u = elim (zval-shape z c (copy_context c)) [
    | inl (e, f) ↦ ap (λ (d : Calc). d.use_serialization) e ∙ u
    | inr (p, count, copy, e, f) ↦
        ap (λ (r : Bool × Calc). r.1.use_serialization) e
        ∙ ap
            (λ (b : Bool).
              (if b
                then calc_serialize zend serializer c z
                else if (calc_memoize c p).0
                then (true, (calc_memoize c p).1)
                else count (calc_memoize c p).1).1.use_serialization)
            u
        ∙ serialize-keeps c z
        ∙ u
  ]

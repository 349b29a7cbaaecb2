-- ===== src/Persist/Whole.antt =====
-- Values that are kept as one piece, there and back.
use apcu.Prelude.{
  ℕ, ◌≡◌, refl, Bool, true, false, Option, none, some, ◌>>=◌, is_some, if◌then◌else◌, ◌==◌,
  Option-cases, inl, inr, arith,
}
use apcu.Cache.Types.{
  ZendString, Zval, undef, null_value, false_value, true_value, long, double, string, array, object,
  resource, reference, indirect, ptr, is_simple,
}
use apcu.Persist.Zend.{Zend, Serializer}
use apcu.Persist.Calc.{
  calc, calc_zval, calc_serialize, serialized_form, counted_once, calc_memoize, add_size,
  add_size_str,
}
use apcu.Persist.Copy.{
  copy_zval, copied_once, copy_serialize, copy_cstr, copy_zstr, copy_zstr_no_add, persist_alloc,
  add_already_allocated, get_already_allocated,
}
use apcu.Persist.Entry.{
  is_array, is_object, first_context, copy_context, measured, create_entry, persist,
}
use apcu.Persist.Unpersist.{
  unpersist, unpersist_serialized, unpersist_zval, apc_codec, unpersisted_once, unpersist_zstr,
  get_already_copied,
}

-- a value whose copy holds no other value: an array only where a serializer is set
unfoldable pub is_whole : Option Serializer → Zval → Bool
is_whole serializer (string p s) = true
is_whole serializer (object p) = true
is_whole serializer (resource p) = true
is_whole serializer (array p info bs) = is_some serializer
is_whole serializer z = is_simple z

-- What a request gets back: the same simple value, a new string of the same bytes, or what the
-- serializer reads in what it wrote; nothing where the value was refused.
pub restored : Zend → Option Serializer → Zval → Option Zval
restored zend serializer (string p s) =
    some (string 1 (record { h = if s.h == 0 then zend.hash_val s.val else s.h; val = s.val }))
restored zend serializer (resource p) = none
restored zend serializer (object p) = serialized_form zend serializer (object p) >>= λ buf.
    elim serializer [ none ↦ zend.php.unserialize buf | some own ↦ own.unserialize buf ]
restored zend serializer (array p info bs) =
    serialized_form zend serializer (array p info bs) >>= λ buf. elim serializer [
      | none ↦ zend.php.unserialize buf
      | some own ↦ own.unserialize buf
    ]
restored zend serializer z = some z

refused : false ≡ true → ⊥
refused e = ground arith

-- A value of one piece that `apc_persist` keeps comes back as `restored` says, and one that it
-- refuses does not.
pub unpersist-persist :
    (zend : Zend) (serializer : Option Serializer) (key : ZendString) (z : Zval)
    → is_whole serializer z ≡ true
    → ((apc_codec zend serializer).persist key z >>= λ (r : ℕ × Zval).
        (apc_codec zend serializer).unpersist r.1)
      ≡ restored zend serializer z
unfolding is_whole is_simple apc_codec restored persist measured create_entry unpersist calc
    calc_zval copy_zval unpersist_zval first_context is_object is_array counted_once calc_serialize
    calc_memoize copied_once copy_serialize copy_cstr copy_zstr copy_zstr_no_add persist_alloc
    add_already_allocated copy_context get_already_allocated unpersisted_once unpersist_zstr
    get_already_copied serialized_form add_size add_size_str unpersist_serialized
unpersist-persist zend none key (string p s) w = refl
unpersist-persist zend (some own) key (string p s) w = refl
unpersist-persist zend none key (object p) w = elim (Option-cases (zend.php.serialize (object p))) [
  | inl e ↦
      rw
        (
          e, apc_codec, persist, measured, calc, first_context, calc_zval, counted_once,
          calc_serialize, serialized_form,
        )
        refl
  | inr (buf, e) ↦
      rw
        (
          e, apc_codec, persist, measured, calc, first_context, calc_zval, counted_once,
          calc_serialize, serialized_form,
        )
        refl
]
unpersist-persist zend (some own) key (object p) w =
    elim (Option-cases (own.serialize (object p))) [
      | inl e ↦
          rw
            (
              e, apc_codec, persist, measured, calc, first_context, calc_zval, counted_once,
              calc_serialize, serialized_form,
            )
            refl
      | inr (buf, e) ↦
          rw
            (
              e, apc_codec, persist, measured, calc, first_context, calc_zval, counted_once,
              calc_serialize, serialized_form,
            )
            refl
    ]
unpersist-persist zend none key (resource p) w = refl
unpersist-persist zend (some own) key (resource p) w = refl
unpersist-persist zend (some own) key (array p info bs) w =
    elim (Option-cases (own.serialize (array p info bs))) [
      | inl e ↦
          rw
            (
              e, apc_codec, persist, measured, calc, first_context, calc_zval, counted_once,
              calc_serialize, serialized_form,
            )
            refl
      | inr (buf, e) ↦
          rw
            (
              e, apc_codec, persist, measured, calc, first_context, calc_zval, counted_once,
              calc_serialize, serialized_form,
            )
            refl
    ]
unpersist-persist zend none key (array p info bs) w = absurd (refused w)
unpersist-persist zend serializer key (reference p z) w = absurd (refused w)
unpersist-persist zend serializer key (indirect p) w = absurd (refused w)
unpersist-persist zend serializer key (ptr p s) w = absurd (refused w)
unpersist-persist zend serializer key undef w = refl
unpersist-persist zend serializer key null_value w = refl
unpersist-persist zend serializer key false_value w = refl
unpersist-persist zend serializer key true_value w = refl
unpersist-persist zend serializer key (long n) w = refl
unpersist-persist zend serializer key (double n) w = refl

-- ===== src/Persist/Entry.antt =====
-- `apc_persist`, `apc_persist_create_entry`: the value of an entry and the size of its allocation.
use apcu.Prelude.{
  Bool, true, false, not, Option, none, some, ℕ, [], ◌&&◌, ◌||◌, length, is_some, if◌then◌else◌,
}
use apcu.Cache.Types.{ZendString, Zval, object, array}
use apcu.Persist.Zend.{Zend, Serializer}
use apcu.Persist.Calc.{Calc, calc}
use apcu.Persist.Copy.{Copy, persist_alloc, copy_zval}

unfoldable pub is_array : Zval → Bool
is_array (array p info bs) = true
is_array _ = false

unfoldable pub is_object : Zval → Bool
is_object (object p) = true
is_object _ = false

-- the two contexts of `apc_persist`
unfoldable pub first_context : Option Serializer → Zval → Calc
unfolding is_array is_object
first_context serializer z = record {
  size = 0;
  memoization_needed = not (is_some serializer) && is_array z;
  use_serialization = is_object z || (is_some serializer && is_array z);
  serialized_str = none;
  already_counted = [];
}

abbrev pub second_context : Calc
second_context = record {
  size = 0;
  memoization_needed = false;
  use_serialization = true;
  serialized_str = none;
  already_counted = [];
}

-- the same context at the start of the second pass
unfoldable pub copy_context : Calc → Copy
copy_context ctxt = record {
  alloc_cur = 0;
  memoization_needed = ctxt.memoization_needed;
  use_serialization = ctxt.use_serialization;
  serialized_str = ctxt.serialized_str;
  already_allocated = [];
}

module _ (zend : Zend) where
  unfoldable pub create_entry : ZendString → Zval → Copy → Zval × Copy
  unfolding persist_alloc copy_zval
  create_entry key z ctxt =
      copy_zval zend z (persist_alloc zend (zend.entry_size (length key.val)) ctxt)

module _ (zend : Zend) (serializer : Option Serializer) where
  unfoldable pub measured : ZendString → Zval → Option Calc
  unfolding calc first_context
  measured key z =
      let first = calc zend serializer key z (first_context serializer z) in
      let second = calc zend serializer key z second_context in
      if first.0
      then some first.1
      else if not first.1.use_serialization
      then none
      else if second.0
      then some second.1
      else none

  -- `apc_sma_malloc` stands between the two passes; the cache makes the call with the size.
  unfoldable pub persist : ZendString → Zval → Option (ℕ × Zval)
  unfolding measured create_entry copy_context
  persist key z = elim (measured key z) [
    | none ↦ none
    | some ctxt ↦ some (ctxt.size, (create_entry zend key z (copy_context ctxt)).0)
  ]

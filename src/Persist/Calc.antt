-- ===== src/Persist/Calc.antt =====
-- The first pass: the size of the allocation (`apc_persist_calc` and its helpers).
use apcu.Prelude.{
  ℕ, ◌+◌, Bool, true, false, Option, none, some, List, [], ◌∷◌, ◌==◌, length, if◌then◌else◌, ◌||◌,
}
use apcu.Cache.Types.{
  ZendString, Zval, undef, null_value, false_value, true_value, long, double, string, array, object,
  resource, reference, indirect, ptr, Buckets, end, bucket,
}
use apcu.Persist.Zend.{Zend, Serializer, is_undef, is_indirect, num_of_elements, ht_data_size}

-- the fields of `apc_persist_context_t` that the first pass uses
pub record Calc : Type 0 where
  pub size : ℕ
  pub memoization_needed : Bool
  pub use_serialization : Bool
  pub serialized_str : Option (List ℕ)
  pub already_counted : List ℕ

-- whether an address is in a table; `apc_shr3` keeps addresses apart
unfoldable pub contains : List ℕ → ℕ → Bool
contains [] p = false
contains (q ∷ qs) p = p == q || contains qs p

-- whether the address was there already, and the table with it
unfoldable pub calc_memoize : Calc → ℕ → Bool × Calc
unfolding contains
calc_memoize ctxt p =
    if ctxt.memoization_needed
    then if contains ctxt.already_counted p
      then (true, ctxt)
      else (false, record ctxt { already_counted = p ∷ ctxt.already_counted })
    else (false, ctxt)

-- one pass of the loop over buckets with hashes, with what the key and the value of the bucket add
unfoldable pub calc_slot : Zval → Calc → Bool × Calc → Bool × Calc
unfolding is_undef is_indirect
calc_slot z ctxt counted =
    if is_undef z
    then (true, ctxt)
    else if is_indirect z
    then (false, record ctxt { use_serialization = true })
    else counted

module _ (zend : Zend) where
  -- `ADD_SIZE`, `ADD_SIZE_STR`
  unfoldable pub add_size : ℕ → Calc → Calc
  add_size n ctxt = record ctxt { size = ctxt.size + zend.aligned_size n }

  unfoldable pub add_size_str : ℕ → Calc → Calc
  unfolding add_size
  add_size_str len = add_size (zend.zstr_struct_size len)

  unfoldable pub add_key : Option (ℕ × ZendString) → Calc → Calc
  unfolding add_size_str
  add_key none ctxt = ctxt
  add_key (some (p, k)) ctxt = add_size_str (length k.val) ctxt

  module _ (serializer : Option Serializer) where
    -- by the serializer of the cache, or else by that of PHP
    unfoldable pub serialized_form : Zval → Option (List ℕ)
    serialized_form z = elim serializer [ none ↦ zend.php.serialize z | some s ↦ s.serialize z ]

    unfoldable pub calc_serialize : Calc → Zval → Bool × Calc
    unfolding add_size_str
    calc_serialize ctxt z = elim (serialized_form z) [
      | none ↦ (false, ctxt)
      | some buf ↦ (true, add_size_str (length buf) (record ctxt { serialized_str = some buf }))
    ]

    -- what follows unless the value is serialized, or was counted before
    unfoldable pub counted_once : Calc → Zval → (p : ℕ) → (Calc → Bool × Calc) → Bool × Calc
    unfolding calc_serialize calc_memoize
    counted_once ctxt z p count =
        let m = calc_memoize ctxt p in
        let counted = count m.1 in
        if ctxt.use_serialization
        then calc_serialize ctxt z
        else if m.0
        then (true, m.1)
        else counted

    -- An indirect value is found in a table of `$GLOBALS` alone.
    unfoldable mutual
      pub calc_zval : Zval → Calc → Bool × Calc
      calc_zval undef ctxt = (true, ctxt)
      calc_zval null_value ctxt = (true, ctxt)
      calc_zval false_value ctxt = (true, ctxt)
      calc_zval true_value ctxt = (true, ctxt)
      calc_zval (long n) ctxt = (true, ctxt)
      calc_zval (double bits) ctxt = (true, ctxt)
      calc_zval (string p s) ctxt =
          counted_once ctxt (string p s) p (λ c. (true, add_size_str (length s.val) c))
      calc_zval (array p info bs) ctxt = counted_once ctxt (array p info bs) p (λ c.
          if num_of_elements bs == 0
          then (true, c)
          else let sized =
              add_size (ht_data_size zend info bs) (add_size zend.sizeof_hash_table c) in
            if info.packed then calc_packed bs sized else calc_buckets bs sized)
      calc_zval (reference p z) ctxt =
          counted_once ctxt (reference p z) p (λ c. calc_zval z (add_size zend.sizeof_reference c))
      calc_zval (object p) ctxt =
          counted_once ctxt (object p) p (λ c. (false, record c { use_serialization = true }))
      calc_zval (resource p) ctxt = counted_once ctxt (resource p) p (λ c. (false, c))
      calc_zval (indirect p) ctxt = (false, ctxt)
      calc_zval (ptr p s) ctxt = (false, ctxt)

      -- `apc_persist_calc_ht` on a packed array
      pub calc_packed : Buckets → Calc → Bool × Calc
      calc_packed end ctxt = (true, ctxt)
      calc_packed (bucket h key z bs) ctxt =
          let r = calc_zval z ctxt in
          let rest = calc_packed bs r.1 in if r.0 then rest else (false, r.1)

      -- and on one with hashes
      pub calc_buckets : Buckets → Calc → Bool × Calc
      calc_buckets end ctxt = (true, ctxt)
      calc_buckets (bucket h key z bs) ctxt =
          let r = calc_slot z ctxt (calc_zval z (add_key key ctxt)) in
          let rest = calc_buckets bs r.1 in if r.0 then rest else (false, r.1)

    unfoldable pub calc : ZendString → Zval → Calc → Bool × Calc
    calc key z ctxt = calc_zval z (add_size (zend.entry_size (length key.val)) ctxt)

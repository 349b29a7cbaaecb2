-- ===== src/Persist/Copy.antt =====
-- The second pass: the copy into the entry's allocation (`apc_persist_copy_zval` and its helpers).
use apcu.Prelude.{
  ℕ, suc, ◌+◌, Bool, true, false, Option, none, some, List, [], ◌∷◌, ◌==◌, length, if◌then◌else◌,
}
use apcu.Prelude.Int.{ℤ, pos, negsuc, ◌+ℤ◌, ltb_ℤ}
use apcu.Cache.Types.{
  ZendString, Zval, undef, null_value, false_value, true_value, long, double, string, array, object,
  resource, reference, indirect, ptr, HashInfo, Buckets, end, bucket,
}
use apcu.Persist.Zend.{Zend, is_undef, num_of_elements, ht_data_size}

-- The fields of `apc_persist_context_t` that the second pass uses. Offsets from `alloc` stand for
-- pointers, so that `TO_OFF` is the identity. What is kept at an offset is a tree; the tree of an
-- address is put in the table anew when it is complete.
pub record Copy : Type 0 where
  pub alloc_cur : ℕ
  pub memoization_needed : Bool
  pub use_serialization : Bool
  pub serialized_str : Option (List ℕ)
  pub already_allocated : List (ℕ × Zval)

unfoldable pub find_ptr : List (ℕ × Zval) → ℕ → Option Zval
find_ptr [] p = none
find_ptr ((q, v) ∷ rest) p = if p == q then some v else find_ptr rest p

unfoldable pub get_already_allocated : Copy → ℕ → Option Zval
unfolding find_ptr
get_already_allocated ctxt p =
    if ctxt.memoization_needed then find_ptr ctxt.already_allocated p else none

unfoldable pub add_already_allocated : ℕ → Zval → Copy → Copy
add_already_allocated p v ctxt =
    if ctxt.memoization_needed
    then record ctxt { already_allocated = (p, v) ∷ ctxt.already_allocated }
    else ctxt

-- `HT_INVALID_IDX`
abbrev invalid_idx : ℕ
invalid_idx = 4294967295

-- `h + 1` as a `zend_long`, which wraps around
next_long : ℤ → ℤ
unfolding ◌+ℤ◌
next_long h = if ltb_ℤ h (pos 9223372036854775807) then h +ℤ pos 1 else negsuc 9223372036854775807

-- the fields of the copied table before the loop over its values
unfoldable pub reset_info : HashInfo → HashInfo
reset_info info = record info {
  next_free = pos 0;
  internal_pointer = invalid_idx;
  static_keys = true;
}

-- what the loop does to them at the index and for the key of a value
unfoldable pub settle : ℕ → ℤ → Option (ℕ × ZendString) → HashInfo → HashInfo
unfolding next_long
settle idx h key info =
    let first = if info.internal_pointer == invalid_idx then idx else info.internal_pointer in
    elim key [
      | none ↦ record info {
        internal_pointer = first;
        next_free = if ltb_ℤ h info.next_free then info.next_free else next_long h;
      }
      | some k ↦ record info { internal_pointer = first; static_keys = false }
    ]

module _ (zend : Zend) where
  unfoldable pub persist_alloc : ℕ → Copy → Copy
  persist_alloc size ctxt = record ctxt { alloc_cur = ctxt.alloc_cur + zend.aligned_size size }

  -- the offset of the new string, the string, and the context
  unfoldable pub copy_cstr : List ℕ → (hash : ℕ) → Copy → (ℕ × ZendString) × Copy
  unfolding persist_alloc
  copy_cstr buf hash ctxt = (
    (ctxt.alloc_cur, record { h = hash; val = buf }),
    persist_alloc (zend.zstr_struct_size (length buf)) ctxt,
  )

  -- `ZSTR_HASH` computes a hash that is not there yet.
  unfoldable pub copy_zstr_no_add : ZendString → Copy → (ℕ × ZendString) × Copy
  unfolding copy_cstr
  copy_zstr_no_add s ctxt = copy_cstr s.val (if s.h == 0 then zend.hash_val s.val else s.h) ctxt

  unfoldable pub copy_zstr : ℕ → ZendString → Copy → Zval × Copy
  unfolding copy_zstr_no_add add_already_allocated
  copy_zstr p s ctxt =
      let r = copy_zstr_no_add s ctxt in
      let v = string r.0.0 r.0.1 in (v, add_already_allocated p v r.1)

  unfoldable pub copy_key : Option (ℕ × ZendString) → Copy → Option (ℕ × ZendString) × Copy
  unfolding copy_zstr_no_add
  copy_key none ctxt = (none, ctxt)
  copy_key (some (p, k)) ctxt = let r = copy_zstr_no_add k ctxt in (some r.0, r.1)

  -- The buffer is null, and its length 0, where there was no serialization.
  unfoldable pub copy_serialize : Copy → Zval × Copy
  unfolding copy_cstr
  copy_serialize ctxt =
      let r = copy_cstr (elim ctxt.serialized_str [ none ↦ [] | some buf ↦ buf ]) 0 ctxt in
      (ptr r.0.0 r.0.1, r.1)

  -- the start of `apc_persist_copy_zval_impl`
  unfoldable pub copied_once : Copy → ℕ → (Copy → Zval × Copy) → Zval × Copy
  unfolding copy_serialize get_already_allocated
  copied_once ctxt p copy =
      if ctxt.use_serialization
      then copy_serialize ctxt
      else elim (get_already_allocated ctxt p) [ none ↦ copy ctxt | some v ↦ (v, ctxt) ]

  -- `apc_persist_copy_ht` of an array with elements, where `copy` is the loop over the values
  unfoldable pub copy_ht :
      ℕ → HashInfo → Buckets → (Copy → Buckets × (HashInfo × Copy)) → Copy → Zval × Copy
  unfolding persist_alloc add_already_allocated
  copy_ht p info bs copy c =
      let c₁ =
        add_already_allocated p (array c.alloc_cur info end)
          (persist_alloc zend.sizeof_hash_table c) in
      let r = copy (persist_alloc (ht_data_size zend info bs) c₁) in
      let v = array c.alloc_cur r.1.0 r.0 in (v, add_already_allocated p v r.1.1)

  -- An array without elements becomes a pointer to the start of the entry.
  unfoldable mutual
    pub copy_zval : Zval → Copy → Zval × Copy
    copy_zval undef ctxt = (undef, ctxt)
    copy_zval null_value ctxt = (null_value, ctxt)
    copy_zval false_value ctxt = (false_value, ctxt)
    copy_zval true_value ctxt = (true_value, ctxt)
    copy_zval (long n) ctxt = (long n, ctxt)
    copy_zval (double bits) ctxt = (double bits, ctxt)
    copy_zval (string p s) ctxt = copied_once ctxt p (copy_zstr p s)
    copy_zval (array p info bs) ctxt = copied_once ctxt p (λ c.
        if num_of_elements bs == 0
        then (array 0 info end, c)
        else copy_ht p info bs
            (if info.packed
              then copy_packed 0 bs (reset_info info)
              else copy_buckets 0 bs (reset_info info))
            c)
    copy_zval (reference p z) ctxt = copied_once ctxt p (λ c.
        let r = copy_zval z (
          add_already_allocated p (reference c.alloc_cur undef)
            (persist_alloc zend.sizeof_reference c)) in
        let v = reference c.alloc_cur r.0 in (v, add_already_allocated p v r.1))
    copy_zval (object p) ctxt = copied_once ctxt p (λ c. (object p, c))
    copy_zval (resource p) ctxt = copied_once ctxt p (λ c. (resource p, c))
    copy_zval (indirect p) ctxt = (indirect p, ctxt)
    copy_zval (ptr p s) ctxt = (ptr p s, ctxt)

    -- the loop over a packed array, whose values have an index and no key
    pub copy_packed : ℕ → Buckets → HashInfo → Copy → Buckets × (HashInfo × Copy)
    copy_packed idx end info ctxt = (end, (info, ctxt))
    copy_packed idx (bucket h key z bs) info ctxt =
        let r = copy_zval z ctxt in
        let rest =
          copy_packed (suc idx) bs (if is_undef z then info else settle idx (pos idx) none info)
            r.1 in
        (bucket h key r.0 rest.0, rest.1)

    -- and over one with hashes
    pub copy_buckets : ℕ → Buckets → HashInfo → Copy → Buckets × (HashInfo × Copy)
    copy_buckets idx end info ctxt = (end, (info, ctxt))
    copy_buckets idx (bucket h key z bs) info ctxt =
        let k = copy_key key ctxt in
        let r = copy_zval z k.1 in
        let rest =
          copy_buckets (suc idx) bs (if is_undef z then info else settle idx h key info)
            (if is_undef z then ctxt else r.1) in
        (bucket h (if is_undef z then key else k.0) r.0 rest.0, rest.1)

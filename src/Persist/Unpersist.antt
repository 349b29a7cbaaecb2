-- ===== src/Persist/Unpersist.antt =====
-- The way back into the memory of a request (`apc_unpersist` and its helpers), and the two ways
-- together as the interface that the cache takes.
use apcu.Prelude.{ℕ, suc, Bool, Option, none, some, List, [], ◌∷◌, ◌==◌, if◌then◌else◌}
use apcu.Prelude.Int.{pos}
use apcu.Cache.Types.{
  ZendString, Zval, undef, null_value, false_value, true_value, long, double, string, array, object,
  resource, reference, indirect, ptr, HashInfo, Buckets, end, bucket,
}
use apcu.Cache.Allocator.{Codec}
use apcu.Persist.Zend.{Zend, Serializer, is_undef}
use apcu.Persist.Copy.{find_ptr}
use apcu.Persist.Entry.{is_array, persist}

-- `apc_unpersist_context_t`. Offsets stand for `alloc` with the offset added, and `next_address` for
-- what `emalloc` returns next. As in the first direction, the tree of an address is put in the table
-- anew when it is complete.
pub record Unpersist : Type 0 where
  pub memoization_needed : Bool
  pub already_copied : List (ℕ × Zval)
  pub next_address : ℕ

unfoldable pub get_already_copied : Unpersist → ℕ → Option Zval
unfolding find_ptr
get_already_copied ctxt off =
    if ctxt.memoization_needed then find_ptr ctxt.already_copied off else none

unfoldable pub add_already_copied : ℕ → Zval → Unpersist → Unpersist
add_already_copied off v ctxt =
    if ctxt.memoization_needed
    then record ctxt { already_copied = (off, v) ∷ ctxt.already_copied }
    else ctxt

unfoldable pub emalloc : Unpersist → Unpersist
emalloc ctxt = record ctxt { next_address = suc ctxt.next_address }

unfoldable pub unpersist_zstr : ℕ → ZendString → Unpersist → Zval × Unpersist
unfolding add_already_copied emalloc
unpersist_zstr off s ctxt =
    let v = string ctxt.next_address s in (v, add_already_copied off v (emalloc ctxt))

-- `zend_string_dup` of a key
unfoldable pub dup_key : Option (ℕ × ZendString) → Unpersist → Option (ℕ × ZendString) × Unpersist
unfolding emalloc
dup_key none ctxt = (none, ctxt)
dup_key (some (off, k)) ctxt = (some (ctxt.next_address, k), emalloc ctxt)

-- `apc_unpersist_ht`, where `copy` is the loop over the values
unfoldable pub unpersist_ht :
    ℕ → HashInfo → (Unpersist → Buckets × Unpersist) → Unpersist → Zval × Unpersist
unfolding add_already_copied emalloc
unpersist_ht off info copy ctxt =
    let r = copy (add_already_copied off (array ctxt.next_address info end) (emalloc ctxt)) in
    let v = array ctxt.next_address info r.0 in (v, add_already_copied off v r.1)

-- the start of `apc_unpersist_zval_impl`
unfoldable pub unpersisted_once : Unpersist → ℕ → (Unpersist → Zval × Unpersist) → Zval × Unpersist
unfolding get_already_copied
unpersisted_once ctxt off copy = elim (get_already_copied ctxt off) [
  | none ↦ copy ctxt
  | some v ↦ (v, ctxt)
]

module _ (zend : Zend) where
  -- a key that is copied as it is: what was an offset is now taken for an address
  unfoldable pub stray_key : Option (ℕ × ZendString) → Option (ℕ × ZendString)
  stray_key none = none
  stray_key (some (off, k)) = some (off, zend.stray off)

  unfoldable mutual
    unfolding stray_key

    pub unpersist_zval : Zval → Unpersist → Zval × Unpersist
    unpersist_zval undef ctxt = (undef, ctxt)
    unpersist_zval null_value ctxt = (null_value, ctxt)
    unpersist_zval false_value ctxt = (false_value, ctxt)
    unpersist_zval true_value ctxt = (true_value, ctxt)
    unpersist_zval (long n) ctxt = (long n, ctxt)
    unpersist_zval (double bits) ctxt = (double bits, ctxt)
    unpersist_zval (string off s) ctxt = unpersisted_once ctxt off (unpersist_zstr off s)
    unpersist_zval (reference off z) ctxt = unpersisted_once ctxt off (λ c.
        let r =
          unpersist_zval z (add_already_copied off (reference c.next_address undef) (emalloc c)) in
        let v = reference c.next_address r.0 in (v, add_already_copied off v r.1))
    unpersist_zval (array off info bs) ctxt = unpersisted_once ctxt off (λ c.
        if off == 0
        then (zend.empty_array, c)
        else unpersist_ht off info
            (if info.packed
              then unpersist_values bs
              else if info.static_keys
              then unpersist_static bs
              else unpersist_buckets bs)
            c)
    unpersist_zval (object off) ctxt = (object off, ctxt)
    unpersist_zval (resource off) ctxt = (resource off, ctxt)
    unpersist_zval (indirect off) ctxt = (indirect off, ctxt)
    unpersist_zval (ptr off s) ctxt = (ptr off s, ctxt)

    -- the loop over a packed array, whose elements have no keys
    pub unpersist_values : Buckets → Unpersist → Buckets × Unpersist
    unpersist_values end ctxt = (end, ctxt)
    unpersist_values (bucket h key z bs) ctxt =
        let r = unpersist_zval z ctxt in
        let rest = unpersist_values bs r.1 in (bucket h key r.0 rest.0, rest.1)

    -- the loop over one with the flag of static keys: nothing is done about the keys
    pub unpersist_static : Buckets → Unpersist → Buckets × Unpersist
    unpersist_static end ctxt = (end, ctxt)
    unpersist_static (bucket h key z bs) ctxt =
        let r = unpersist_zval z ctxt in
        let rest = unpersist_static bs r.1 in (bucket h (stray_key key) r.0 rest.0, rest.1)

    -- the loop over one with keys; nothing but the type is written for a hole
    pub unpersist_buckets : Buckets → Unpersist → Buckets × Unpersist
    unpersist_buckets end ctxt = (end, ctxt)
    unpersist_buckets (bucket h key z bs) ctxt =
        let k = dup_key key ctxt in
        let r = unpersist_zval z k.1 in
        let rest = unpersist_buckets bs (if is_undef z then ctxt else r.1) in
        (if is_undef z then bucket (pos 0) none undef rest.0 else bucket h k.0 r.0 rest.0, rest.1)

  module _ (serializer : Option Serializer) where
    unfoldable pub unpersist_serialized : ZendString → Option Zval
    unpersist_serialized s = elim serializer [
      | none ↦ zend.php.unserialize s.val
      | some own ↦ own.unserialize s.val
    ]

    -- `none` where the function returns 0; the result is the null value then
    unfoldable pub unpersist : Zval → Option Zval
    unpersist (ptr off s) = unpersist_serialized s
    unpersist z =
        some
          (unpersist_zval z
            (record { memoization_needed = is_array z; already_copied = []; next_address = 1 })).0

    unfoldable pub apc_codec : Codec
    apc_codec = record { persist = persist zend serializer; unpersist = unpersist }

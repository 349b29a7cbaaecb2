-- ===== src/Persist/Zend.antt =====
-- What apc_persist.c uses of PHP, and `apc_shr3`.
use apcu.Prelude.{
  ℕ, suc, ◌+◌, ◌*◌, ◌/◌, ◌%◌, ◌^◌, ◌<◌, ◌≡◌, Bool, true, false, Option, List, arith, if◌then◌else◌,
}
use apcu.Cache.Types.{ZendString, Zval, undef, indirect, HashInfo, Buckets, end, bucket}

-- `apc_serializer_t`: its two functions, which may fail
pub record Serializer : Type 0 where
  pub serialize : Zval → Option (List ℕ)
  pub unserialize : List ℕ → Option Zval

-- The sizes of structs, `ZEND_MM_ALIGNED_SIZE`, `_ZSTR_STRUCT_SIZE`, `APC_ENTRY_SIZE` (of the length
-- of a key), `HT_USED_SIZE` and `HT_PACKED_USED_SIZE` (of the mask and the number of buckets), the
-- hash of a string, the value of `ZVAL_EMPTY_ARRAY`, and PHP's own serializer. `stray` is the string
-- that a read finds where an offset is taken for an address.
pub record Zend : Type 0 where
  pub aligned_size : ℕ → ℕ
  pub zstr_struct_size : ℕ → ℕ
  pub entry_size : ℕ → ℕ
  pub sizeof_hash_table : ℕ
  pub sizeof_reference : ℕ
  pub ht_used_size : ℕ → ℕ → ℕ
  pub ht_packed_used_size : ℕ → ℕ → ℕ
  pub hash_val : List ℕ → ℕ
  pub empty_array : Zval
  pub stray : ℕ → ZendString
  pub php : Serializer

-- `Z_TYPE(val) == IS_UNDEF`, `IS_INDIRECT`
unfoldable pub is_undef : Zval → Bool
is_undef undef = true
is_undef _ = false

unfoldable pub is_indirect : Zval → Bool
is_indirect (indirect p) = true
is_indirect _ = false

-- `nNumUsed`, `nNumOfElements`
unfoldable pub num_used : Buckets → ℕ
num_used end = 0
num_used (bucket h key z bs) = suc (num_used bs)

unfoldable pub num_of_elements : Buckets → ℕ
unfolding is_undef
num_of_elements end = 0
num_of_elements (bucket h key z bs) =
    if is_undef z then num_of_elements bs else suc (num_of_elements bs)

-- the size of the data of a table, `HT_PACKED_USED_SIZE` or `HT_USED_SIZE`
unfoldable pub ht_data_size : Zend → HashInfo → Buckets → ℕ
ht_data_size zend info bs =
    if info.packed
    then zend.ht_packed_used_size info.table_mask (num_used bs)
    else zend.ht_used_size info.table_mask (num_used bs)

-- `apc_shr3` on 64 bits: the three low bits are rotated to the top
apc_shr3 : ℕ → ℕ
apc_shr3 index = index / 8 + index * 2 ^ 61 % 2 ^ 64

-- Addresses that differ have different keys in the tables of `apc_persist_calc_memoize`.
apc_shr3-injective : (i j : ℕ) → i < 2 ^ 64 → j < 2 ^ 64 → apc_shr3 i ≡ apc_shr3 j → i ≡ j
unfolding apc_shr3
apc_shr3-injective i j hi hj e = omega (arith, e)

-- ===== src/Iterator/Types.antt =====
-- The iterator's state, its search, and the items that it makes of entries (apc_iterator.h,
-- apc_iterator.c), with `apc_flip_hash` (apc.c).
use apcu.Prelude.{
  ℕ, ◌/◌, ◌%◌, ◌^◌, Bool, true, false, Option, none, some, List, [], ◌∷◌, ◌&&◌, ◌||◌, not, ◌==◌,
  if◌then◌else◌, ◌++◌,
}
use apcu.Prelude.Int.{ℤ, pos, ◌-ℤ◌}
use apcu.Stack.{Stack}
use apcu.Cache.Types.{ZendString, memcmp_eq, Zval, null_value, long, string, reference, Entry}
use apcu.Cache.Entry.{hard_expired}

-- What the iterator uses of PHP: the hash of a string, the regular expressions, which may fail to
-- compile, and what `Z_LVAL` reads from a value.
pub record Engine : Type 0 where
  pub hash_val : List ℕ → ℕ
  pub compile : List ℕ → Option (ZendString → Bool)
  pub lval : Zval → ℤ

-- a key of a hash table
pub data HashKey : Type 0 where
  name : ZendString → HashKey
  index : ℤ → HashKey

-- `ZVAL_DEREF`
unfoldable pub deref : Zval → Zval
deref (reference p z) = z
deref z = z

-- the key that `apc_flip_hash` makes of a value
flip_key : Engine → Zval → HashKey
flip_key engine (string p s) = name (record { h = engine.hash_val s.val; val = s.val })
flip_key engine z = index (engine.lval z)

unfoldable pub flip_hash : Engine → List Zval → List HashKey
unfolding deref flip_key
flip_hash engine [] = []
flip_hash engine (z ∷ zs) = flip_key engine (deref z) ∷ flip_hash engine zs

-- `zend_hash_exists`
hash_exists : List HashKey → ZendString → Bool
unfolding memcmp_eq
hash_exists [] key = false
hash_exists (name k ∷ ks) key = (k.h == key.h && memcmp_eq k.val key.val) || hash_exists ks key
hash_exists (index n ∷ ks) key = hash_exists ks key

-- the columns of an item's array
pub data Column : Type 0 where
  type_column key_column value_column num_hits_column mtime_column creation_time_column : Column
  deletion_time_column access_time_column ref_count_column mem_size_column ttl_column : Column

-- `apc_iterator_item_t`
pub record Item : Type 0 where
  pub key : ZendString
  pub value : List (Column × Zval)

-- the `fetch` callback, which `APC_LIST_ACTIVE` or `APC_LIST_DELETED` chooses
pub data Fetch : Type 0 where
  fetch_active fetch_deleted : Fetch

-- `apc_iterator_t`. `regex` is the compiled expression. A pinned entry is named by its address.
pub record Iterator : Type 0 where
  pub initialized : Bool
  pub format : ℕ
  pub fetch : Fetch
  pub slot_idx : ℕ
  pub chunk_size : ℕ
  pub stack : Stack Item
  pub entries : Stack ℕ
  pub stack_idx : ℕ
  pub regex : Option (ZendString → Bool)
  pub search_hash : Option (List HashKey)
  pub key_idx : ℕ
  pub totals_flag : Bool
  pub hits : ℕ
  pub size : ℕ
  pub count : ℕ

-- bit `k` of the format
wants : ℕ → ℕ → Bool
wants format k = format / 2 ^ k % 2 == 1

column_if : Bool → Column → Zval → List (Column × Zval)
column_if b c z = if b then (c, z) ∷ [] else []

-- The strings of an item have addresses of their own, which nothing compares. `unpersisted` is what `apc_cache_entry_fetch_zval` makes of a value, if it can.
unfoldable pub item_ctor : (Zval → Option Zval) → ℕ → Entry → Item
unfolding wants column_if
item_ctor unpersisted format e = record {
  key = e.key;
  value =
      column_if (wants format 0) type_column
        (string 0 (record { h = 0; val = b'u' ∷ b's' ∷ b'e' ∷ b'r' ∷ [] }))
      ++ (column_if (wants format 1) key_column (string 0 e.key)
          ++ (column_if (wants format 2) value_column
                (elim (unpersisted e.val) [ none ↦ null_value | some z ↦ z ])
              ++ (column_if (wants format 3) num_hits_column (long (pos e.nhits))
                  ++ (column_if (wants format 4) mtime_column (long (pos e.mtime))
                      ++ (column_if (wants format 5) creation_time_column (long (pos e.ctime))
                          ++ (column_if (wants format 6) deletion_time_column (long (pos e.dtime))
                              ++ (column_if (wants format 7) access_time_column (long (pos e.atime))
                                  ++ (column_if (wants format 8) ref_count_column
                                        (long (e.ref_count -ℤ pos 1))
                                      ++ (column_if (wants format 9) mem_size_column
                                            (long (pos e.mem_size))
                                          ++ column_if (wants format 10) ttl_column
                                              (long e.ttl))))))))));
}

-- the keys decide, if there are any; else the expression does, if there is one
unfoldable pub search_match : Iterator → Entry → Bool
unfolding hash_exists
search_match it e =
    let by_regex : Bool = elim it.regex [ none ↦ true | some r ↦ r e.key ] in
    elim it.search_hash [ none ↦ by_regex | some keys ↦ hash_exists keys e.key ]

unfoldable pub check_expiry : Entry → ℕ → Bool
unfolding hard_expired
check_expiry e t = not (hard_expired e t)

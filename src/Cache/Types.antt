-- ===== src/Cache/Types.antt =====
-- Keys, values and entries (apc_cache.h, and `zend_string` and `zval` as far as the code reads
-- them).
use apcu.Prelude.{Option, ℕ, Bool, true, false, List, [], ◌∷◌, ◌&&◌, ◌==◌}
use apcu.Prelude.Int.{ℤ}

-- A string with the hash that `ZSTR_H` reads.
pub record ZendString : Type 0 where
  pub h : ℕ
  pub val : List ℕ

-- `memcmp` of two buffers of equal length is 0
unfoldable pub memcmp_eq : List ℕ → List ℕ → Bool
memcmp_eq [] [] = true
memcmp_eq (a ∷ as') (b ∷ bs) = a == b && memcmp_eq as' bs
memcmp_eq _ _ = false

-- What a `HashTable` holds besides its buckets. `internal_pointer` is `HT_INVALID_IDX` where it
-- points nowhere.
pub record HashInfo : Type 0 where
  pub packed : Bool
  pub table_mask : ℕ
  pub next_free : ℤ
  pub internal_pointer : ℕ
  pub static_keys : Bool

-- The values of PHP by the order of their type numbers. A value that PHP counts references to
-- carries its address `p`; a string is a key of a bucket with its address, too. `bits` of a
-- `double` are its pattern. An array that contains a reference to itself is not modelled.
mutual
  pub data Zval : Type 0 where
    undef : Zval
    null_value : Zval
    false_value : Zval
    true_value : Zval
    long : ℤ → Zval
    double : (bits : ℕ) → Zval
    string : (p : ℕ) → ZendString → Zval
    array : (p : ℕ) → HashInfo → Buckets → Zval
    object : (p : ℕ) → Zval
    resource : (p : ℕ) → Zval
    reference : (p : ℕ) → Zval → Zval
    indirect : (p : ℕ) → Zval
    ptr : (p : ℕ) → ZendString → Zval

  -- `arData`, or `arPacked` with the index in place of a hash
  pub data Buckets : Type 0 where
    end : Buckets
    bucket : (h : ℤ) → (key : Option (ℕ × ZendString)) → Zval → Buckets → Buckets

-- `Z_TYPE(val) < IS_STRING`
unfoldable pub is_simple : Zval → Bool
is_simple undef = true
is_simple null_value = true
is_simple false_value = true
is_simple true_value = true
is_simple (long n) = true
is_simple (double n) = true
is_simple _ = false

-- `apc_cache_entry_t`. `next` and `prev` are the entry's place in a list of the model; `addr` is
-- the entry's own address.
pub record Entry : Type 0 where
  pub addr : ℕ
  pub ttl : ℤ
  pub ref_count : ℤ
  pub nhits : ℕ
  pub ctime : ℕ
  pub mtime : ℕ
  pub dtime : ℕ
  pub atime : ℕ
  pub mem_size : ℕ
  pub val : Zval
  pub key : ZendString

-- `apc_cache_slam_key_t` of a build without threads
pub record SlamKey : Type 0 where
  pub hash : ℕ
  pub len : ℕ
  pub mtime : ℕ
  pub owner_pid : ℕ

abbrev pub no_slam_key : SlamKey
no_slam_key = record { hash = 0; len = 0; mtime = 0; owner_pid = 0 }

-- `apc_cache_header_t`; the lock is in `Env`
pub record Header : Type 0 where
  pub nhits : ℕ
  pub nmisses : ℕ
  pub ninserts : ℕ
  pub ncleanups : ℕ
  pub ndefragmentations : ℕ
  pub nexpunges : ℕ
  pub nentries : ℕ
  pub mem_size : ℕ
  pub stime : ℕ
  pub lastkey : SlamKey
  pub gc : List Entry

-- What one call takes from the system: the clock, the process, the nesting of `apcu_entry` calls
-- in this thread, and whether the system's locks are granted.
pub record Env : Type 0 where
  pub now : ℕ
  pub wall : ℕ
  pub pid : ℕ
  pub entry_level : ℕ
  pub wlock_granted : Bool
  pub rlock_granted : Bool

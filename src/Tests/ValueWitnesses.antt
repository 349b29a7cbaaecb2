-- ===== src/Tests/ValueWitnesses.antt =====
-- The theorems on values and on the functions of a script, at the cache of Tests/CacheRuns.antt.
use apcu.Prelude.{
  ℕ, ◌+◌, ◌*◌, ◌/◌, ◌≡◌, refl, true, false, none, some, List, [], ◌∷◌, ◌==◌, ◌>>=◌, if◌then◌else◌,
  ◌&&◌, arith,
}
use apcu.Prelude.Int.{pos}
use apcu.Cache.Types.{
  memcmp_eq, ZendString, Zval, long, object, string, array, reference, HashInfo, Buckets, end,
  bucket, Entry,
}
use apcu.Cache.Allocator.{Cache, Call, wlock}
use apcu.Cache.Entry.{ttl_over}
use apcu.Cache.Valid.{IsValid}
use apcu.Cache.Find.{find_nostat}
use apcu.Persist.Zend.{Serializer, Zend, num_of_elements, ht_data_size}
use apcu.Persist.Calc.{Calc, calc, contains}
use apcu.Persist.Entry.{first_context, measured, create_entry, copy_context, persist}
use apcu.Persist.Unpersist.{apc_codec, unpersist}
use apcu.Persist.Sync.{Agrees, AgreesIn}
use apcu.Persist.Bounds.{create_entry-fills}
use apcu.Persist.Content.{content, blank_info, Apart, ApartIn}
use apcu.Persist.Restored.{unpersist-array}
use apcu.Persist.Whole.{is_whole, restored, unpersist-persist}
use apcu.Iterator.Methods.{values}
use apcu.Php.{Php, listed, flag, apcu_delete, apc_store_helper}
use apcu.Php.Batch.{names, apcu_delete-array}
use apcu.Php.Stored.{apc_store_helper-restored}
use apcu.Cache.Store.{store}
use apcu.Cache.Entry.{hash_slot, key_equals}
use apcu.Persist.Calc.{calc_zval, counted_once, calc_memoize, calc_slot, add_key}
use apcu.Persist.Copy.{
  reset_info, settle, copy_zval, copied_once, copy_zstr, copy_zstr_no_add, copy_cstr, persist_alloc,
  add_already_allocated, get_already_allocated,
}
use apcu.Sma.Api.Instance.{sma_allocator}
use apcu.Serializers.{Place, register_serializer, find_serializer}
use apcu.Serializers.Registry.{IsPacked, has_room, register_serializer-find}
use apcu.Tests.SmaRuns.{platform}
use apcu.Tests.CacheRuns.{memory, allocator, key_a, key_b, cache, cache-IsValid, call}

abbrev zend : Zend
zend = record {
  aligned_size = λ n. (n + 7) / 8 * 8;
  zstr_struct_size = λ len. len + 25;
  entry_size = λ len. len + 121;
  sizeof_hash_table = 56;
  sizeof_reference = 32;
  ht_used_size = λ mask used. mask + used * 32;
  ht_packed_used_size = λ mask used. mask + used * 16;
  hash_val = λ s. 5;
  empty_array = array 0 blank_info end;
  stray = λ off. key_b;
  php = record { serialize = λ z. some (1 ∷ 2 ∷ []); unserialize = λ s. some (long (pos 4)) };
}

abbrev info : HashInfo
info = record {
  packed = false;
  table_mask = 8;
  next_free = pos 0;
  internal_pointer = 0;
  static_keys = false;
}

abbrev word : ZendString
word = record { h = 0; val = 120 ∷ 121 ∷ [] }

-- one string twice, once in a reference, and an empty array
abbrev parts : Buckets
parts =
    bucket (pos 4) (some (9, key_a)) (string 2 word) (
      bucket (pos 0) none (reference 3 (string 2 word))
        (bucket (pos 1) none (array 4 info end) end))

abbrev tree : Zval
tree = array 1 info parts

abbrev at : ℕ → Zval
at p =
    if p == 1
    then tree
    else if p == 2
    then string 2 word
    else if p == 3
    then reference 3 (string 2 word)
    else array 4 info end

counted : Calc
counted = elim (measured zend none key_a tree) [
  | none ↦ record {
    size = 0;
    memoization_needed = false;
    use_serialization = false;
    serialized_str = none;
    already_counted = [];
  }
  | some c ↦ c
]

create_entry-fills_example :
    (create_entry zend key_a tree (copy_context counted)).1.alloc_cur ≡ counted.size
unfolding counted Agrees AgreesIn measured calc_zval counted_once num_of_elements calc_slot add_key
    ht_data_size reset_info settle
create_entry-fills_example =
    create_entry-fills zend none at key_a tree counted
      (refl, (refl, ((refl, refl), ((refl, tt), tt)))) refl

unpersist-array_example :
    (w : Zval) × (((apc_codec zend none).persist key_a tree >>= λ (r : ℕ × Zval).
    (apc_codec zend none).unpersist r.1)
      ≡ some w)
    × (content w ≡ content tree)
unfolding Agrees AgreesIn Apart ApartIn calc calc_zval content contains counted_once first_context
    num_of_elements calc_slot add_key
unpersist-array_example =
    unpersist-array zend at (λ n. omega arith) (omega arith) (omega arith) refl key_a 1 info parts
      (omega arith) (refl, (refl, ((refl, refl), ((refl, tt), tt))))
      (refl, (refl, ((refl, refl), ((refl, tt), tt)))) refl

unpersist-persist_example :
    ((apc_codec zend none).persist key_a (object 6) >>= λ (r : ℕ × Zval).
    (apc_codec zend none).unpersist r.1)
    ≡ restored zend none (object 6)
unfolding is_whole
unpersist-persist_example = unpersist-persist zend none key_a (object 6) refl

abbrev php : Php
php = record { to_string = λ z. key_b; long_to_str = λ n. key_b; iterator_of = λ p. none }

abbrev keys : Buckets
keys =
    bucket (pos 0) none (reference 3 (string 2 key_a))
      (bucket (pos 1) none (long (pos 7)) (bucket (pos 2) none (string 2 key_a) end))

apcu_delete-array_example :
    (failed : List Zval) × (c : Cache allocator) × (apcu_delete php 0 call (array 1 info keys) cache
      ≡ some (listed failed, c))
    × IsValid c
    × ((k : ZendString) (t : ℕ)
        → find_nostat c k t ≡ (if names (values keys) k then none else find_nostat cache k t))
unfolding wlock
apcu_delete-array_example = apcu_delete-array php 0 call 1 info keys cache refl cache-IsValid

abbrev storing : Call allocator
storing = record call { codec = apc_codec zend none }

stored : Cache allocator
unfolding apc_store_helper store memory sma_allocator platform apc_codec persist
stored =
    elim (apc_store_helper php storing (string 1 key_a) (some (string 2 word)) (pos 9) false
      cache) [ none ↦ cache | some (answer, c) ↦ c ]

stored_runs :
    apc_store_helper php storing (string 1 key_a) (some (string 2 word)) (pos 9) false cache
    ≡ some (flag true, stored)
unfolding stored wlock hash_slot key_equals measured calc_zval counted_once calc_memoize
    create_entry copy_zval copied_once copy_zstr copy_zstr_no_add copy_cstr persist_alloc
    add_already_allocated get_already_allocated
stored_runs = refl

apc_store_helper-restored_example :
    (e : Entry) × (find_nostat stored key_a 105 ≡ some e)
    × (unpersist zend none e.val ≡ restored zend none (string 2 word))
unfolding ttl_over is_whole persist calc_zval counted_once copied_once copy_zstr
apc_store_helper-restored_example =
    apc_store_helper-restored zend none php storing cache stored 1 key_a (string 2 word)
      (string 128 (record { h = 5; val = word.val })) 160 (pos 9) false 105 refl (λ c v. v)
      cache-IsValid refl refl stored_runs refl

-- the serializer of PHP is registered, and another one after it
abbrev one : List Place
one = some (112 ∷ [], zend.php) ∷ none ∷ []

abbrev other : Serializer
other = record { serialize = λ z. none; unserialize = λ s. none }

register_serializer-find_example :
    ((register_serializer (105 ∷ []) other one).0 ≡ has_room one)
    × IsPacked (register_serializer (105 ∷ []) other one).1
    × ((k : List ℕ)
        → find_serializer (register_serializer (105 ∷ []) other one).1 k
          ≡ elim (find_serializer one k) [
            | some t ↦ some t
            | none ↦ if has_room one && memcmp_eq (105 ∷ []) k then some other else none
          ])
unfolding IsPacked
register_serializer-find_example = register_serializer-find (105 ∷ []) other one tt

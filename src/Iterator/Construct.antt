-- ===== src/Iterator/Construct.antt =====
-- Which arguments the construction of an iterator takes.
use apcu.Prelude.{
  ℕ, ◌≡◌, refl, Bool, true, false, Option, none, some, not, ltb, ◌==◌, ◌&&◌, if◌then◌else◌,
  Bool-cases, inl, inr, arith, Option-cases, length, is_some, ◌<◌,
}
use apcu.Stack.Refines.{IsStack, create-IsStack}
use apcu.Cache.Types.{
  Zval, undef, null_value, false_value, true_value, long, double, string, array, object, resource,
  reference, indirect, ptr,
}
use apcu.Iterator.Types.{Iterator, Engine}
use apcu.Iterator.Methods.{
  Construction, ready, iter_all, default_chunk_size, fetch_of_list, with_search,
  apc_iterator_obj_init,
}

-- the outcome tells an iterator apart
pub is_ready : Construction → Bool
is_ready (ready it) = true
is_ready c = false

-- an expression that does not compile
pub bad_search : Engine → Option Zval → Bool
bad_search engine none = false
bad_search engine (some (string p s)) =
    not (length s.val == 0) && not (is_some (engine.compile s.val))
bad_search engine (some z) = false

-- An iterator that a fetch can start from, with the first slot ahead and room for a chunk.
IsPrepared : Iterator → Type 0
IsPrepared it =
    (it.initialized ≡ true)
    × (it.slot_idx ≡ 0)
    × (0 < it.chunk_size)
    × IsStack it.stack
    × IsStack it.entries
    × (it.entries.size ≡ 0)

pub Sound : Construction → Type 0
unfolding IsPrepared
Sound (ready it) = IsPrepared it
Sound c = Unit {0}

-- the outcome is an iterator exactly if `b`, and then a good one
Ends : Bool → Construction → Type 0
Ends b c = (is_ready c ≡ b) × Sound c

with_search-Ends :
    (engine : Engine) (search : Option Zval) (it : Iterator)
    → IsPrepared it
    → Ends (not (bad_search engine search)) (with_search engine search it)
unfolding Ends Sound IsPrepared with_search bad_search is_ready
with_search-Ends engine none it h = (refl, h)
with_search-Ends engine (some (string p s)) it h = elim (Bool-cases (length s.val == 0)) [
  | inl e ↦ rw e (refl, h)
  | inr e ↦ elim (Option-cases (engine.compile s.val)) [
    | inl f ↦ rw (e, f) (refl, tt)
    | inr (r, f) ↦ rw (e, f) (refl, h)
  ]
]
with_search-Ends engine (some undef) it h = (refl, h)
with_search-Ends engine (some null_value) it h = (refl, h)
with_search-Ends engine (some false_value) it h = (refl, h)
with_search-Ends engine (some true_value) it h = (refl, h)
with_search-Ends engine (some (long n)) it h = (refl, h)
with_search-Ends engine (some (double n)) it h = (refl, h)
with_search-Ends engine (some (array p info bs)) it h = (refl, h)
with_search-Ends engine (some (object p)) it h = (refl, h)
with_search-Ends engine (some (resource p)) it h = (refl, h)
with_search-Ends engine (some (reference p z)) it h = (refl, h)
with_search-Ends engine (some (indirect p)) it h = (refl, h)
with_search-Ends engine (some (ptr p s)) it h = (refl, h)

positive : (n : ℕ) → 0 < (if n == 0 then default_chunk_size else n)
positive n = ground arith

-- The construction gives an iterator exactly if the cache is enabled, the format is at most
-- `iter_all`, the list is one of the two and an expression to search for, if there is one that is
-- not empty, compiles. The iterator is then set up, at the first slot, with a positive chunk size
-- and well-formed stacks, that of the entries empty.
pub apc_iterator_obj_init-ready :
    (engine : Engine) (enabled : Bool) (search : Option Zval) (format chunk_size list : ℕ)
    → (is_ready (apc_iterator_obj_init engine enabled search format chunk_size list) ≡ (
        enabled
        && (not (ltb iter_all format)
            && (is_some (fetch_of_list list) && not (bad_search engine search)))))
      × Sound (apc_iterator_obj_init engine enabled search format chunk_size list)
unfolding apc_iterator_obj_init Ends is_ready Sound IsPrepared
apc_iterator_obj_init-ready engine false search format chunk_size list = (refl, tt)
apc_iterator_obj_init-ready engine true search format chunk_size list =
    elim (Bool-cases (ltb iter_all format)) [
      | inl wide ↦ rw wide (refl, tt)
      | inr fits ↦ elim (Option-cases (fetch_of_list list)) [
        | inl f ↦ rw (fits, f) (refl, tt)
        | inr (fetch, f) ↦
            rw (fits, f)
              (with_search-Ends engine search _ (
                refl,
                refl,
                positive chunk_size,
                (create-IsStack (if chunk_size == 0 then default_chunk_size else chunk_size)).0,
                (create-IsStack (if chunk_size == 0 then default_chunk_size else chunk_size)).0,
                refl,
              ))
      ]
    ]

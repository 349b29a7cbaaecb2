-- ===== src/Iterator/Methods.antt =====
-- The methods of `APCUIterator`, and `apc_iterator_delete` (apc_iterator.c). Where a method tells a
-- number or a Boolean apart from an exception, `none` inside is the exception.
use apcu.Prelude.{
  ℕ, zero, suc, ◌+◌, Bool, true, false, Option, none, some, List, [], ◌∷◌, not, ltb, ◌==◌,
  if◌then◌else◌, ◌>>=◌, length,
}
use apcu.Prelude.Int.{ℤ, pos, negsuc}
use apcu.Stack.{create, get, size_of}
use apcu.Cache.Types.{ZendString, Zval, undef, string, array, Buckets, end, bucket}
use apcu.Cache.Allocator.{Allocator, Cache, Call}
use apcu.Cache.Delete.{delete}
use apcu.Iterator.Types.{
  Engine, Iterator, Item, Column, Fetch, fetch_active, fetch_deleted, flip_hash,
}
use apcu.Iterator.Fetch.{fetch_next, drain, apc_iterator_totals}

-- `APC_ITER_ALL`, `APC_DEFAULT_CHUNK_SIZE`
abbrev pub iter_all : ℕ
iter_all = 4294967295

abbrev pub default_chunk_size : ℕ
default_chunk_size = 100

-- `apc_iterator_create`: the fields that it leaves unset hold nothing yet
apc_iterator_create : Iterator
unfolding create
apc_iterator_create = record {
  initialized = false;
  format = 0;
  fetch = fetch_active;
  slot_idx = 0;
  chunk_size = 0;
  stack = record { cells = []; capacity = 0; size = 0 };
  entries = record { cells = []; capacity = 0; size = 0 };
  stack_idx = 0;
  regex = none;
  search_hash = none;
  key_idx = 0;
  totals_flag = false;
  hits = 0;
  size = 0;
  count = 0;
}

-- how the construction ends
pub data Construction : Type 0 where
  thrown : Construction
  fatal : Construction
  refused : Construction
  ready : Iterator → Construction

-- `APC_LIST_ACTIVE` is 1, `APC_LIST_DELETED` is 2
pub fetch_of_list : ℕ → Option Fetch
fetch_of_list list =
    if list == 1 then some fetch_active else if list == 2 then some fetch_deleted else none

-- The values of an array. `ZEND_HASH_FOREACH_VAL` passes over those that are undefined.
unfoldable pub values : Buckets → List Zval
values end = []
values (bucket h key undef zs) = values zs
values (bucket h key z zs) = z ∷ values zs

-- The iterator with its search. An expression that does not compile is a fatal error.
unfoldable pub with_search : Engine → Option Zval → Iterator → Construction
unfolding flip_hash values
with_search engine none it = ready it
with_search engine (some (string p s)) it =
    if length s.val == 0 then ready it else elim (engine.compile s.val) [
      | none ↦ fatal
      | some r ↦ ready (record it { regex = some r })
    ]
with_search engine (some (array p info zs)) it =
    ready (record it { search_hash = some (flip_hash engine (values zs)) })
with_search engine (some z) it = ready it

unfoldable pub apc_iterator_obj_init :
    Engine → (enabled : Bool) → Option Zval → (format chunk_size list : ℕ) → Construction
unfolding fetch_of_list with_search apc_iterator_create create
apc_iterator_obj_init engine enabled search format chunk_size list =
    let it = apc_iterator_create in
    let chunk = if chunk_size == 0 then default_chunk_size else chunk_size in
    if not enabled
    then thrown
    else if ltb iter_all format
    then fatal
    else elim (fetch_of_list list) [
      | none ↦ refused
      | some f ↦ with_search engine search (record it {
        initialized = true;
        format = format;
        fetch = f;
        slot_idx = 0;
        stack_idx = 0;
        key_idx = 0;
        chunk_size = chunk;
        stack = create chunk;
        entries = create chunk;
        totals_flag = false;
        count = 0;
        size = 0;
        hits = 0;
        regex = none;
        search_hash = none;
      })
    ]

-- the constructor of the class
unfoldable construct :
    Engine
    → (enabled : Bool) → Option Zval
    → (format : ℕ) → (chunk_size : ℤ) → (list : ℕ) → Construction
unfolding apc_iterator_obj_init
construct engine enabled search format (pos n) list =
    apc_iterator_obj_init engine enabled search format n list
construct engine enabled search format (negsuc n) list = fatal

module _ ⦃a : Allocator⦄ where
  -- what a method leaves: its answer, the iterator and the cache; `none` is a fault
  abbrev Result : Type 0 → Type 0
  Result A = Option (Option A × Iterator × Cache a)

  unfoldable rewind : Call a → Iterator → Cache a → Result ℕ
  rewind call it c =
      if not it.initialized
      then some (none, it, c)
      else fetch_next call (record it { slot_idx = 0; stack_idx = 0; key_idx = 0 }) c >>= λ r.
          some (some r.0, r.1, r.2)

  -- the fetch with which `valid`, `current` and `key` begin, if all items were passed
  unfoldable pub refill : Call a → Iterator → Cache a → Option (Option ℕ × Iterator × Cache a)
  refill call it c =
      if size_of it.stack == it.stack_idx
      then (fetch_next call it c >>= λ r. some (some r.0, r.1, r.2))
      else some (none, it, c)

  unfoldable pub valid : Call a → Iterator → Cache a → Result Bool
  valid call it c =
      if not it.initialized
      then some (none, it, c)
      else refill call it c >>= λ r. some (some (not (size_of r.1.stack == 0)), r.1, r.2)

  -- the item at the iterator's place; a fetch that finds nothing ends in an exception
  item_here : Call a → Iterator → Cache a → Result Item
  unfolding refill get
  item_here call it c =
      if not it.initialized
      then some (none, it, c)
      else refill call it c >>= λ r. elim r.0 [
        | some zero ↦ some (none, r.1, r.2)
        | _ ↦ get r.1.stack r.1.stack_idx >>= λ i. some (some i, r.1, r.2)
      ]

  -- an item has a key always
  unfoldable current : Call a → Iterator → Cache a → Result (List (Column × Zval))
  unfolding item_here
  current call it c = item_here call it c >>= λ r. elim r.0 [
    | none ↦ some (none, r.1, r.2)
    | some i ↦ some (some i.value, r.1, r.2)
  ]

  unfoldable key : Call a → Iterator → Cache a → Result ZendString
  unfolding item_here
  key call it c = item_here call it c >>= λ r. elim r.0 [
    | none ↦ some (none, r.1, r.2)
    | some i ↦ some (some i.key, r.1, r.2)
  ]

  -- `none` is the exception
  unfoldable next : Iterator → Option Iterator
  unfolding size_of
  next it =
      if not it.initialized
      then none
      else if size_of it.stack == 0
      then some it
      else some (record it { stack_idx = it.stack_idx + 1; key_idx = it.key_idx + 1 })

  -- `getTotalHits`, `getTotalSize` and `getTotalCount` begin so; they give a field of the result.
  unfoldable with_totals : Call a → Iterator → Cache a → Option Iterator
  unfolding apc_iterator_totals
  with_totals call it c =
      if not it.initialized
      then none
      else if it.totals_flag
      then some it
      else some (apc_iterator_totals call it c)

  -- the loop over the items that were fetched
  unfoldable pub delete_items :
      Call a → (left : ℕ) → Iterator → Cache a → Option (Iterator × Cache a)
  unfolding get size_of delete
  delete_items call zero it c = some (it, c)
  delete_items call (suc left) it c =
      let rest = get it.stack it.stack_idx >>= λ i.
      delete_items call left (record it { stack_idx = it.stack_idx + 1 })
        (delete call.env c i.key).1 in
      if ltb it.stack_idx (size_of it.stack) then rest else some (it, c)

  -- The loop of fetches takes fuel; `none` is a fault, or a loop that has not ended.
  delete_fetched : ℕ → Call a → Iterator → Cache a → Option (Iterator × Cache a)
  delete_fetched zero call it c = none
  delete_fetched (suc fuel) call it c = fetch_next call it c >>= λ r. elim r.0 [
    | zero ↦ some (r.1, r.2)
    | suc n ↦
        delete_items call (size_of r.1.stack) r.1 r.2 >>= λ s. delete_fetched fuel call s.0 s.1
  ]

  -- The answer is whether the object is an iterator that was set up.
  unfoldable pub apc_iterator_delete :
      ℕ → Call a → Iterator → Cache a → Option (Bool × Iterator × Cache a)
  unfolding delete_fetched
  apc_iterator_delete fuel call it c =
      if not it.initialized
      then some (false, it, c)
      else delete_fetched fuel call it c >>= λ r. some (true, r.0, r.1)

  -- `apc_iterator_free`: the items are dropped, and the iterator is no longer set up
  unfoldable apc_iterator_free : Iterator → Option Iterator
  unfolding drain size_of
  apc_iterator_free it =
      if not it.initialized
      then some it
      else drain (size_of it.stack) it.stack >>= λ s.
          some (record it { stack = s; regex = none; search_hash = none; initialized = false })

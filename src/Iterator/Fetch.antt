-- ===== src/Iterator/Fetch.antt =====
-- `apc_iterator_fetch_active`, `apc_iterator_fetch_deleted` and `apc_iterator_totals`
-- (apc_iterator.c). `none` is a fault: a pinned entry that is gone, or a failed assertion. A
-- bailout of the engine in between is not modelled.
use apcu.Prelude.{
  ℕ, zero, suc, ◌+◌, true, Option, some, List, [], ◌∷◌, ◌&&◌, ltb, leb, if◌then◌else◌, ◌>>=◌, drop,
}
use apcu.Stack.{Stack, push, pop, get, size_of}
use apcu.Cache.Types.{Entry}
use apcu.Cache.Allocator.{Allocator, Cache, Call, Codec, rlock}
use apcu.Cache.Entry.{entry_incref, entry_release}
use apcu.Cache.Expunge.{entry_in}
use apcu.Iterator.Types.{
  Iterator, Item, fetch_active, fetch_deleted, item_ctor, search_match, check_expiry,
}

-- the loop that empties a stack of items
unfoldable pub drain {ℓ} : {A : Type ℓ} → ℕ → Stack A → Option (Stack A)
drain zero s = some s
drain (suc n) s =
    let rest = pop s >>= λ r. drain n r.1 in if ltb 0 (size_of s) then rest else some s

-- an entry of the table that the totals count
unfoldable pub add_totals : Iterator → Entry → Iterator
add_totals it e = record it {
  size = it.size + e.mem_size;
  hits = it.hits + e.nhits;
  count = it.count + 1;
}

unfoldable pub totals_slot : ℕ → Iterator → List Entry → Iterator
unfolding add_totals check_expiry search_match
totals_slot t it [] = it
totals_slot t it (e ∷ es) =
    totals_slot t (if check_expiry e t && search_match it e then add_totals it e else it) es

unfoldable pub totals_slots : ℕ → Iterator → List (List Entry) → Iterator
unfolding totals_slot
totals_slots t it [] = it
totals_slots t it (es ∷ ss) = totals_slots t (totals_slot t it es) ss

module _ ⦃a : Allocator⦄ where
  -- what a walk under the lock has gathered
  pub record Gather : Type 0 where
    pub count : ℕ
    pub entries : Stack ℕ
    pub cache : Cache a

  -- the entry is pushed and pinned
  unfoldable pub pin : Gather → Entry → Gather
  unfolding entry_incref
  pin g e = record {
    count = g.count + 1;
    entries = push g.entries e.addr;
    cache = entry_incref g.cache e.addr;
  }

  unfoldable pub gather_slot : Iterator → ℕ → Gather → List Entry → Gather
  unfolding pin check_expiry search_match
  gather_slot it t g [] = g
  gather_slot it t g (e ∷ es) =
      gather_slot it t (if check_expiry e t && search_match it e then pin g e else g) es

  -- The walk along the slots from `slot_idx` on, with the number of the slot that it stops at. A
  -- reference count is all that a pin changes, and the walk does not read it.
  unfoldable pub gather_slots : Iterator → ℕ → ℕ → Gather → List (List Entry) → ℕ × Gather
  unfolding gather_slot
  gather_slots it t slot_idx g [] = (slot_idx, g)
  gather_slots it t slot_idx g (es ∷ ss) =
      let rest = gather_slots it t (slot_idx + 1) (gather_slot it t g es) ss in
      if leb g.count it.chunk_size then rest else (slot_idx, g)

  -- The items of the pinned entries from number `i` on, built with the lock released.
  unfoldable pub build_items :
      Iterator → Codec → Cache a → Stack ℕ → ℕ → (left : ℕ) → Stack Item → Option (Stack Item)
  unfolding item_ctor
  build_items it codec c entries i zero stack = some stack
  build_items it codec c entries i (suc left) stack = get entries i >>= λ addr.
      entry_in addr (c.header.gc ∷ c.slots) >>= λ e.
      build_items it codec c entries (i + 1) left
        (push stack (item_ctor codec.unpersist it.format e))

  -- the loop that pops the pinned entries and drops their references
  unfoldable pub release_all : ℕ → Stack ℕ → Cache a → Option (Stack ℕ × Cache a)
  unfolding entry_release
  release_all zero s c = some (s, c)
  release_all (suc n) s c =
      let rest = pop s >>= λ r. release_all n r.1 (entry_release c r.0) in
      if ltb 0 (size_of s) then rest else some (s, c)

  -- what follows the walk under the lock, with other processes in between
  unfoldable pub finish_fetch : Call a → Iterator → Gather → Option (ℕ × Iterator × Cache a)
  finish_fetch call it g =
      let later = call.meanwhile g.cache in
      build_items it call.codec later g.entries 0 (size_of g.entries) it.stack >>= λ items.
      release_all (size_of g.entries) g.entries later >>= λ r.
      some (g.count, record it { stack = items; entries = r.0 }, r.1)

  unfoldable pub apc_iterator_fetch_active :
      Call a → Iterator → Cache a → Option (ℕ × Iterator × Cache a)
  apc_iterator_fetch_active call it c = drain (size_of it.stack) it.stack >>= λ empty.
      let it' = record it { stack = empty } in
      let start : Gather = record { count = 0; entries = it.entries; cache = c } in
      let r = gather_slots it' call.env.now it.slot_idx start (drop it.slot_idx c.slots) in
      let done = finish_fetch call (record it' { slot_idx = r.0; stack_idx = 0 }) r.1 in
      if rlock call.env then done else some (0, it', c)

  -- The walk to the place in the list of removed entries: what is left of the list, after one entry
  -- for each round in which the count does not exceed `slot_idx`.
  unfoldable pub skip : ℕ → ℕ → List Entry → List Entry
  skip slot_idx count [] = []
  skip slot_idx count (e ∷ es) =
      let rest = skip slot_idx (count + 1) es in if leb count slot_idx then rest else e ∷ es

  unfoldable pub gather_list : Iterator → Gather → List Entry → Gather
  unfolding pin search_match
  gather_list it g [] = g
  gather_list it g (e ∷ es) =
      let rest = gather_list it (if search_match it e then pin g e else g) es in
      if ltb g.count it.chunk_size then rest else g

  unfoldable pub apc_iterator_fetch_deleted :
      Call a → Iterator → Cache a → Option (ℕ × Iterator × Cache a)
  apc_iterator_fetch_deleted call it c =
      let start : Gather = record { count = 0; entries = it.entries; cache = c } in
      let g = gather_list it start (skip it.slot_idx 0 c.header.gc) in
      let done =
        finish_fetch call (record it { slot_idx = it.slot_idx + g.count; stack_idx = 0 }) g in
      if rlock call.env then done else some (0, it, c)

  -- the call through `iterator->fetch`
  unfoldable pub fetch_next : Call a → Iterator → Cache a → Option (ℕ × Iterator × Cache a)
  fetch_next call it c = elim it.fetch [
    | fetch_active ↦ apc_iterator_fetch_active call it c
    | fetch_deleted ↦ apc_iterator_fetch_deleted call it c
  ]

  unfoldable pub apc_iterator_totals : Call a → Iterator → Cache a → Iterator
  apc_iterator_totals call it c =
      let done = totals_slots call.env.now it c.slots in
      if rlock call.env then record done { totals_flag = true } else it

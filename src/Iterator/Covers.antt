-- ===== src/Iterator/Covers.antt =====
-- One fetch of the active entries: it takes the entries of the next slots, in order, gives back
-- every reference, and stops at the chunk's size or at the end of the table.
use apcu.Prelude.{
  ℕ, zero, suc, ◌+◌, ◌<◌, ◌≡◌, refl, sym, ap, ◌∙◌, true, some, List, [], ◌++◌, ◌⊎◌, arith, length,
  take, drop, ltb, inl, inr,
}
use mathlib.Core.Path.{subst}
use apcu.Stack.{Stack, size_of}
use apcu.Stack.Refines.{items, IsStack, pop-smaller, length-items, items-empty}
use apcu.Cache.Types.{Entry}
use apcu.Cache.Allocator.{Allocator, Cache, Call, rlock}
use apcu.Iterator.Types.{Iterator, Item}
use apcu.Iterator.Fetch.{Gather, drain, gather_slots, finish_fetch, apc_iterator_fetch_active}
use apcu.Iterator.Pins.{release_all-cancels}
use apcu.Iterator.Gather.{
  found_all, addrs, length-addrs, onto, bottom_first-onto, length-onto, Holding,
  gather_slots-Stopped, found_all-stack,
}
use apcu.Iterator.Items.{item_keys, entry_keys, ResolveAll, build_items-keys}

drain-empties {ℓ} :
    {A : Type ℓ} (n : ℕ) (s : Stack A)
    → IsStack s
    → n ≡ s.size
    → (s' : Stack A) × (drain n s ≡ some s') × IsStack s' × (s'.size ≡ 0)
unfolding drain size_of
drain-empties zero s h e = (s, refl, h, sym e)
drain-empties (suc n) s h e =
    let more : ltb 0 s.size ≡ true = ground arith in
    let (x, rest, popped, smaller, h') = pop-smaller s h (omega arith) in
    let (s', done, g, z) = drain-empties n rest h' (omega arith) in
    (s', rw (more, popped) done, g, z)

module _ ⦃a : Allocator⦄ where
  finish_fetch-covers :
      (call : Call a) (c : Cache a) (it : Iterator) (g : Gather) (es : List Entry)
      → ((d : Cache a) → call.meanwhile d ≡ d)
      → IsStack it.stack
      → it.stack.size ≡ 0
      → Holding c g (onto [] (addrs es))
      → ResolveAll c es
      → (st : Stack Item) × (en : Stack ℕ) × (finish_fetch call it g
          ≡ some (length es, record it { stack = st; entries = en }, c))
        × (item_keys (items st) ≡ entry_keys es)
        × IsStack st
        × IsStack en
        × (en.size ≡ 0)
  unfolding finish_fetch size_of
  finish_fetch-covers call c it g es alone ws empty h resolves =
      let counted = h.counted in
      let n = length-onto [] (addrs es) in
      let m = length-addrs es in
      let listed : items g.entries ≡ addrs es = h.listed ∙ bottom_first-onto [] (addrs es) in
      let filled = length-items g.entries h.stacked in
      let size : g.entries.size ≡ length es = omega (arith, m, filled, ap length listed) in
      let (st, built, w, keys) =
        build_items-keys it call.codec c g.cache (onto [] (addrs es)) g.entries [] 0 g.entries.size
          es it.stack h.pinned resolves listed refl size ws in
      let (en, released, w', none_left) =
        release_all-cancels c g.cache (onto [] (addrs es)) g.entries.size g.entries h.stacked
          h.listed h.pinned (omega arith) in
      let count : g.count ≡ length es = omega arith in
      let left = length-items en w' in
      (
        st,
        en,
        rw (alone g.cache, built, released, count),
        keys ∙ ap (λ l. item_keys l ++ entry_keys es) (items-empty it.stack empty),
        w,
        w',
        omega (arith, left, ap length none_left),
      )

  -- Under the read lock, if no other process interferes, the stacks are well-formed, that of the
  -- entries is empty and every entry is found by its address, a fetch of the active entries ends:
  -- it takes the entries that have not expired and that the search takes, in the order of some
  -- number of slots from the iterator's slot on, and answers with their number; it leaves the cache
  -- as it was, without a reference of its own, and well-formed stacks, that of the entries empty;
  -- and it stops at the end of the table or with more entries than the chunk's size.
  pub fetch_active-covers :
      (call : Call a) (c : Cache a) (it : Iterator)
      → rlock call.env ≡ true
      → ((d : Cache a) → call.meanwhile d ≡ d)
      → IsStack it.stack
      → IsStack it.entries
      → it.entries.size ≡ 0
      → ((k : ℕ) → ResolveAll c (found_all it call.env.now (take k (drop it.slot_idx c.slots))))
      → (k : ℕ) × (after : Iterator) × (apc_iterator_fetch_active call it c
          ≡ some (length (found_all it call.env.now (take k (drop it.slot_idx c.slots))), after, c))
        × (after.slot_idx ≡ it.slot_idx + k)
        × (item_keys (items after.stack)
            ≡ entry_keys (found_all it call.env.now (take k (drop it.slot_idx c.slots))))
        × ((k ≡ length (drop it.slot_idx c.slots))
            ⊎ (it.chunk_size
                < length (found_all it call.env.now (take k (drop it.slot_idx c.slots)))))
        × IsStack after.stack
        × IsStack after.entries
        × (after.entries.size ≡ 0)
  unfolding apc_iterator_fetch_active size_of
  fetch_active-covers call c it granted alone ws we none_yet resolves =
      let t = call.env.now in
      let ss = drop it.slot_idx c.slots in
      let (empty, drained, w, z) = drain-empties it.stack.size it.stack ws refl in
      let it' = record it { stack = empty } in
      let start : Gather = record { count = 0; entries = it.entries; cache = c } in
      let begun : Holding c start [] = record {
        stacked = we;
        listed = items-empty it.entries none_yet;
        pinned = refl;
        counted = refl;
      } in
      let (k, s) = gather_slots-Stopped c it' t it.slot_idx start [] ss begun in
      let r = gather_slots it' t it.slot_idx start ss in
      let es = found_all it t (take k ss) in
      let same = found_all-stack it empty t (take k ss) in
      let held : Holding c r.1 (onto [] (addrs es)) =
        subst (λ l. Holding c r.1 (onto [] (addrs l))) same s.holding in
      let placed = record it' { slot_idx = r.0; stack_idx = 0 } in
      let (st, en, done, keys, w', we', z') =
        finish_fetch-covers call c placed r.1 es alone w z held (resolves k) in
      let counted = held.counted in
      let n = length-onto [] (addrs es) in
      let m = length-addrs es in
      (
        k,
        record placed { stack = st; entries = en },
        rw (drained, granted) done,
        s.reached,
        keys,
        elim s.reason [ inl e ↦ inl e | inr more ↦ inr (omega arith) ],
        w',
        we',
        z',
      )

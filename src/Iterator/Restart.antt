-- ===== src/Iterator/Restart.antt =====
-- An iterator over the removed entries at the end of their list.
use apcu.Prelude.{
  ℕ, ◌+◌, ◌≤◌, ◌<◌, ◌≡◌, refl, sym, ap, ◌∙◌, true, false, some, List, [], ◌∷◌, not, leb, ◌==◌,
  ◌>>=◌, length, arith, ==_iff,
}
use apcu.Stack.{size_of}
use apcu.Cache.Types.{Entry}
use apcu.Cache.Allocator.{Allocator, Cache, Call, rlock}
use apcu.Iterator.Types.{Iterator, fetch_deleted}
use apcu.Iterator.Fetch.{
  Gather, skip, gather_list, build_items, release_all, finish_fetch, apc_iterator_fetch_deleted,
}
use apcu.Iterator.Methods.{valid, refill}
use apcu.Iterator.Endless.{valid-ready, fetch_next-deleted}

module _ ⦃a : Allocator⦄ where
  -- the walk to a place behind the end
  skip-all : (n k : ℕ) (es : List Entry) → length es + k ≤ n + 1 → skip n k es ≡ []
  unfolding skip
  skip-all n k [] h = refl
  skip-all n k (e ∷ es) h =
      let more : leb k n ≡ true = ground arith in rw more (skip-all n (k + 1) es (omega arith))

  -- nothing was gathered
  finish_fetch-nothing :
      (call : Call a) (it : Iterator) (g : Gather)
      → call.meanwhile g.cache ≡ g.cache
      → g.entries.size ≡ 0
      → finish_fetch call it g ≡ some (g.count, record it { entries = g.entries }, g.cache)
  unfolding finish_fetch size_of build_items release_all
  finish_fetch-nothing call it g alone none_yet =
      ap
        (λ (later : Cache a).
          build_items it call.codec later g.entries 0 g.entries.size it.stack >>= λ items.
          release_all g.entries.size g.entries later >>= λ r.
          some (g.count, record it { stack = items; entries = r.0 }, r.1))
        alone
      ∙ ap
          (λ (n : ℕ). build_items it call.codec g.cache g.entries 0 n it.stack >>= λ items.
            release_all n g.entries g.cache >>= λ r.
            some (g.count, record it { stack = items; entries = r.0 }, r.1))
          none_yet
      ∙ refl

  fetch_deleted-nothing :
      (call : Call a) (it : Iterator) (c : Cache a)
      → rlock call.env ≡ true
      → call.meanwhile c ≡ c
      → it.entries.size ≡ 0
      → length c.header.gc ≤ it.slot_idx + 1
      → apc_iterator_fetch_deleted call it c ≡ some (0, record it { stack_idx = 0 }, c)
  unfolding apc_iterator_fetch_deleted gather_list
  fetch_deleted-nothing call it c granted alone none_yet passed =
      let start : Gather = record { count = 0; entries = it.entries; cache = c } in
      rw (granted, skip-all it.slot_idx 0 c.header.gc (omega (arith, passed)))
        (finish_fetch-nothing call (record it { slot_idx = it.slot_idx + 0; stack_idx = 0 }) start
            alone none_yet
          ∙ ap (λ (n : ℕ). some (0, record it { slot_idx = n; stack_idx = 0 }, c)) (omega arith))

  -- Where an iterator over the removed entries has passed the end of their list and all its items,
  -- of which there is one at least, and under the read lock, with no pinned entry left over and no
  -- other process in between, `valid` answers true and sets the iterator back to its first item.
  pub valid-restarts :
      (call : Call a) (it : Iterator) (c : Cache a)
      → rlock call.env ≡ true
      → call.meanwhile c ≡ c
      → it.initialized ≡ true
      → it.fetch ≡ fetch_deleted
      → 0 < it.stack.size
      → it.stack_idx ≡ it.stack.size
      → it.entries.size ≡ 0
      → length c.header.gc ≤ it.slot_idx + 1
      → valid call it c ≡ some (some true, record it { stack_idx = 0 }, c)
  unfolding size_of refill
  valid-restarts call it c granted alone set_up deleted more done none_yet passed =
      let here : (it.stack.size == it.stack_idx) ≡ true =
        (==_iff it.stack.size it.stack_idx).1 (sym done) in
      let full : (it.stack.size == 0) ≡ false = ground arith in
      let fetched : refill call it c ≡ some (some 0, record it { stack_idx = 0 }, c) =
        rw
          (
            refill,
            size_of,
            here,
            fetch_next-deleted call it c deleted,
            fetch_deleted-nothing call it c granted alone none_yet passed,
          )
          refl in
      valid-ready call it c set_up
      ∙ rw fetched (ap (λ b. some (some (not b), record it { stack_idx = 0 }, c)) full)

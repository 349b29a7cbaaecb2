-- ===== src/Iterator/Endless.antt =====
-- The items of the removed entries are never taken off the iterator's stack.
use apcu.Prelude.{
  ℕ, zero, suc, ◌+◌, ◌≤◌, ◌<◌, ◌≡◌, refl, sym, ap, ◌∙◌, Bool, true, false, not, Option, none, some,
  ◌∷◌, arith, ◌==◌, if◌then◌else◌, ◌>>=◌, Bool-cases, Option-cases, inl, inr,
}
use mathlib.Core.Path.{subst}
use apcu.Stack.{Stack, push, get, size_of}
use apcu.Cache.Allocator.{Allocator, Cache, Call, Codec, rlock}
use apcu.Cache.Expunge.{entry_in}
use apcu.Iterator.Types.{Iterator, Item, fetch_active, fetch_deleted, item_ctor}
use apcu.Iterator.Fetch.{
  Gather, gather_list, skip, build_items, release_all, finish_fetch, apc_iterator_fetch_active,
  apc_iterator_fetch_deleted, fetch_next,
}
use apcu.Iterator.Methods.{refill, valid}

module _ ⦃a : Allocator⦄ where
  build_items-grows :
      (it : Iterator) (codec : Codec) (c : Cache a) (entries : Stack ℕ) (i left : ℕ)
      (stack s : Stack Item)
      → build_items it codec c entries i left stack ≡ some s
      → stack.size ≤ s.size
  unfolding build_items push
  build_items-grows it codec c entries i zero stack s h =
      let same : stack ≡ s = cc in omega (arith, ap (λ (y : Stack Item). y.size) same)
  build_items-grows it codec c entries i (suc left) stack s h =
      elim (Option-cases (get entries i)) [
        | inl gone ↦ cc (rw (gone, build_items) at h)
        | inr (x, got) ↦ elim (Option-cases (entry_in x (c.header.gc ∷ c.slots))) [
          | inl gone ↦ cc (rw (got, build_items, gone) at h)
          | inr (e, there) ↦
              let made = item_ctor codec.unpersist it.format e in
              let h' : build_items it codec c entries (i + 1) left (push stack made) ≡ some s =
                rw (got, build_items, there) at h in
              let more : stack.size + 1 ≤ s.size =
                build_items-grows it codec c entries (i + 1) left (push stack made) s h' in
              omega arith
        ]
      ]

  -- the iterator that a fetch leaves, against the one that it is given
  abbrev Grown : Iterator → Iterator → Type 0
  Grown it it' =
      (it'.initialized ≡ it.initialized) × (it'.fetch ≡ it.fetch) × (it.stack.size ≤ it'.stack.size)

  finish_fetch-Grown :
      (call : Call a) (it : Iterator) (g : Gather) (r : ℕ × Iterator × Cache a)
      → finish_fetch call it g ≡ some r
      → Grown it r.1
  unfolding finish_fetch
  finish_fetch-Grown call it g r h =
      let later = call.meanwhile g.cache in
      let n = size_of g.entries in
      elim (Option-cases (build_items it call.codec later g.entries 0 n it.stack)) [
        | inl gone ↦ cc (rw (gone, finish_fetch) at h)
        | inr (s, built) ↦ elim (Option-cases (release_all n g.entries later)) [
          | inl stuck ↦ cc (rw (built, finish_fetch, stuck) at h)
          | inr (e, released) ↦
              let made : (g.count, record it { stack = s; entries = e.0 }, e.1) ≡ r =
                ground (arith, rw (built, finish_fetch, released) at h) in
              subst (λ (y : ℕ × Iterator × Cache a). Grown it y.1) made
                (refl, refl, build_items-grows it call.codec later g.entries 0 n it.stack s built)
        ]
      ]

  fetch_deleted-Grown :
      (call : Call a) (it : Iterator) (c : Cache a) (r : ℕ × Iterator × Cache a)
      → apc_iterator_fetch_deleted call it c ≡ some r
      → Grown it r.1
  unfolding apc_iterator_fetch_deleted
  fetch_deleted-Grown call it c r h = elim (Bool-cases (rlock call.env)) [
    | inl granted ↦
        let start : Gather = record { count = 0; entries = it.entries; cache = c } in
        let g = gather_list it start (skip it.slot_idx 0 c.header.gc) in
        finish_fetch-Grown call (record it { slot_idx = it.slot_idx + g.count; stack_idx = 0 }) g r
          (rw granted at h)
    | inr refused ↦
        let same : (0, it, c) ≡ r = ground (arith, rw refused at h) in
        subst (λ (y : ℕ × Iterator × Cache a). Grown it y.1) same (refl, refl, omega arith)
  ]

  -- the answer is true, and the iterator goes on over the removed entries with its items
  abbrev Endless : Iterator → Option Bool × Iterator × Cache a → Type 0
  Endless it r =
      (r.0 ≡ some true)
      × (r.1.initialized ≡ true)
      × (r.1.fetch ≡ fetch_deleted)
      × (it.stack.size ≤ r.1.stack.size)

  pub valid-ready :
      (call : Call a) (it : Iterator) (c : Cache a)
      → it.initialized ≡ true
      → valid call it c
        ≡ (refill call it c >>= λ r. some (some (not (size_of r.1.stack == 0)), r.1, r.2))
  unfolding valid refill size_of
  valid-ready call it c set_up =
      ap
        (λ b.
          if not b
          then some (none, it, c)
          else (refill call it c >>= λ r. some (some (not (size_of r.1.stack == 0)), r.1, r.2)))
        set_up

  pub fetch_next-deleted :
      (call : Call a) (it : Iterator) (c : Cache a)
      → it.fetch ≡ fetch_deleted
      → fetch_next call it c ≡ apc_iterator_fetch_deleted call it c
  unfolding fetch_next
  fetch_next-deleted call it c deleted =
      ap
        (λ f. elim f as (λ _. Option (ℕ × Iterator × Cache a)) [
          | fetch_active ↦ apc_iterator_fetch_active call it c
          | fetch_deleted ↦ apc_iterator_fetch_deleted call it c
        ])
        deleted

  -- Once an iterator over the removed entries holds an item, `valid`, if it ends without a fault,
  -- answers true and leaves such an iterator, with as many items or more, so that a loop over it
  -- never ends.
  valid-Endless :
      (call : Call a) (it : Iterator) (c : Cache a) (r : Option Bool × Iterator × Cache a)
      → it.initialized ≡ true
      → it.fetch ≡ fetch_deleted
      → 0 < it.stack.size
      → valid call it c ≡ some r
      → Endless it r
  unfolding valid refill size_of
  valid-Endless call it c r set_up deleted more h =
      let ready = sym (valid-ready call it c set_up) ∙ h in
      let full : (it.stack.size == 0) ≡ false = ground arith in
      elim (Bool-cases (it.stack.size == it.stack_idx)) [
        | inr here ↦
            let kept : refill call it c ≡ some (none, it, c) = rw (refill, size_of, here) in
            let same : (some (not (it.stack.size == 0)), it, c) ≡ r =
              ground (arith, rw (kept, size_of) at ready) in
            subst (λ (y : Option Bool × Iterator × Cache a). Endless it y) same
              (ap (λ b. some (not b)) full, set_up, deleted, omega arith)
        | inl passed ↦ elim (Option-cases (apc_iterator_fetch_deleted call it c)) [
          | inl fault ↦
              let stuck : refill call it c ≡ none =
                rw (refill, size_of, passed, fetch_next-deleted call it c deleted, fault) in
              cc (rw stuck at ready)
          | inr (f, fetched) ↦
              let got : refill call it c ≡ some (some f.0, f.1, f.2) =
                rw (refill, size_of, passed, fetch_next-deleted call it c deleted, fetched) in
              let (init, kind, grown) = fetch_deleted-Grown call it c f fetched in
              let still : (f.1.stack.size == 0) ≡ false = ground arith in
              let same : (some (not (f.1.stack.size == 0)), f.1, f.2) ≡ r =
                ground (arith, rw (got, size_of) at ready) in
              subst (λ (y : Option Bool × Iterator × Cache a). Endless it y) same
                (ap (λ b. some (not b)) still, init ∙ set_up, kind ∙ deleted, grown)
        ]
      ]

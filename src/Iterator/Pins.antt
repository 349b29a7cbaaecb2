-- ===== src/Iterator/Pins.antt =====
-- The references that a fetch takes, and that it gives all of them back.
use apcu.Prelude.{
  ℕ, ◌≡◌, refl, ap, ◌∙◌, true, some, List, [], ◌∷◌, ◌++◌, length, ◌==◌, Bool-cases, inl, inr,
}
use apcu.Stack.{Stack, size_of}
use apcu.Stack.Refines.{items, IsStack, pop-last}
use apcu.Cache.Types.{Entry}
use apcu.Cache.Allocator.{Allocator, Cache}
use apcu.Cache.Entry.{
  incref, release, update_at, update_slots, update_entry, entry_incref, entry_release,
}
use apcu.Cache.Entry.Keys.{release-incref}
use apcu.Iterator.Fetch.{release_all}

update_at-cancel :
    (addr : ℕ) (es : List Entry) → update_at addr release (update_at addr incref es) ≡ es
unfolding update_at incref
update_at-cancel addr [] = refl
update_at-cancel addr (e ∷ es) = elim (Bool-cases (e.addr == addr)) [
  | inl here ↦
      let same : ((incref e).addr == addr) ≡ true = here in
      rw (here, same, release-incref e, update_at-cancel addr es)
  | inr other ↦ rw (other, other, update_at-cancel addr es)
]

update_slots-cancel :
    (addr : ℕ) (ss : List (List Entry))
    → update_slots addr release (update_slots addr incref ss) ≡ ss
unfolding update_slots
update_slots-cancel addr [] = refl
update_slots-cancel addr (es ∷ ss) = rw (update_at-cancel addr es, update_slots-cancel addr ss)

-- a stack's items, from a list that has its top first
abbrev pub bottom_first {ℓ} : {A : Type ℓ} → List A → List A
bottom_first [] = []
bottom_first (x ∷ xs) = bottom_first xs ++ (x ∷ [])

module _ ⦃a : Allocator⦄ where
  release-entry_incref : (c : Cache a) (addr : ℕ) → entry_release (entry_incref c addr) addr ≡ c
  unfolding entry_release entry_incref update_entry
  release-entry_incref c addr =
      rw (update_at-cancel addr c.header.gc, update_slots-cancel addr c.slots)

  -- The cache with the entries pinned, the last address first.
  abbrev pub Pinned : Cache a → List ℕ → Cache a → Type 0
  Pinned c [] d = d ≡ c
  Pinned c (x ∷ xs) d = (before : Cache a) × (d ≡ entry_incref before x) × Pinned c xs before

  -- releasing all pinned entries gives back the cache of before
  pub release_all-cancels :
      (c d : Cache a) (xs : List ℕ) (n : ℕ) (s : Stack ℕ)
      → IsStack s
      → items s ≡ bottom_first xs
      → Pinned c xs d
      → n ≡ length xs
      → (s' : Stack ℕ) × (release_all n s d ≡ some (s', c)) × IsStack s' × (items s' ≡ [])
  unfolding release_all size_of
  release_all-cancels c d [] n s h e p m = rw (m, p) (s, refl, h, e)
  release_all-cancels c d (x ∷ xs) n s h e (before, q, p) m =
      let (rest, popped, left, h', some_item) = pop-last s (bottom_first xs) x h e in
      let back : entry_release d x ≡ before =
        ap (λ y. entry_release y x) q ∙ release-entry_incref before x in
      let (s', done, g, none_left) =
        release_all-cancels c before xs (length xs) rest h' left p refl in
      (s', rw (m, some_item, popped, back) done, g, none_left)

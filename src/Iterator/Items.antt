-- ===== src/Iterator/Items.antt =====
-- The items that a fetch builds of the entries that it pinned.
use apcu.Prelude.{
  ℕ, ◌+◌, ◌≡◌, refl, sym, ap, ◌∙◌, none, some, List, [], ◌∷◌, ◌++◌, arith, length, length-append,
  get_elem?, ◌==◌, if◌then◌else◌, Bool-cases, Option-cases, inl, inr,
}
use mathlib.Core.Path.{subst}
use mathlib.Core.List.{append_assoc, append-nil}
use apcu.Stack.{Stack, push, get}
use apcu.Stack.Refines.{items, IsStack, push-items, get-items}
use apcu.Cache.Types.{ZendString, Entry}
use apcu.Cache.Allocator.{Allocator, Cache, Codec}
use apcu.Cache.Entry.{incref, update_at, update_slots, update_entry, entry_incref}
use apcu.Cache.Expunge.{entry_at, entry_in}
use apcu.Iterator.Types.{Iterator, Item, item_ctor}
use apcu.Iterator.Fetch.{build_items}
use apcu.Iterator.Pins.{Pinned}
use apcu.Iterator.Gather.{addrs}

entry_at-update_at :
    (x addr : ℕ) (es : List Entry)
    → entry_at x (update_at addr incref es) ≡ elim (entry_at x es) [
      | none ↦ none
      | some e ↦ some (if e.addr == addr then incref e else e)
    ]
unfolding entry_at update_at incref
entry_at-update_at x addr [] = refl
entry_at-update_at x addr (e ∷ es) = elim (Bool-cases (e.addr == addr)) [
  | inl here ↦ elim (Bool-cases (e.addr == x)) [
    | inl this ↦ rw (here, this, here)
    | inr other ↦ rw (here, other) (entry_at-update_at x addr es)
  ]
  | inr away ↦ elim (Bool-cases (e.addr == x)) [
    | inl this ↦ rw (away, this, away)
    | inr other ↦ rw (away, other) (entry_at-update_at x addr es)
  ]
]

-- the keys of the items, and of the entries
abbrev pub item_keys : List Item → List ZendString
item_keys [] = []
item_keys (i ∷ is) = i.key ∷ item_keys is

abbrev pub entry_keys : List Entry → List ZendString
entry_keys [] = []
entry_keys (e ∷ es) = e.key ∷ entry_keys es

item_keys-append : (xs ys : List Item) → item_keys (xs ++ ys) ≡ item_keys xs ++ item_keys ys
item_keys-append [] ys = refl
item_keys-append (x ∷ xs) ys = ap (λ l. x.key ∷ l) (item_keys-append xs ys)

get_elem-middle {ℓ} :
    {A : Type ℓ} (xs : List A) (y : A) (ys : List A)
    → get_elem? (xs ++ (y ∷ ys)) (length xs) ≡ some y
get_elem-middle [] y ys = refl
get_elem-middle (x ∷ xs) y ys = get_elem-middle xs y ys

key_kept : (f : Entry) (addr : ℕ) → (if f.addr == addr then incref f else f).key ≡ f.key
unfolding incref
key_kept f addr = elim (Bool-cases (f.addr == addr)) [ inl h ↦ rw h refl | inr h ↦ rw h refl ]

module _ ⦃a : Allocator⦄ where
  -- an address at which the cache has an entry with the key
  abbrev Resolves : Cache a → ℕ → ZendString → Type 0
  Resolves c x k = (e : Entry) × (entry_in x (c.header.gc ∷ c.slots) ≡ some e) × (e.key ≡ k)

  abbrev pub ResolveAll : Cache a → List Entry → Type 0
  ResolveAll c [] = Unit
  ResolveAll c (e ∷ es) = Resolves c e.addr e.key × ResolveAll c es

  entry_in-update :
      (x addr : ℕ) (e : Entry) (ss : List (List Entry))
      → entry_in x ss ≡ some e
      → (d : Entry) × (entry_in x (update_slots addr incref ss) ≡ some d) × (d.key ≡ e.key)
  unfolding entry_in update_slots
  entry_in-update x addr e [] h = cc
  entry_in-update x addr e (es ∷ ss) h = elim (Option-cases (entry_at x es)) [
    | inl absent ↦
        let later : entry_in x ss ≡ some e = rw (absent, entry_in) at h in
        let (d, there, same) = entry_in-update x addr e ss later in
        let none_here : entry_at x (update_at addr incref es) ≡ none =
          entry_at-update_at x addr es ∙ rw absent refl in
        (d, rw (entry_in, none_here) there, same)
    | inr (f, first) ↦
        let this : f ≡ e = cc (rw (first, entry_in) at h) in
        let updated = entry_at-update_at x addr es in
        let here : entry_at x (update_at addr incref es)
            ≡ some (if f.addr == addr then incref f else f) =
          updated ∙ rw first refl in
        (
          if f.addr == addr then incref f else f,
          rw (entry_in, here) refl,
          key_kept f addr ∙ ap (λ y. y.key) this,
        )
  ]

  Resolves-entry_incref :
      (c : Cache a) (addr x : ℕ) (k : ZendString)
      → Resolves c x k
      → Resolves (entry_incref c addr) x k
  unfolding entry_incref update_entry
  Resolves-entry_incref c addr x k (e, there, same) =
      let (d, there', same') = entry_in-update x addr e (c.header.gc ∷ c.slots) there in
      (d, there', same' ∙ same)

  Resolves-Pinned :
      (c d : Cache a) (r : List ℕ) (x : ℕ) (k : ZendString)
      → Pinned c r d
      → Resolves c x k
      → Resolves d x k
  Resolves-Pinned c d [] x k p h = subst (λ y. Resolves y x k) (sym p) h
  Resolves-Pinned c d (y ∷ r) x k (before, e, p) h =
      subst (λ z. Resolves z x k) (sym e)
        (Resolves-entry_incref before y x k (Resolves-Pinned c before r x k p h))

  pub build_items-keys :
      (it : Iterator) (codec : Codec) (c d : Cache a) (r : List ℕ) (entries : Stack ℕ)
      (passed : List ℕ) (i left : ℕ) (es : List Entry) (stack : Stack Item)
      → Pinned c r d
      → ResolveAll c es
      → items entries ≡ passed ++ addrs es
      → i ≡ length passed
      → left ≡ length es
      → IsStack stack
      → (s : Stack Item) × (build_items it codec d entries i left stack ≡ some s)
        × IsStack s
        × (item_keys (items s) ≡ item_keys (items stack) ++ entry_keys es)
  unfolding build_items item_ctor
  build_items-keys it codec c d r entries passed i left [] stack p h e m n w =
      rw n (stack, refl, w, sym (append-nil (item_keys (items stack))))
  build_items-keys it codec c d r entries passed i left (x ∷ es) stack p (hx, h) e m n w =
      let (f, there, same) = Resolves-Pinned c d r x.addr x.key p hx in
      let got : get entries i ≡ some x.addr =
        get-items entries i
        ∙ ap (λ l. get_elem? l i) e
        ∙ ap (get_elem? (passed ++ (x.addr ∷ addrs es))) m
        ∙ get_elem-middle passed x.addr (addrs es) in
      let made = item_ctor codec.unpersist it.format f in
      let (w', pushed) = push-items stack made w in
      let (s, done, g, keys) =
        build_items-keys it codec c d r entries (passed ++ (x.addr ∷ [])) (i + 1) (length es) es
          (push stack made) p h (e ∙ sym (append_assoc passed (x.addr ∷ []) (addrs es)))
          (omega (arith, m, length-append passed (x.addr ∷ []))) refl w' in
      let old = item_keys (items stack) in
      let step : item_keys (items (push stack made)) ++ entry_keys es ≡ old ++ entry_keys (x ∷ es) =
        ap (λ l. item_keys l ++ entry_keys es) pushed
        ∙ ap (λ l. l ++ entry_keys es) (item_keys-append (items stack) (made ∷ []))
        ∙ append_assoc old (made.key ∷ []) (entry_keys es)
        ∙ ap (λ k. old ++ (k ∷ entry_keys es)) same in
      (s, rw (n, got, there) done, g, keys ∙ step)

-- ===== src/Cache/Fetch/Pins.antt =====
-- The addresses of the entries of a cache with their numbers of references, under changes of the
-- entries at one address.
use apcu.Prelude.{
  ℕ, zero, suc, ◌≡◌, refl, true, Option, none, some, is_some, List, [], ◌∷◌, ◌==◌, ==_iff,
  if◌then◌else◌, get_or, Bool-cases, inl, inr, arith,
}
use apcu.Prelude.Int.{ℤ, pos, ◌+ℤ◌, ◌-ℤ◌, +ℤ_cancel}
use apcu.Cache.Types.{ZendString, Entry}
use apcu.Cache.Allocator.{Allocator, Cache}
use apcu.Cache.Entry.{update_at, update_slots, update_entry, key_equals, hard_expired}
use apcu.Cache.Expunge.{entry_at, entry_in}
use apcu.Cache.Find.{find_walk}

-- the addresses of the entries, each with the number of its references
unfoldable pub pins_of : List Entry → List (ℕ × ℤ)
pins_of [] = []
pins_of (e ∷ es) = (e.addr, e.ref_count) ∷ pins_of es

unfoldable pub all_pins : List (List Entry) → List (List (ℕ × ℤ))
all_pins [] = []
all_pins (es ∷ ss) = pins_of es ∷ all_pins ss

unfoldable pub pins : {a : Allocator} → Cache a → List (List (ℕ × ℤ))
unfolding pins_of all_pins
pins c = all_pins (c.header.gc ∷ c.slots)

unfoldable pub pin_at : ℕ → (ℤ → ℤ) → List (ℕ × ℤ) → List (ℕ × ℤ)
pin_at addr g [] = []
pin_at addr g (x ∷ xs) = (if x.0 == addr then (x.0, g x.1) else x) ∷ pin_at addr g xs

unfoldable pub pin_all : ℕ → (ℤ → ℤ) → List (List (ℕ × ℤ)) → List (List (ℕ × ℤ))
pin_all addr g [] = []
pin_all addr g (xs ∷ ps) = pin_at addr g xs ∷ pin_all addr g ps

-- a change of an entry that acts by `g` on its count
module _ (addr : ℕ) (f : Entry → Entry) (g : ℤ → ℤ)
    (acts : (e : Entry) → ((f e).addr ≡ e.addr) × ((f e).ref_count ≡ g e.ref_count)) where
  pins_of-update_at : (es : List Entry) → pins_of (update_at addr f es) ≡ pin_at addr g (pins_of es)
  unfolding pins_of update_at pin_at
  pins_of-update_at [] = refl
  pins_of-update_at (e ∷ es) = elim (Bool-cases (e.addr == addr)) [
    | inl here ↦ rw (here, (acts e).0, (acts e).1, pins_of-update_at es) refl
    | inr other ↦ rw (other, pins_of-update_at es) refl
  ]

  all_pins-update_slots :
      (ss : List (List Entry)) → all_pins (update_slots addr f ss) ≡ pin_all addr g (all_pins ss)
  unfolding all_pins update_slots pin_all
  all_pins-update_slots [] = refl
  all_pins-update_slots (es ∷ ss) = rw (pins_of-update_at es, all_pins-update_slots ss) refl

  pub pins-update_entry :
      {a : Allocator} (c : Cache a) → pins (update_entry ⦃a = a⦄ c addr f) ≡ pin_all addr g (pins c)
  unfolding pins all_pins update_entry pin_all
  pins-update_entry c = rw (pins_of-update_at c.header.gc, all_pins-update_slots c.slots) refl

pin_at-same : (addr : ℕ) (xs : List (ℕ × ℤ)) → pin_at addr (λ n. n) xs ≡ xs
unfolding pin_at
pin_at-same addr [] = refl
pin_at-same addr (x ∷ xs) = elim (Bool-cases (x.0 == addr)) [
  | inl here ↦ rw (here, pin_at-same addr xs) refl
  | inr other ↦ rw (other, pin_at-same addr xs) refl
]

pub pin_all-same : (addr : ℕ) (ps : List (List (ℕ × ℤ))) → pin_all addr (λ n. n) ps ≡ ps
unfolding pin_all
pin_all-same addr [] = refl
pin_all-same addr (xs ∷ ps) = rw (pin_at-same addr xs, pin_all-same addr ps) refl

pin_at-cancel :
    (addr : ℕ) (xs : List (ℕ × ℤ))
    → pin_at addr (λ n. n -ℤ pos 1) (pin_at addr (λ n. n +ℤ pos 1) xs) ≡ xs
unfolding pin_at
pin_at-cancel addr [] = refl
pin_at-cancel addr (x ∷ xs) = elim (Bool-cases (x.0 == addr)) [
  | inl here ↦ rw (here, here, +ℤ_cancel x.1 (pos 1), pin_at-cancel addr xs) refl
  | inr other ↦ rw (other, other, pin_at-cancel addr xs) refl
]

pub pin_all-cancel :
    (addr : ℕ) (ps : List (List (ℕ × ℤ)))
    → pin_all addr (λ n. n -ℤ pos 1) (pin_all addr (λ n. n +ℤ pos 1) ps) ≡ ps
unfolding pin_all
pin_all-cancel addr [] = refl
pin_all-cancel addr (xs ∷ ps) = rw (pin_at-cancel addr xs, pin_all-cancel addr ps) refl

-- whether an address stands among the pins
unfoldable pub pinned : ℕ → List (ℕ × ℤ) → Option ℕ
pinned addr [] = none
pinned addr (x ∷ xs) = if x.0 == addr then some addr else pinned addr xs

unfoldable pub pinned_in : ℕ → List (List (ℕ × ℤ)) → Option ℕ
pinned_in addr [] = none
pinned_in addr (xs ∷ ps) = elim (pinned addr xs) [ none ↦ pinned_in addr ps | some n ↦ some n ]

entry_at-pinned :
    (addr : ℕ) (es : List Entry) → is_some (entry_at addr es) ≡ is_some (pinned addr (pins_of es))
unfolding entry_at pinned pins_of
entry_at-pinned addr [] = refl
entry_at-pinned addr (e ∷ es) = elim (Bool-cases (e.addr == addr)) [
  | inl here ↦ rw here refl
  | inr other ↦ rw other (entry_at-pinned addr es)
]

pub entry_in-pinned_in :
    (addr : ℕ) (ss : List (List Entry))
    → is_some (entry_in addr ss) ≡ is_some (pinned_in addr (all_pins ss))
unfolding entry_in pinned_in all_pins
entry_in-pinned_in addr [] = refl
entry_in-pinned_in addr (es ∷ ss) =
    let first = entry_at-pinned addr es in
    let later = entry_in-pinned_in addr ss in ground (arith, first, later)

pinned-pin_at :
    (addr : ℕ) (g : ℤ → ℤ) (xs : List (ℕ × ℤ)) → pinned addr (pin_at addr g xs) ≡ pinned addr xs
unfolding pinned pin_at
pinned-pin_at addr g [] = refl
pinned-pin_at addr g (x ∷ xs) = elim (Bool-cases (x.0 == addr)) [
  | inl here ↦ rw (here, here) refl
  | inr other ↦ rw (other, other) (pinned-pin_at addr g xs)
]

pub pinned_in-pin_all :
    (addr : ℕ) (g : ℤ → ℤ) (ps : List (List (ℕ × ℤ)))
    → pinned_in addr (pin_all addr g ps) ≡ pinned_in addr ps
unfolding pinned_in pin_all
pinned_in-pin_all addr g [] = refl
pinned_in-pin_all addr g (xs ∷ ps) =
    let first = pinned-pin_at addr g xs in
    let later = pinned_in-pin_all addr g ps in ground (arith, first, later)

-- what a walk finds stands at its address
pub find_walk-entry_at :
    (key : ZendString) (t : ℕ) (es : List Entry) (x : Entry)
    → find_walk key t es ≡ some x
    → is_some (entry_at x.addr es) ≡ true
unfolding find_walk entry_at
find_walk-entry_at key t [] x h = cc
find_walk-entry_at key t (e ∷ es) x h = elim (Bool-cases (e.addr == x.addr)) [
  | inl here ↦ rw here refl
  | inr other ↦ elim (Bool-cases (key_equals e key)) [
    | inl same ↦ elim (Bool-cases (hard_expired e t)) [
      | inl over ↦ cc (rw (same, over) at h)
      | inr alive ↦
          let is_x : some e ≡ some x = rw (same, alive) at h in
          let found : e.addr ≡ x.addr = cc in
          let here : (e.addr == x.addr) ≡ true = (==_iff e.addr x.addr).1 found in rw here refl
    ]
    | inr another ↦ rw other (find_walk-entry_at key t es x (rw another at h))
  ]
]

pub entry_in-slot :
    (addr : ℕ) (ss : List (List Entry)) (i : ℕ)
    → is_some (entry_at addr (get_or ss i [])) ≡ true
    → is_some (entry_in addr ss) ≡ true
unfolding entry_in entry_at
entry_in-slot addr [] i h = h
entry_in-slot addr (es ∷ ss) zero h = ground (arith, h)
entry_in-slot addr (es ∷ ss) (suc i) h =
    let later = entry_in-slot addr ss i h in ground (arith, later)

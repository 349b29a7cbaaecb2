-- ===== src/Iterator/Gather.antt =====
-- The walk under the lock gathers the entries that have not expired and that the search takes.
use apcu.Prelude.{
  ℕ, suc, ◌+◌, ◌≤◌, ◌<◌, ◌≡◌, refl, sym, ap, ◌∙◌, List, [], ◌∷◌, ◌++◌, ◌&&◌, ◌⊎◌, arith, length,
  take, leb, if◌then◌else◌, Bool-cases, inl, inr,
}
use mathlib.Core.Path.{subst}
use mathlib.Core.List.{append_assoc, append-nil}
use apcu.Stack.{Stack}
use apcu.Stack.Refines.{items, IsStack, push-items}
use apcu.Cache.Types.{Entry}
use apcu.Cache.Allocator.{Allocator, Cache}
use apcu.Iterator.Types.{Iterator, Item, search_match, check_expiry}
use apcu.Iterator.Fetch.{Gather, pin, gather_slot, gather_slots}
use apcu.Iterator.Pins.{Pinned, bottom_first}

-- the entries of a slot that an iterator takes at time `t`, in order
unfoldable pub found : Iterator → ℕ → List Entry → List Entry
found it t [] = []
found it t (e ∷ es) =
    if check_expiry e t && search_match it e then e ∷ found it t es else found it t es

-- those of the slots
unfoldable pub found_all : Iterator → ℕ → List (List Entry) → List Entry
found_all it t [] = []
found_all it t (es ∷ ss) = found it t es ++ found_all it t ss

-- what an iterator takes depends on its search alone
found-stack :
    (it : Iterator) (s : Stack Item) (t : ℕ) (es : List Entry)
    → found (record it { stack = s }) t es ≡ found it t es
unfolding found search_match
found-stack it s t [] = refl
found-stack it s t (e ∷ es) = rw (found-stack it s t es)

pub found_all-stack :
    (it : Iterator) (s : Stack Item) (t : ℕ) (ss : List (List Entry))
    → found_all (record it { stack = s }) t ss ≡ found_all it t ss
unfolding found_all
found_all-stack it s t [] = refl
found_all-stack it s t (es ∷ ss) = rw (found-stack it s t es, found_all-stack it s t ss)

-- the addresses of the entries
abbrev pub addrs : List Entry → List ℕ
addrs [] = []
addrs (e ∷ es) = e.addr ∷ addrs es

pub length-addrs : (es : List Entry) → length (addrs es) ≡ length es
length-addrs [] = refl
length-addrs (e ∷ es) = ap suc (length-addrs es)

addrs-append : (xs ys : List Entry) → addrs (xs ++ ys) ≡ addrs xs ++ addrs ys
addrs-append [] ys = refl
addrs-append (x ∷ xs) ys = ap (λ l. x.addr ∷ l) (addrs-append xs ys)

-- the addresses one by one on top of those there are
abbrev pub onto : List ℕ → List ℕ → List ℕ
onto r [] = r
onto r (x ∷ xs) = onto (x ∷ r) xs

pub bottom_first-onto : (r xs : List ℕ) → bottom_first (onto r xs) ≡ bottom_first r ++ xs
bottom_first-onto r [] = sym (append-nil (bottom_first r))
bottom_first-onto r (x ∷ xs) =
    bottom_first-onto (x ∷ r) xs ∙ append_assoc (bottom_first r) (x ∷ []) xs

pub length-onto : (r xs : List ℕ) → length (onto r xs) ≡ length r + length xs
length-onto r [] = omega arith
length-onto r (x ∷ xs) = let ih = length-onto (x ∷ r) xs in omega (arith, ih)

onto-append : (r xs ys : List ℕ) → onto r (xs ++ ys) ≡ onto (onto r xs) ys
onto-append r [] ys = refl
onto-append r (x ∷ xs) ys = onto-append (x ∷ r) xs ys

module _ ⦃a : Allocator⦄ where
  -- The entries at the addresses, the last first, have been gathered and pinned in `c`.
  pub record Holding (c : Cache a) (g : Gather) (r : List ℕ) : Type 0 where
    pub stacked : IsStack g.entries
    pub listed : items g.entries ≡ bottom_first r
    pub pinned : Pinned c r g.cache
    pub counted : g.count ≡ length r

  pin-Holding :
      (c : Cache a) (g : Gather) (r : List ℕ) (e : Entry)
      → Holding c g r
      → Holding c (pin g e) (e.addr ∷ r)
  unfolding pin
  pin-Holding c g r e h =
      let (stacked, listed) = push-items g.entries e.addr h.stacked in
      let counted = h.counted in
      record {
        stacked = stacked;
        listed = listed ∙ ap (λ l. l ++ (e.addr ∷ [])) h.listed;
        pinned = (g.cache, refl, h.pinned);
        counted = omega (arith, counted);
      }

  gather_slot-Holding :
      (c : Cache a) (it : Iterator) (t : ℕ) (g : Gather) (r : List ℕ) (es : List Entry)
      → Holding c g r
      → Holding c (gather_slot it t g es) (onto r (addrs (found it t es)))
  unfolding gather_slot found
  gather_slot-Holding c it t g r [] h = h
  gather_slot-Holding c it t g r (e ∷ es) h =
      elim (Bool-cases (check_expiry e t && search_match it e)) [
        | inl taken ↦
            rw taken (gather_slot-Holding c it t (pin g e) (e.addr ∷ r) es (pin-Holding c g r e h))
        | inr left ↦ rw left (gather_slot-Holding c it t g r es h)
      ]

  -- what a walk along slots from number `i` on gathers, and why it stops
  pub record Stopped (c : Cache a) (it : Iterator) (t i : ℕ) (r : List ℕ) (ss : List (List Entry))
      (j : ℕ) (g : Gather) (k : ℕ) : Type 0 where
    pub reached : j ≡ i + k
    within : k ≤ length ss
    pub holding : Holding c g (onto r (addrs (found_all it t (take k ss))))
    pub reason : (k ≡ length ss) ⊎ (it.chunk_size < g.count)

  pub gather_slots-Stopped :
      (c : Cache a) (it : Iterator) (t i : ℕ) (g : Gather) (r : List ℕ) (ss : List (List Entry))
      → Holding c g r
      → (k : ℕ) × Stopped c it t i r ss (gather_slots it t i g ss).0 (gather_slots it t i g ss).1 k
  unfolding gather_slots found_all
  gather_slots-Stopped c it t i g r [] h =
      (0, record { reached = omega arith; within = omega arith; holding = h; reason = inl refl })
  gather_slots-Stopped c it t i g r (es ∷ ss) h = elim (Bool-cases (leb g.count it.chunk_size)) [
    | inr full ↦
        let more : it.chunk_size < g.count = ground arith in
        rw full (
          0,
          record { reached = omega arith; within = omega arith; holding = h; reason = inr more },
        )
    | inl room ↦
        let h' = gather_slot-Holding c it t g r es h in
        let (k, s) =
          gather_slots-Stopped c it t (i + 1) (gather_slot it t g es)
            (onto r (addrs (found it t es))) ss h' in
        let got = found it t es in
        let later = found_all it t (take k ss) in
        let same : onto (onto r (addrs got)) (addrs later) ≡ onto r (addrs (got ++ later)) =
          sym (ap (onto r) (addrs-append got later) ∙ onto-append r (addrs got) (addrs later)) in
        let last = (gather_slots it t (i + 1) (gather_slot it t g es) ss).1 in
        let reached = s.reached in
        let within = s.within in
        rw room (
          suc k,
          record {
            reached = omega (arith, reached);
            within = omega arith;
            holding = subst (λ l. Holding c last l) same s.holding;
            reason = elim s.reason [ inl e ↦ inl (ap suc e) | inr m ↦ inr m ];
          },
        )
  ]

-- ===== src/Iterator/Totals.antt =====
-- The totals count what a walk over the whole table takes, and the construction of an iterator.
use apcu.Prelude.{
  ℕ, ◌+◌, ◌≡◌, refl, ap, ◌∙◌, true, ◌&&◌, List, [], ◌∷◌, ◌++◌, arith, length, length-append,
  Bool-cases, inl, inr,
}
use apcu.Cache.Types.{Entry}
use apcu.Cache.Allocator.{Allocator, Cache, Call, rlock}
use apcu.Cache.Valid.{weight}
use apcu.Iterator.Types.{Iterator, search_match, check_expiry}
use apcu.Iterator.Fetch.{add_totals, totals_slot, totals_slots, apc_iterator_totals}
use apcu.Iterator.Gather.{found, found_all}

-- the hits of the entries
pub total_hits : List Entry → ℕ
total_hits [] = 0
total_hits (e ∷ es) = e.nhits + total_hits es

weight-append : (xs ys : List Entry) → weight (xs ++ ys) ≡ weight xs + weight ys
unfolding weight
weight-append [] ys = omega arith
weight-append (x ∷ xs) ys = let ih = weight-append xs ys in omega arith

total_hits-append : (xs ys : List Entry) → total_hits (xs ++ ys) ≡ total_hits xs + total_hits ys
unfolding total_hits
total_hits-append [] ys = omega arith
total_hits-append (x ∷ xs) ys = let ih = total_hits-append xs ys in omega arith

-- `it'` has the totals of `it`, and the entries on top
record Summed (it it' : Iterator) (es : List Entry) : Type 0 where
  count : it'.count ≡ it.count + length es
  size : it'.size ≡ it.size + weight es
  hits : it'.hits ≡ it.hits + total_hits es
  regex : it'.regex ≡ it.regex
  search_hash : it'.search_hash ≡ it.search_hash

found-totals :
    (it it' : Iterator) (t : ℕ) (es : List Entry)
    → it'.regex ≡ it.regex
    → it'.search_hash ≡ it.search_hash
    → found it' t es ≡ found it t es
unfolding found search_match
found-totals it it' t [] r s = refl
found-totals it it' t (e ∷ es) r s = rw (r, s, found-totals it it' t es r s)

found_all-totals :
    (it it' : Iterator) (t : ℕ) (ss : List (List Entry))
    → it'.regex ≡ it.regex
    → it'.search_hash ≡ it.search_hash
    → found_all it' t ss ≡ found_all it t ss
unfolding found_all
found_all-totals it it' t [] r s = refl
found_all-totals it it' t (es ∷ ss) r s =
    rw (found-totals it it' t es r s, found_all-totals it it' t ss r s)

totals_slot-Summed :
    (t : ℕ) (it : Iterator) (es : List Entry) → Summed it (totals_slot t it es) (found it t es)
unfolding totals_slot found add_totals weight total_hits
totals_slot-Summed t it [] = record {
  count = omega arith;
  size = omega arith;
  hits = omega arith;
  regex = refl;
  search_hash = refl;
}
totals_slot-Summed t it (e ∷ es) = elim (Bool-cases (check_expiry e t && search_match it e)) [
  | inr left ↦ rw left (totals_slot-Summed t it es)
  | inl taken ↦
      let s = totals_slot-Summed t (add_totals it e) es in
      let same = found-totals it (add_totals it e) t es refl refl in
      let count = s.count in
      let size = s.size in
      let hits = s.hits in
      rw taken (record {
        count = omega (arith, count, ap length same);
        size = omega (arith, size, ap weight same);
        hits = omega (arith, hits, ap total_hits same);
        regex = s.regex;
        search_hash = s.search_hash;
      })
]

totals_slots-Summed :
    (t : ℕ) (it : Iterator) (ss : List (List Entry))
    → Summed it (totals_slots t it ss) (found_all it t ss)
unfolding totals_slots found_all weight total_hits
totals_slots-Summed t it [] = record {
  count = omega arith;
  size = omega arith;
  hits = omega arith;
  regex = refl;
  search_hash = refl;
}
totals_slots-Summed t it (es ∷ ss) =
    let s = totals_slot-Summed t it es in
    let s' = totals_slots-Summed t (totals_slot t it es) ss in
    let got = found it t es in
    let rest = found_all it t ss in
    let same : found_all (totals_slot t it es) t ss ≡ rest =
      found_all-totals it (totals_slot t it es) t ss s.regex s.search_hash in
    let c = s.count in
    let c' = s'.count in
    let w = s.size in
    let w' = s'.size in
    let h = s.hits in
    let h' = s'.hits in
    record {
      count = omega (arith, c, c', ap length same, length-append got rest);
      size = omega (arith, w, w', ap weight same, weight-append got rest);
      hits = omega (arith, h, h', ap total_hits same, total_hits-append got rest);
      regex = s'.regex ∙ s.regex;
      search_hash = s'.search_hash ∙ s.search_hash;
    }

-- Under the read lock the totals add the number, the bytes and the hits of the entries of the
-- whole table that have not expired and that the search takes.
pub totals-sums :
    ⦃a : Allocator⦄
    → (call : Call a) (it : Iterator) (c : Cache a) → rlock call.env ≡ true
    → ((apc_iterator_totals call it c).count
        ≡ it.count + length (found_all it call.env.now c.slots))
      × ((apc_iterator_totals call it c).size
          ≡ it.size + weight (found_all it call.env.now c.slots))
      × ((apc_iterator_totals call it c).hits
          ≡ it.hits + total_hits (found_all it call.env.now c.slots))
unfolding apc_iterator_totals
totals-sums call it c granted =
    let s = totals_slots-Summed call.env.now it c.slots in rw granted (s.count, s.size, s.hits)

-- ===== src/Persist/Sim.antt =====
-- The copy into an entry beside the way back: what the two tables have to do with each other while
-- one value is taken both ways.
use apcu.Prelude.{
  ℕ, ◌<◌, ◌≡◌, true, false, none, some, List, arith, Bool-cases, inl, inr, Option-cases,
}
use apcu.Cache.Types.{Zval}
use apcu.Persist.Zend.{Zend}
use apcu.Persist.Calc.{contains}
use apcu.Persist.Copy.{Copy, get_already_allocated, persist_alloc}
use apcu.Persist.Unpersist.{Unpersist, get_already_copied, emalloc}
use apcu.Persist.Content.{content, offset_of}

-- What is kept for the value `z` was made a value of the same content on the way back, and stands
-- at none of the offsets `os`.
pub record Matched (os : List ℕ) (u : Unpersist) (z v : Zval) : Type 0 where
  pub off : ℕ
  pub made : Zval
  pub at_off : offset_of v ≡ some off
  pub closed : contains os off ≡ false
  pub found : get_already_copied u off ≡ some made
  pub same : content made ≡ content z

-- `ps` are the addresses, and `os` the offsets, of the arrays and references that are being copied.
pub record Sim (env : ℕ → Zval) (ps os : List ℕ) (k : Copy) (u : Unpersist) : Type 0 where
  pub memo : k.memoization_needed ≡ true
  pub plain : k.use_serialization ≡ false
  pub memo_back : u.memoization_needed ≡ true
  pub begun : 0 < k.alloc_cur
  pub opened : (o : ℕ) → contains os o ≡ true → o < k.alloc_cur
  pub below : (o : ℕ) (w : Zval) → get_already_copied u o ≡ some w → (0 < o) × (o < k.alloc_cur)
  pub matched :
      (p : ℕ) (v : Zval)
      → get_already_allocated k p ≡ some v
      → contains ps p ≡ false
      → Matched os u (env p) v

module _ (zend : Zend) (env : ℕ → Zval) where
  pub alloc-Sim :
      (n : ℕ) (ps os : List ℕ) (k : Copy) (u : Unpersist)
      → Sim env ps os k u
      → Sim env ps os (persist_alloc zend n k) u
  unfolding persist_alloc get_already_allocated
  alloc-Sim n ps os k u s = record {
    memo = s.memo;
    plain = s.plain;
    memo_back = s.memo_back;
    begun = let h = s.begun in omega arith;
    opened = λ o h. let l = s.opened o h in omega arith;
    below = λ o w h. let (x, y) = s.below o w h in (x, omega (arith, y));
    matched = s.matched;
  }

  pub emalloc-Sim :
      (ps os : List ℕ) (k : Copy) (u : Unpersist) → Sim env ps os k u → Sim env ps os k (emalloc u)
  unfolding emalloc get_already_copied
  emalloc-Sim ps os k u s = record {
    memo = s.memo;
    plain = s.plain;
    memo_back = s.memo_back;
    begun = s.begun;
    opened = s.opened;
    below = s.below;
    matched = λ p v h c.
        let m = s.matched p v h c in
        record {
          off = m.off;
          made = m.made;
          at_off = m.at_off;
          closed = m.closed;
          found = m.found;
          same = m.same;
        };
  }

  -- a free offset is not in the table
  pub ahead :
      (ps os : List ℕ) (k : Copy) (u : Unpersist)
      → Sim env ps os k u
      → (get_already_copied u 0 ≡ none) × (get_already_copied u k.alloc_cur ≡ none)
  ahead ps os k u s = (zero_free, next_free)
    where
      zero_free : get_already_copied u 0 ≡ none
      zero_free = elim (Option-cases (get_already_copied u 0)) [
        | inl none_there ↦ none_there
        | inr (w, h) ↦ let (x, y) = s.below 0 w h in absurd (omega (arith, x))
      ]

      next_free : get_already_copied u k.alloc_cur ≡ none
      next_free = elim (Option-cases (get_already_copied u k.alloc_cur)) [
        | inl none_there ↦ none_there
        | inr (w, h) ↦ let (x, y) = s.below k.alloc_cur w h in absurd (omega (arith, y))
      ]

  pub unopened :
      (ps os : List ℕ) (k : Copy) (u : Unpersist)
      → Sim env ps os k u
      → contains os k.alloc_cur ≡ false
  unopened ps os k u s = elim (Bool-cases (contains os k.alloc_cur)) [
    | inl there ↦ let lt = s.opened k.alloc_cur there in absurd (omega (arith, lt))
    | inr away ↦ away
  ]

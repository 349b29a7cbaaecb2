-- ===== src/Persist/Grown.antt =====
-- The two tables after a string, and after the beginning and the end of an array or a reference.
use apcu.Prelude.{
  ℕ, ◌<◌, ◌≡◌, refl, sym, ap, ◌∙◌, Bool, true, false, some, List, ◌∷◌, ◌==◌, ◌||◌, if◌then◌else◌,
  arith, Bool-cases, inl, inr, ==_iff,
}
use apcu.Cache.Types.{Zval}
use apcu.Persist.Zend.{Zend}
use apcu.Persist.Calc.{contains}
use apcu.Persist.Copy.{Copy, get_already_allocated, add_already_allocated, persist_alloc}
use apcu.Persist.Unpersist.{Unpersist, get_already_copied, add_already_copied, emalloc}
use apcu.Persist.Content.{content, offset_of}
use apcu.Persist.Tables.{kept-add, found-add, add-memo, back-memo}
use apcu.Persist.Sim.{Matched, Sim, emalloc-Sim, unopened}

module _ (zend : Zend) (env : ℕ → Zval) where
  -- The entries of the two tables, after one was added to each at an offset that is new: the old
  -- ones stay, wherever they are not replaced.
  carried :
      (os os' : List ℕ) (u u' : Unpersist) (o : ℕ) (w z v : Zval)
      → ((x : ℕ) → get_already_copied u' x ≡ (if x == o then some w else get_already_copied u x))
      → ((x : ℕ) → (x == o) ≡ false → contains os x ≡ false → contains os' x ≡ false)
      → (m : Matched os u z v) → (m.off == o) ≡ false
      → Matched os' u' z v
  carried os os' u u' o w z v step wide m new = record {
    off = m.off;
    made = m.made;
    at_off = m.at_off;
    closed = wide m.off new m.closed;
    found = step m.off ∙ rw new m.found;
    same = m.same;
  }

  below-add :
      (u : Unpersist) (o : ℕ) (w : Zval) (hi : ℕ)
      → u.memoization_needed ≡ true
      → 0 < o
      → o < hi
      → ((x : ℕ) (w' : Zval) → get_already_copied u x ≡ some w' → (0 < x) × (x < hi))
      → (x : ℕ) (w' : Zval) → get_already_copied (add_already_copied o w u) x ≡ some w'
      → (0 < x) × (x < hi)
  below-add u o w hi memo pos_o lt old x w' h = elim (Bool-cases (x == o)) [
    | inl here ↦ let e = (==_iff x o).0 here in omega (arith, e, pos_o, lt)
    | inr away ↦ old x w' (sym (found-add u o w x memo ∙ rw away refl) ∙ h)
  ]

  kept_before :
      (k : Copy) (p : ℕ) (v : Zval) (q : ℕ) (v' : Zval)
      → k.memoization_needed ≡ true
      → (q == p) ≡ false
      → get_already_allocated (add_already_allocated p v k) q ≡ some v'
      → get_already_allocated k q ≡ some v'
  kept_before k p v q v' memo away h = sym (kept-add k p v q memo ∙ rw away refl) ∙ h

  not_at : (x o : ℕ) → x < o → (x == o) ≡ false
  not_at x o h = ground arith

  -- An array or a reference is begun: its offset is the next one.
  pub open-Sim :
      (n p : ℕ) (v w : Zval) (ps os : List ℕ) (k : Copy) (u : Unpersist)
      → 0 < zend.aligned_size n
      → Sim env ps os k u
      → Sim env
          (p ∷ ps)
          (k.alloc_cur ∷ os)
          (add_already_allocated p v (persist_alloc zend n k))
          (add_already_copied k.alloc_cur w (emalloc u))
  unfolding contains persist_alloc get_already_allocated
  open-Sim n p v w ps os k u room s =
      let l = persist_alloc zend n k in
      let t = emalloc-Sim zend env ps os k u s in
      let o = k.alloc_cur in
      let (m₁, m₂, m₃) = add-memo l p v in
      let top : o < (add_already_allocated p v l).alloc_cur = omega (arith, m₃, room) in
      let begun = s.begun in
      record {
        memo = m₁ ∙ s.memo;
        plain = m₂ ∙ s.plain;
        memo_back = back-memo (emalloc u) o w ∙ t.memo_back;
        begun = omega (arith, top);
        opened = λ x h. elim (Bool-cases (x == o)) [
          | inl here ↦ let e = (==_iff x o).0 here in omega (arith, e, top)
          | inr away ↦ let lt = s.opened x (rw away at h) in omega (arith, lt, top)
        ];
        below =
            below-add (emalloc u) o w (add_already_allocated p v l).alloc_cur t.memo_back begun top
              (λ x w' h. let (a, b) = t.below x w' h in (a, omega (arith, b, top)));
        matched = λ q v' h c. elim (Bool-cases (q == p)) [
          | inl here ↦ absurd (clash (contains ps q) (rw here at c))
          | inr away ↦
              let m = t.matched q v' (kept_before l p v q v' s.memo away h) (rw away at c) in
              let (a, b) = t.below m.off m.made m.found in
              carried os (o ∷ os) (emalloc u) (add_already_copied o w (emalloc u)) o w (env q) v'
                (λ x. found-add (emalloc u) o w x t.memo_back) (λ x new h. rw new h) m
                (not_at m.off o b)
        ];
      }
    where
      clash : (b : Bool) → true || b ≡ false → ⊥
      clash b h = ground arith

  -- what the new entry of the copy's table was made
  fresh :
      (p : ℕ) (v : Zval) (k : Copy) (os : List ℕ) (u : Unpersist) (o : ℕ) (w : Zval) (q : ℕ)
      (v' : Zval)
      → k.memoization_needed ≡ true
      → u.memoization_needed ≡ true
      → contains os o ≡ false
      → offset_of v ≡ some o
      → content w ≡ content (env p)
      → (q == p) ≡ true
      → get_already_allocated (add_already_allocated p v k) q ≡ some v'
      → Matched os (add_already_copied o w u) (env q) v'
  fresh p v k os u o w q v' memo memo_back closed at_off same here h =
      let e = (==_iff q p).0 here in
      let same_value : some v ≡ some v' = sym (kept-add k p v q memo ∙ rw here refl) ∙ h in
      let f : v ≡ v' = cc in
      record {
        off = o;
        made = w;
        at_off = ap offset_of (sym f) ∙ at_off;
        closed = closed;
        found = found-add u o w o memo_back ∙ rw ((==_iff o o).1 refl) refl;
        same = same ∙ ap (λ r. content (env r)) (sym e);
      }

  -- A string is copied: its offset is the next one.
  pub new-Sim :
      (n p : ℕ) (v w : Zval) (ps os : List ℕ) (k : Copy) (u : Unpersist)
      → 0 < zend.aligned_size n
      → offset_of v ≡ some k.alloc_cur
      → content w ≡ content (env p)
      → Sim env ps os k u
      → Sim env ps os
          (add_already_allocated p v (persist_alloc zend n k))
          (add_already_copied k.alloc_cur w (emalloc u))
  unfolding persist_alloc get_already_allocated
  new-Sim n p v w ps os k u room at_off same s =
      let l = persist_alloc zend n k in
      let t = emalloc-Sim zend env ps os k u s in
      let o = k.alloc_cur in
      let (m₁, m₂, m₃) = add-memo l p v in
      let top : o < (add_already_allocated p v l).alloc_cur = omega (arith, m₃, room) in
      let begun = s.begun in
      record {
        memo = m₁ ∙ s.memo;
        plain = m₂ ∙ s.plain;
        memo_back = back-memo (emalloc u) o w ∙ t.memo_back;
        begun = omega (arith, top);
        opened = λ x h. let lt = s.opened x h in omega (arith, lt, top);
        below =
            below-add (emalloc u) o w (add_already_allocated p v l).alloc_cur t.memo_back begun top
              (λ x w' h. let (a, b) = t.below x w' h in (a, omega (arith, b, top)));
        matched = λ q v' h c. elim (Bool-cases (q == p)) [
          | inl here ↦
              fresh p v l os (emalloc u) o w q v' s.memo t.memo_back (unopened zend env ps os k u s)
                at_off same here h
          | inr away ↦
              let m = t.matched q v' (kept_before l p v q v' s.memo away h) c in
              let (a, b) = t.below m.off m.made m.found in
              carried os os (emalloc u) (add_already_copied o w (emalloc u)) o w (env q) v'
                (λ x. found-add (emalloc u) o w x t.memo_back) (λ x new h. h) m (not_at m.off o b)
        ];
      }

  -- The array or reference that was begun last is complete.
  pub close-Sim :
      (p o : ℕ) (v w : Zval) (ps os : List ℕ) (k : Copy) (u : Unpersist)
      → 0 < o
      → contains os o ≡ false
      → offset_of v ≡ some o
      → content w ≡ content (env p)
      → Sim env (p ∷ ps) (o ∷ os) k u
      → Sim env ps os (add_already_allocated p v k) (add_already_copied o w u)
  unfolding contains
  close-Sim p o v w ps os k u pos_o free at_off same s =
      let (m₁, m₂, m₃) = add-memo k p v in
      let self : (o == o) ≡ true = (==_iff o o).1 refl in
      let lt : o < k.alloc_cur = s.opened o (rw self refl) in
      let begun = s.begun in
      record {
        memo = m₁ ∙ s.memo;
        plain = m₂ ∙ s.plain;
        memo_back = back-memo u o w ∙ s.memo_back;
        begun = omega (arith, m₃, begun);
        opened =
            λ x h. let l = s.opened x (widen (x == o) (contains os x) h) in omega (arith, l, m₃);
        below =
            below-add u o w (add_already_allocated p v k).alloc_cur s.memo_back pos_o
              (omega (arith, lt, m₃))
              (λ x w' h. let (a, b) = s.below x w' h in (a, omega (arith, b, m₃)));
        matched = λ q v' h c. elim (Bool-cases (q == p)) [
          | inl here ↦ fresh p v k os u o w q v' s.memo s.memo_back free at_off same here h
          | inr away ↦
              let m = s.matched q v' (kept_before k p v q v' s.memo away h) (rw away c) in
              let (apart, closed) = split (m.off == o) (contains os m.off) m.closed in
              carried (o ∷ os) os u (add_already_copied o w u) o w (env q) v'
                (λ x. found-add u o w x s.memo_back)
                (λ x new h. (split (x == o) (contains os x) h).1) m apart
        ];
      }
    where
      widen : (a b : Bool) → b ≡ true → a || b ≡ true
      widen a b h = ground arith

      split : (a b : Bool) → a || b ≡ false → (a ≡ false) × (b ≡ false)
      split a b h = ground arith

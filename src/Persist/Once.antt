-- ===== src/Persist/Once.antt =====
-- The two passes at one address: both go on, or both stop.
use apcu.Prelude.{
  ℕ, ◌≡◌, refl, sym, ap, ◌∙◌, Bool, true, false, not, ◌&&◌, ◌||◌, Option, none, some, ◌==◌, ==_iff,
  if◌then◌else◌, is_some, inl, inr, Bool-cases, arith,
}
use mathlib.Core.Path.{subst}
use apcu.Cache.Types.{Zval}
use apcu.Persist.Zend.{Zend, Serializer}
use apcu.Persist.Calc.{Calc, contains, calc_memoize, add_size, counted_once, calc_serialize}
use apcu.Persist.Copy.{
  Copy, get_already_allocated, add_already_allocated, persist_alloc, copied_once, copy_serialize,
}
use apcu.Persist.Sync.{
  is_empty_array, counted, held, Synced, Grows, Grows-refl, Grows-trans, counted-memoize,
  memoize-counted, memoize-new, memoize-keeps, mark_empty-Synced,
}

-- the contexts after a step, from `c` on
unfoldable pub Step : (ℕ → Zval) → Calc → Calc → Copy → Type 0
Step env c d k = Synced env d k × Grows c d

memoize-Grows : (c : Calc) (p : ℕ) → Grows c (calc_memoize c p).1
unfolding Grows
memoize-Grows c p = (
  (memoize-keeps c p).0,
  λ q h. counted-memoize c p q ∙ grown (counted c q) c.memoization_needed (q == p) h,
)
  where
    grown : (x m e : Bool) → x ≡ m → x || (m && e) ≡ m
    grown x m e h = ground arith

pub size-Grows : (zend : Zend) (n : ℕ) (c : Calc) → Grows c (add_size zend n c)
unfolding Grows add_size counted
size-Grows zend n c = (refl, λ p h. h)

-- An address is in the table after `apc_persist_calc_memoize`, where there is a table.
pub memoize-there :
    (c : Calc) (p : ℕ) → counted (calc_memoize c p).1 p ≡ (calc_memoize c p).1.memoization_needed
unfolding counted
memoize-there c p =
    counted-memoize c p p
    ∙ ap (λ e. counted c p || (c.memoization_needed && e)) ((==_iff p p).1 refl)
    ∙ there c.memoization_needed (contains c.already_counted p)
    ∙ sym (memoize-keeps c p).0
  where
    there : (m x : Bool) → (m && x) || (m && true) ≡ m
    there m x = ground arith

pub add-alloc :
    (zend : Zend) (n p : ℕ) (v : Zval) (k : Copy)
    → persist_alloc zend n (add_already_allocated p v k)
      ≡ add_already_allocated p v (persist_alloc zend n k)
unfolding add_already_allocated persist_alloc
add-alloc zend n p v k = ground arith

module _ (zend : Zend) (serializer : Option Serializer) where
  once-counted :
      (c : Calc) (z : Zval) (p : ℕ) (count : Calc → Bool × Calc)
      → c.use_serialization ≡ false
      → counted c p ≡ true
      → counted_once zend serializer c z p count ≡ (true, c)
  unfolding counted_once
  once-counted c z p count u h =
      ap
        (λ (b : Bool).
          if b
          then calc_serialize zend serializer c z
          else if (calc_memoize c p).0
          then (true, (calc_memoize c p).1)
          else count (calc_memoize c p).1)
        u
      ∙ ap (λ (m : Bool × Calc). if m.0 then (true, m.1) else count m.1) (memoize-counted c p h)

  once-new :
      (c : Calc) (z : Zval) (p : ℕ) (count : Calc → Bool × Calc)
      → c.use_serialization ≡ false
      → counted c p ≡ false
      → counted_once zend serializer c z p count ≡ count (calc_memoize c p).1
  unfolding counted_once
  once-new c z p count u h =
      ap
        (λ (b : Bool).
          if b
          then calc_serialize zend serializer c z
          else if (calc_memoize c p).0
          then (true, (calc_memoize c p).1)
          else count (calc_memoize c p).1)
        u
      ∙ ap (λ (b : Bool). if b then (true, (calc_memoize c p).1) else count (calc_memoize c p).1)
          (memoize-new c p h)

  once-held :
      (k : Copy) (p : ℕ) (copy : Copy → Zval × Copy)
      → k.use_serialization ≡ false
      → held k p ≡ true
      → (copied_once zend k p copy).1 ≡ k
  unfolding copied_once held
  once-held k p copy w h =
      ap
        (λ (b : Bool).
          (if b
            then copy_serialize zend k
            else elim (get_already_allocated k p) [ none ↦ copy k | some v ↦ (v, k) ]).1)
        w
      ∙ found (get_already_allocated k p) h
    where
      found :
          (o : Option Zval)
          → is_some o ≡ true
          → (elim o as (λ x. Zval × Copy) [ none ↦ copy k | some v ↦ (v, k) ]).1 ≡ k
      found none e = ground arith
      found (some v) e = refl

  once-copied :
      (k : Copy) (p : ℕ) (copy : Copy → Zval × Copy)
      → k.use_serialization ≡ false
      → held k p ≡ false
      → copied_once zend k p copy ≡ copy k
  unfolding copied_once held
  once-copied k p copy w h =
      ap
        (λ (b : Bool).
          if b
          then copy_serialize zend k
          else elim (get_already_allocated k p) [ none ↦ copy k | some v ↦ (v, k) ])
        w
      ∙ missing (get_already_allocated k p) h
    where
      missing :
          (o : Option Zval)
          → is_some o ≡ false
          → elim o [ none ↦ copy k | some v ↦ (v, k) ] ≡ copy k
      missing none e = refl
      missing (some v) e = ground arith

  -- Under one address the passes go on together, where there is no empty array.
  pub once-Step :
      (env : ℕ → Zval) (c : Calc) (k : Copy) (z : Zval) (p : ℕ) (count : Calc → Bool × Calc)
      (copy : Copy → Zval × Copy)
      → is_empty_array (env p) ≡ false
      → Synced env c k
      → (counted_once zend serializer c z p count).0 ≡ true
      → ((count (calc_memoize c p).1).0 ≡ true
          → Step env (calc_memoize c p).1 (count (calc_memoize c p).1).1 (copy k).1)
      → Step env c (counted_once zend serializer c z p count).1 (copied_once zend k p copy).1
  unfolding Step Synced
  once-Step env c k z p count copy full s ok rest =
      let (m, u, w, a, t) = s in
      elim (Bool-cases (counted c p)) [
        | inl h ↦
            let found : held k p ≡ true = t p ∙ both h in
            subst (λ (r : Bool × Calc). Step env c r.1 (copied_once zend k p copy).1)
              (sym (once-counted c z p count u h))
              (subst (λ (l : Copy). Step env c c l) (sym (once-held k p copy w found))
                (s, Grows-refl c))
        | inr h ↦
            let missing : held k p ≡ false = t p ∙ ap (λ b. b && not (is_empty_array (env p))) h in
            let e = once-new c z p count u h in
            let next = rest (ap (λ (r : Bool × Calc). r.0) (sym e) ∙ ok) in
            subst (λ (r : Bool × Calc). Step env c r.1 (copied_once zend k p copy).1) (sym e)
              (subst (λ (l : Zval × Copy). Step env c (count (calc_memoize c p).1).1 l.1)
                (sym (once-copied k p copy w missing))
                (
                  next.0,
                  Grows-trans c (calc_memoize c p).1 (count (calc_memoize c p).1).1
                      (memoize-Grows c p) next.1,
                ))
      ]
    where
      both : counted c p ≡ true → counted c p && not (is_empty_array (env p)) ≡ true
      both h = rw (h, full)

  -- An empty array is counted, and never copied.
  pub once_empty-Step :
      (env : ℕ → Zval) (c : Calc) (k : Copy) (z v : Zval) (p : ℕ)
      → is_empty_array (env p) ≡ true
      → Synced env c k
      → Step env c
          (counted_once zend serializer c z p (λ d. (true, d))).1
          (copied_once zend k p (λ l. (v, l))).1
  unfolding Step Synced
  once_empty-Step env c k z v p empty s =
      let (m, u, w, a, t) = s in
      let missing : held k p ≡ false = t p ∙ neither (counted c p) in
      subst
        (λ (l : Zval × Copy).
          Step env c (counted_once zend serializer c z p (λ d. (true, d))).1 l.1)
        (sym (once-copied k p (λ l. (v, l)) w missing))
        (elim (Bool-cases (counted c p)) [
          | inl h ↦
              subst (λ (r : Bool × Calc). Step env c r.1 k)
                (sym (once-counted c z p (λ d. (true, d)) u h)) (s, Grows-refl c)
          | inr h ↦
              subst (λ (r : Bool × Calc). Step env c r.1 k)
                (sym (once-new c z p (λ d. (true, d)) u h))
                (mark_empty-Synced zend env p c k empty s, memoize-Grows c p)
        ])
    where
      neither : (b : Bool) → b && not (is_empty_array (env p)) ≡ false
      neither b = rw empty (ground arith)

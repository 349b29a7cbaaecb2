-- ===== src/Persist/Bounds.antt =====
-- The copy of a value fills the allocation that was made for it.
use apcu.Prelude.{
  ℕ, ◌+◌, ◌≡◌, refl, sym, ap, ◌∙◌, Bool, true, false, not, ◌&&◌, Option, none, some, if◌then◌else◌,
  is_some, inl, inr, Bool-cases, length, arith, List, [],
}
use mathlib.Core.Path.{subst}
use apcu.Cache.Types.{ZendString, Zval}
use apcu.Persist.Zend.{Zend, Serializer}
use apcu.Persist.Calc.{Calc, add_size, calc_zval, calc, contains}
use apcu.Persist.Copy.{Copy, persist_alloc, get_already_allocated, find_ptr}
use apcu.Persist.Entry.{first_context, second_context, copy_context, measured, create_entry}
use apcu.Persist.Sync.{Agrees, Synced, Grows, counted, held, is_empty_array}
use apcu.Persist.Once.{Step}
use apcu.Persist.Serialized.{zval_serialized-size, zval_serialized-flag}
use apcu.Persist.Exact.{zval-Step}

module _ (zend : Zend) (serializer : Option Serializer) where
  -- the contexts after the entry itself is counted and allocated
  entered : ZendString → Calc → Calc
  entered key c = add_size zend (zend.entry_size (length key.val)) c

  allocated : ZendString → Calc → Copy
  allocated key d = persist_alloc zend (zend.entry_size (length key.val)) (copy_context d)

  fresh-Synced :
      (env : ℕ → Zval) (key : ZendString) (c d : Calc)
      → c.size ≡ 0
      → c.already_counted ≡ []
      → c.use_serialization ≡ false
      → d.use_serialization ≡ false
      → d.memoization_needed ≡ c.memoization_needed
      → Synced env (entered key c) (allocated key d)
  unfolding Synced entered allocated add_size persist_alloc copy_context held counted
      get_already_allocated find_ptr contains
  fresh-Synced env key c d start empty u w m = (
    m,
    u,
    w,
    ap (λ s. s + zend.aligned_size (zend.entry_size (length key.val))) (sym start),
    λ p.
        nothing d.memoization_needed
        ∙ sym (
            nothing_counted c.memoization_needed (not (is_empty_array (env p))) c.already_counted p
              empty),
  )
    where
      no_zval : Option Zval
      no_zval = none

      nothing : (b : Bool) → is_some (if b then none else no_zval) ≡ false
      nothing b = ground arith

      nothing_counted :
          (b n : Bool) (xs : List ℕ) (p : ℕ) → xs ≡ [] → b && contains xs p && n ≡ false
      nothing_counted b n xs p e = ground arith

  -- a run of the two passes from a context without tables
  pass-size :
      (env : ℕ → Zval) (key : ZendString) (z : Zval) (c : Calc)
      → Agrees env z
      → c.size ≡ 0
      → c.already_counted ≡ []
      → (calc zend serializer key z c).0 ≡ true
      → (create_entry zend key z (copy_context (calc zend serializer key z c).1)).1.alloc_cur
        ≡ (calc zend serializer key z c).1.size
  unfolding calc create_entry Step Synced Grows entered allocated add_size copy_context
  pass-size env key z c agrees start empty ok =
      let d = (calc_zval zend serializer z (entered key c)).1 in
      elim (Bool-cases c.use_serialization) [
        | inl u ↦
            zval_serialized-size zend serializer z (entered key c) (allocated key d) u
              (zval_serialized-flag zend serializer z (entered key c) u)
              (ap (λ s. s + zend.aligned_size (zend.entry_size (length key.val))) (sym start)) ok
              refl
        | inr u ↦
            let once =
              zval-Step zend serializer env z (entered key c) (allocated key c) agrees
                (fresh-Synced env key c c start empty u u refl) ok in
            let again =
              zval-Step zend serializer env z (entered key c) (allocated key d) agrees
                (fresh-Synced env key c d start empty u once.0.1 once.1.0) ok in
            again.0.3
      ]

  -- A first pass that succeeds without a serialization leaves it so, and the tables in use.
  pub first_pass-plain :
      (env : ℕ → Zval) (key : ZendString) (z : Zval) (c : Calc)
      → Agrees env z
      → c.size ≡ 0
      → c.already_counted ≡ []
      → c.use_serialization ≡ false
      → (calc zend serializer key z c).0 ≡ true
      → ((calc zend serializer key z c).1.memoization_needed ≡ c.memoization_needed)
        × ((calc zend serializer key z c).1.use_serialization ≡ false)
  unfolding calc Step Synced Grows entered add_size
  first_pass-plain env key z c agrees start empty u ok =
      let once =
        zval-Step zend serializer env z (entered key c) (allocated key c) agrees
          (fresh-Synced env key c c start empty u u refl) ok in
      (once.1.0, once.0.1)

  -- Where what stands at an address is the same wherever it occurs in the value, and one of the
  -- passes of `apc_persist_calc` succeeds, the second pass ends exactly at the size that was counted.
  pub create_entry-fills :
      (env : ℕ → Zval) (key : ZendString) (z : Zval) (ctxt : Calc)
      → Agrees env z
      → measured zend serializer key z ≡ some ctxt
      → (create_entry zend key z (copy_context ctxt)).1.alloc_cur ≡ ctxt.size
  unfolding measured first_context
  create_entry-fills env key z ctxt agrees e =
      let first = calc zend serializer key z (first_context serializer z) in
      let second = calc zend serializer key z second_context in
      elim (Bool-cases first.0) [
        | inl ok ↦
            let same : first.1 ≡ ctxt = chosen₁ first second.0 second.1 ctxt ok e in
            subst (λ (d : Calc). (create_entry zend key z (copy_context d)).1.alloc_cur ≡ d.size)
              same (pass-size env key z (first_context serializer z) agrees refl refl ok)
        | inr failed ↦
            let again = chosen₂ first second.0 second.1 ctxt failed e in
            subst (λ (d : Calc). (create_entry zend key z (copy_context d)).1.alloc_cur ≡ d.size)
              again.1 (pass-size env key z second_context agrees refl refl again.0)
      ]
    where
      chosen₁ :
          (r : Bool × Calc) (b : Bool) (d c : Calc)
          → r.0 ≡ true
          → (if r.0
              then some r.1
              else if not r.1.use_serialization
              then none
              else if b
              then some d
              else none)
            ≡ some c
          → r.1 ≡ c
      chosen₁ r b d c ok h = ground arith

      chosen₂ :
          (r : Bool × Calc) (b : Bool) (d c : Calc)
          → r.0 ≡ false
          → (if r.0
              then some r.1
              else if not r.1.use_serialization
              then none
              else if b
              then some d
              else none)
            ≡ some c
          → (b ≡ true) × (d ≡ c)
      chosen₂ r b d c failed h = ground arith

-- ===== src/Persist/Steps.antt =====
-- What the two passes do to their contexts at each kind of value.
use apcu.Prelude.{
  ℕ, ◌≡◌, refl, sym, ap, ◌∙◌, Bool, true, false, Option, none, some, ◌==◌, if◌then◌else◌, inl, inr,
  Bool-cases, length, arith,
}
use mathlib.Core.Path.{subst}
use apcu.Cache.Types.{ZendString, Zval, array, HashInfo, Buckets, end}
use apcu.Persist.Zend.{Zend, Serializer, is_undef, is_indirect, num_of_elements, ht_data_size}
use apcu.Persist.Calc.{Calc, calc_memoize, add_size, add_size_str, add_key, calc_zval, calc_slot}
use apcu.Persist.Copy.{
  Copy, add_already_allocated, persist_alloc, copy_ht, copy_key, copy_zstr_no_add, copy_cstr,
  copy_zstr, copy_zval,
}
use apcu.Persist.Sync.{
  is_empty_array, Agrees, counted, Synced, Grows, Grows-refl, Grows-trans, alloc-Synced,
  mark-Synced, again-Synced,
}
use apcu.Persist.Once.{Step, once_empty-Step, size-Grows, memoize-there, add-alloc}

module _ (zend : Zend) (serializer : Option Serializer) (env : ℕ → Zval) where
  -- marking the address and allocating for it, in either order
  pub start-Synced :
      (n p : ℕ) (v : Zval) (c : Calc) (k : Copy)
      → is_empty_array (env p) ≡ false
      → Synced env c k
      → Synced env
          (add_size zend n (calc_memoize c p).1)
          (add_already_allocated p v (persist_alloc zend n k))
  start-Synced n p v c k full s =
      subst (λ (l : Copy). Synced env (add_size zend n (calc_memoize c p).1) l)
        (add-alloc zend n p v k)
        (alloc-Synced zend env n (calc_memoize c p).1 (add_already_allocated p v k)
          (mark-Synced zend env p v c k full s))

  pub full_at :
      (p : ℕ) (z : Zval) → env p ≡ z → is_empty_array z ≡ false → is_empty_array (env p) ≡ false
  full_at p z e h = ap is_empty_array e ∙ h

  pub string-Step :
      (p : ℕ) (s : ZendString) (c : Calc) (k : Copy)
      → is_empty_array (env p) ≡ false
      → Synced env c k
      → Step env
          (calc_memoize c p).1
          (add_size_str zend (length s.val) (calc_memoize c p).1)
          (copy_zstr zend p s k).1
  unfolding Step add_size_str copy_zstr copy_zstr_no_add copy_cstr
  string-Step p s c k full sync = (
    start-Synced (zend.zstr_struct_size (length s.val)) p (copy_zstr zend p s k).0 c k full sync,
    size-Grows zend (zend.zstr_struct_size (length s.val)) (calc_memoize c p).1,
  )

  pub key-Step :
      (key : Option (ℕ × ZendString)) (c : Calc) (k : Copy)
      → Synced env c k
      → Step env c (add_key zend key c) (copy_key zend key k).1
  unfolding Step add_key copy_key add_size_str copy_zstr_no_add copy_cstr
  key-Step none c k sync = (sync, Grows-refl c)
  key-Step (some (p, s)) c k sync = (
    alloc-Synced zend env (zend.zstr_struct_size (length s.val)) c k sync,
    size-Grows zend (zend.zstr_struct_size (length s.val)) c,
  )

  -- the complete tree enters the table at the end
  pub finish-Step :
      (p : ℕ) (v : Zval) (c d e : Calc) (k : Copy)
      → is_empty_array (env p) ≡ false
      → counted c p ≡ c.memoization_needed
      → Grows c d
      → Step env d e k
      → Step env c e (add_already_allocated p v k)
  unfolding Step Grows
  finish-Step p v c d e k full there grows (sync, grows') =
      let g = Grows-trans c d e grows grows' in
      (again-Synced zend env p v e k full (g.1 p there ∙ sym g.0) sync, g)

  pub empty-Step :
      (p : ℕ) (info : HashInfo) (bs : Buckets) (c : Calc) (k : Copy)
      → (num_of_elements bs == 0) ≡ true
      → Agrees env (array p info bs)
      → Synced env c k
      → Step env c
          (calc_zval zend serializer (array p info bs) c).1
          (copy_zval zend (array p info bs) k).1
  unfolding calc_zval copy_zval Agrees is_empty_array
  empty-Step p info bs c k h (a, as') sync = rw h (
      once_empty-Step zend serializer env c k (array p info bs) (array 0 info end) p
        (ap is_empty_array a ∙ h) sync)

  pub Step-trans : (c d e : Calc) (k l : Copy) → Step env c d k → Step env d e l → Step env c e l
  unfolding Step
  Step-trans c d e k l (s, g) (t, h) = (t, Grows-trans c d e g h)

  -- a bucket with a key, or a hole
  pub slot-Step :
      (z : Zval) (c : Calc) (k l : Copy) (r : Bool × Calc)
      → Synced env c k
      → (calc_slot z c r).0 ≡ true
      → (r.0 ≡ true → Step env c r.1 l)
      → Step env c (calc_slot z c r).1 (if is_undef z then k else l)
  unfolding Step calc_slot
  slot-Step z c k l r sync ok go = elim (Bool-cases (is_undef z)) [
    | inl h ↦ rw h (sync, Grows-refl c)
    | inr h ↦ elim (Bool-cases (is_indirect z)) [
      | inl i ↦ absurd (refused (is_undef z) (is_indirect z) h i ok)
      | inr i ↦ rw (h, i) (go (rw (h, i) at ok))
    ]
  ]
    where
      refused :
          (u i : Bool)
          → u ≡ false
          → i ≡ true
          → (if u
              then (true, c)
              else if i
              then (false, record c { use_serialization = true })
              else r).0
            ≡ true
          → ⊥
      refused u i h j e = ground arith

  pub still-Step : (c : Calc) (k : Copy) → Synced env c k → Step env c c k
  unfolding Step
  still-Step c k s = (s, Grows-refl c)

  -- the loops stop at the first value that cannot be copied
  pub went_on :
      (r rest : Bool × Calc)
      → (if r.0 then rest else (false, r.1)).0 ≡ true
      → (r.0 ≡ true) × ((if r.0 then rest else (false, r.1)) ≡ rest)
  went_on (true, d) rest ok = (refl, refl)
  went_on (false, d) rest ok = ground arith

  -- what a loop over the values of a table does
  abbrev Loop : (Calc → Bool × Calc) → (Copy → Buckets × (HashInfo × Copy)) → Type 0
  Loop count copy =
      (c : Calc) (k : Copy)
      → Synced env c k
      → (count c).0 ≡ true
      → Step env c (count c).1 (copy k).1.1

  pub either-Loop :
      (b : Bool) (f g : Calc → Bool × Calc) (f' g' : Copy → Buckets × (HashInfo × Copy))
      → Loop f f'
      → Loop g g'
      → Loop (λ c. if b then f c else g c) (if b then f' else g')
  either-Loop true f g f' g' left right = left
  either-Loop false f g f' g' left right = right

  pub ht-Step :
      (p : ℕ) (info : HashInfo) (bs : Buckets) (c : Calc) (k : Copy) (count : Calc → Bool × Calc)
      (copy : Copy → Buckets × (HashInfo × Copy))
      → is_empty_array (env p) ≡ false
      → Synced env c k
      → Loop count copy
      → (count (
          add_size zend
            (ht_data_size zend info bs)
            (add_size zend zend.sizeof_hash_table (calc_memoize c p).1))).0
        ≡ true
      → Step env
          (calc_memoize c p).1
          (count (
            add_size zend
              (ht_data_size zend info bs)
              (add_size zend zend.sizeof_hash_table (calc_memoize c p).1))).1
          (copy_ht zend p info bs copy k).1
  unfolding copy_ht
  ht-Step p info bs c k count copy full s loop ok =
      let c₁ = (calc_memoize c p).1 in
      let c₂ = add_size zend zend.sizeof_hash_table c₁ in
      let n = ht_data_size zend info bs in
      let k₂ =
        add_already_allocated p (array k.alloc_cur info end)
          (persist_alloc zend zend.sizeof_hash_table k) in
      let s₂ = start-Synced zend.sizeof_hash_table p (array k.alloc_cur info end) c k full s in
      let done =
        loop (add_size zend n c₂) (persist_alloc zend n k₂) (alloc-Synced zend env n c₂ k₂ s₂) ok in
      let r = copy (persist_alloc zend n k₂) in
      finish-Step p (array k.alloc_cur r.1.0 r.0) c₁ (add_size zend n c₂)
        (count (add_size zend n c₂)).1 r.1.1 full (memoize-there c p)
        (Grows-trans c₁ c₂ (add_size zend n c₂) (size-Grows zend zend.sizeof_hash_table c₁)
          (size-Grows zend n c₂))
        done

  pub never : false ≡ true → ⊥
  never e = ground arith

  pub synced : (c d : Calc) (k : Copy) → Step env c d k → Synced env d k
  unfolding Step
  synced c d k s = s.0

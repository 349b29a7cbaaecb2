-- ===== src/Sma/Malloc/Laws.antt =====
-- The restarts of `apc_sma_malloc`.
use apcu.Prelude.{
  ℕ, zero, suc, ◌≡◌, refl, Bool, true, false, Option, none, some, ltb, Bool-cases, inl, inr, ◌⊎◌,
}
use apcu.Sma.Malloc.{Attempt, no_lock, full, got, malloc}

-- the answer of one try
abbrev Answer {ℓ} : {S : Type ℓ} → Attempt S → Type ℓ
Answer {S} r = (r ≡ no_lock) ⊎ (((s : S) × (r ≡ full s)) ⊎ ((ptr : ℕ) × (s : S) × (r ≡ got ptr s)))

pub Attempt-cases {ℓ} : {S : Type ℓ} (r : Attempt S) → Answer r
Attempt-cases no_lock = inl refl
Attempt-cases (full s) = inr (inl (s, refl))
Attempt-cases (got ptr s) = inr (inr (ptr, s, refl))

module _ {S : Type 0} (max_alloc_size : S → ℕ) (try_malloc : S → ℕ → Attempt S)
    (expunge : S → ℕ → Bool × S) where
  -- Once the memory was expunged there is no further restart.
  malloc_nuked :
      (k : ℕ) (nuked : Bool) (s : S) (n : ℕ)
      → nuked ≡ true
      → (r : Option ℕ × S) × (malloc max_alloc_size try_malloc expunge (suc k) nuked s n ≡ some r)
  unfolding malloc
  malloc_nuked k nuked s n once = elim (Bool-cases (ltb (max_alloc_size s) n)) [
    | inl big ↦ ((none, s), rw (big, malloc))
    | inr fits ↦ elim (Attempt-cases (try_malloc s n)) [
      | inl e ↦ ((none, s), rw (fits, malloc, e))
      | inr (inl (s', e)) ↦ ((none, s'), rw (fits, malloc, e, once))
      | inr (inr (ptr, s', e)) ↦ ((some ptr, s'), rw (fits, malloc, e))
    ]
  ]

  -- An allocation ends within two tries if the expunge callback reports that it did its work.
  pub malloc_total :
      ((s : S) (n : ℕ) → (expunge s n).0 ≡ true)
      → (k : ℕ) (s : S) (n : ℕ)
      → (r : Option ℕ × S) × (malloc max_alloc_size try_malloc expunge (suc (suc k)) false s n
          ≡ some r)
  unfolding malloc
  malloc_total works k s n = elim (Bool-cases (ltb (max_alloc_size s) n)) [
    | inl big ↦ ((none, s), rw (big, malloc))
    | inr fits ↦ elim (Attempt-cases (try_malloc s n)) [
      | inl e ↦ ((none, s), rw (fits, malloc, e))
      | inr (inl (s', e)) ↦
          let (r, done) = malloc_nuked k (expunge s' n).0 (expunge s' n).1 n (works s' n) in
          (r, rw (fits, malloc, e) done)
      | inr (inr (ptr, s', e)) ↦ ((some ptr, s'), rw (fits, malloc, e))
    ]
  ]

  -- What the tries and the expunge keep holds at the end of the allocation.
  pub malloc_inv :
      (P : S → Type 0)
      → ((s s' : S) (n ptr : ℕ) → P s → try_malloc s n ≡ got ptr s' → P s')
      → ((s s' : S) (n : ℕ) → P s → try_malloc s n ≡ full s' → P s')
      → ((s : S) (n : ℕ) → P s → P (expunge s n).1)
      → (k : ℕ) (nuked : Bool) (s : S) (n : ℕ) (r : Option ℕ × S) → P s
      → malloc max_alloc_size try_malloc expunge k nuked s n ≡ some r
      → P r.1
  unfolding malloc
  malloc_inv P gets fills expunges zero nuked s n r h e = cc
  malloc_inv P gets fills expunges (suc k) nuked s n r h e =
      elim (Bool-cases (ltb (max_alloc_size s) n)) [
        | inl big ↦ let same : s ≡ r.1 = cc (rw (big, malloc) at e) in rw (← same) h
        | inr fits ↦ elim (Attempt-cases (try_malloc s n)) [
          | inl f ↦ let same : s ≡ r.1 = cc (rw (fits, malloc, f) at e) in rw (← same) h
          | inr (inr (ptr, s', f)) ↦
              let same : s' ≡ r.1 = cc (rw (fits, malloc, f) at e) in
              rw (← same) (gets s s' n ptr h f)
          | inr (inl (s', f)) ↦ elim (Bool-cases nuked) [
            | inl second ↦
                let same : s' ≡ r.1 = cc (rw (fits, malloc, f, second) at e) in
                rw (← same) (fills s s' n h f)
            | inr first ↦
                malloc_inv P gets fills expunges k (expunge s' n).0 (expunge s' n).1 n r
                  (expunges s' n (fills s s' n h f)) (rw (fits, malloc, f, first) at e)
          ]
        ]
      ]

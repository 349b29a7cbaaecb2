-- ===== src/Cache/Create/Primes.antt =====
-- The number of slots.
use apcu.Prelude.{
  OneOf, ℕ, ◌≤◌, ◌<◌, ◌≡◌, refl, sym, List, [], ◌∷◌, arith, ltb, Bool-cases, inl, inr, ◌⊎◌,
}
use apcu.Cache.Create.{primes, prime_loop, make_prime}

-- the numbers ascend from `last` on
abbrev Ascends : ℕ → List ℕ → Type 0
Ascends last [] = Unit
Ascends last (k ∷ ks) = (last < k) × Ascends k ks

-- every number of the list that exceeds `n` is at least `p`
abbrev pub LeastAbove : ℕ → ℕ → List ℕ → Type 0
LeastAbove n p [] = Unit
LeastAbove n p (k ∷ ks) = (n < k → p ≤ k) × LeastAbove n p ks

LeastAbove-of_le : (n p last : ℕ) (ks : List ℕ) → Ascends last ks → p ≤ last → LeastAbove n p ks
LeastAbove-of_le n p last [] up h = tt
LeastAbove-of_le n p last (k ∷ ks) up h =
    ((λ _. omega arith), LeastAbove-of_le n p k ks up.1 (omega arith))

-- no number of the list exceeds `n`
abbrev pub AllBelow : ℕ → List ℕ → Type 0
AllBelow n [] = Unit
AllBelow n (k ∷ ks) = (k ≤ n) × AllBelow n ks

-- the loop stops at the least number above `n`, or else at the greatest number
prime_loop-least :
    (n last p : ℕ) (ks : List ℕ)
    → prime_loop n last ks ≡ p
    → Ascends last ks
    → last ≤ n
    → (OneOf p ks × (n < p) × LeastAbove n p ks)
      ⊎ (((p ≡ last) ⊎ OneOf p ks) × (last ≤ p) × (p ≤ n) × AllBelow p ks)
unfolding prime_loop
prime_loop-least n last p [] e up h = inr (inl (sym e), omega (arith, e), omega (arith, e), tt)
prime_loop-least n last p (k ∷ ks) e up h = elim (Bool-cases (ltb n k)) [
  | inl above ↦
      let found : k ≡ p = rw above at e in
      inl (
        inl (sym found),
        ground arith,
        ((λ _. omega arith), LeastAbove-of_le n p k ks up.1 (omega arith)),
      )
  | inr below ↦
      let small : k ≤ n = ground arith in
      elim (prime_loop-least n k p ks (rw below at e) up.1 (ground arith)) [
        | inl (here, more, least) ↦
            inl (inr here, more, ((λ more_than. absurd (omega arith)), least))
        | inr (at, above, less, all) ↦ inr (inr at, omega arith, less, (above, all))
      ]
]

primes_ascend : Ascends 0 primes
primes_ascend = omega arith

-- The number of slots is the least number of the table above the hint; for a hint that no number
-- of the table exceeds it is the greatest one.
pub make_prime-least :
    (n : ℕ)
    → (OneOf (make_prime n) primes × (n < make_prime n) × LeastAbove n (make_prime n) primes)
      ⊎ (OneOf (make_prime n) primes × (make_prime n ≤ n) × AllBelow (make_prime n) primes)
unfolding make_prime
make_prime-least n =
    elim (prime_loop-least n 0 (make_prime n) primes refl primes_ascend (omega arith)) [
      | inl found ↦ inl found
      | inr (inl nil, _, _, below) ↦ absurd (omega (arith, nil, below.0))
      | inr (inr at, _, less, below) ↦ inr (at, less, below)
    ]

-- ===== src/Mmap/Digits.antt =====
-- What the conjunction of binary digits says of a power of 2, and of a mask of ones.
use apcu.Prelude.{
  ℕ, zero, suc, ◌+◌, ◌-◌, ◌*◌, ◌/◌, ◌%◌, ◌^◌, ◌<◌, ◌≤◌, ◌≡◌, refl, sym, ap, ◌∙◌, ◌⊎◌, inl, inr,
  arith,
}
use Prim.Native.Nat.{min, digits, bit_and, bit_and-bitwise}
use native.Mathlib.Omega.{pow_step}
use native.Mathlib.Nat.{one-le-pow}

-- the digits in common, counted from the lowest one, of numbers of at most `width` digits
unfoldable and_digits : (width a b : ℕ) → ℕ
and_digits zero a b = 0
and_digits (suc width) a b = a % 2 * (b % 2) + 2 * and_digits width (a / 2) (b / 2)

-- a number of fewer digits is its own conjunction with itself
and_digits_self : (width a : ℕ) → a < 2 ^ width → and_digits width a a ≡ a
unfolding and_digits
and_digits_self zero a h = omega arith
and_digits_self (suc width) a h =
    let low : a / 2 < 2 ^ width = omega (arith, pow_step 2 width) in
    rw (and_digits_self width (a / 2) low)
      (elim parity [ inl even ↦ rw even (omega arith) | inr odd ↦ rw odd (omega arith) ])
  where
    parity : (a % 2 ≡ 0) ⊎ (a % 2 ≡ 1)
    parity = omega arith

and_digits-zero : (width b : ℕ) → and_digits width 0 b ≡ 0
unfolding and_digits
and_digits-zero zero b = refl
and_digits-zero (suc width) b = rw (and_digits-zero width (b / 2)) (omega arith)

-- a positive number that shares no digit with the number before it is a power of 2
and_digits_power :
    (width s : ℕ) → suc s < 2 ^ width → and_digits width (suc s) s ≡ 0 → (k : ℕ) × (suc s ≡ 2 ^ k)
unfolding and_digits
and_digits_power zero s h e = absurd (omega arith)
and_digits_power (suc width) s h e = elim parity [
  | inl odd ↦
      let same : suc s / 2 ≡ s / 2 = omega arith in
      let low : s / 2 < 2 ^ width = omega (arith, pow_step 2 width) in
      let half : and_digits width (suc s / 2) (s / 2) ≡ s / 2 =
        ap (λ a. and_digits width a (s / 2)) same ∙ and_digits_self width (s / 2) low in
      (0, omega arith)
  | inr even ↦
      let up : suc s / 2 ≡ suc (s / 2) = omega arith in
      let low : suc (s / 2) < 2 ^ width = omega (arith, pow_step 2 width) in
      let none_shared : and_digits width (suc (s / 2)) (s / 2) ≡ 0 =
        sym (ap (λ a. and_digits width a (s / 2)) up) ∙ omega arith in
      let half = and_digits_power width (s / 2) low none_shared in
      (suc half.0, omega (arith, pow_step 2 half.0))
]
  where
    parity : (s % 2 ≡ 0) ⊎ (s % 2 ≡ 1)
    parity = omega arith

-- The system's operation goes through the digits of its first number.
digit_product : (a b : ℕ) → min (a % 2) (b % 2) ≡ a % 2 * (b % 2)
digit_product a b = elim parity [
  | inl even ↦ rw even (omega arith)
  | inr odd ↦ rw odd (omega arith)
]
  where
    parity : (a % 2 ≡ 0) ⊎ (a % 2 ≡ 1)
    parity = omega arith

digits-and_digits :
    (width n a b : ℕ) → a ≤ n → a < 2 ^ width → digits (λ y. 0) min n a b ≡ and_digits width a b
unfolding and_digits
digits-and_digits width zero zero b le h = sym (and_digits-zero width b)
digits-and_digits width (suc n) zero b le h = sym (and_digits-zero width b)
digits-and_digits width zero (suc a) b le h = absurd (omega arith)
digits-and_digits zero (suc n) (suc a) b le h = absurd (omega arith)
digits-and_digits (suc width) (suc n) (suc a) b le h =
    let low : suc a / 2 < 2 ^ width = omega (arith, pow_step 2 width) in
    omega (
      arith,
      digit_product (suc a) b,
      digits-and_digits width n (suc a / 2) (b / 2) (omega arith) low,
    )

bit_and-and_digits : (width a b : ℕ) → a < 2 ^ width → bit_and a b ≡ and_digits width a b
bit_and-and_digits width a b h = bit_and-bitwise a b ∙ digits-and_digits width a a b (omega arith) h

-- a mask of `m` ones keeps the numbers of `m` digits
and_digits_ones : (width m a : ℕ) → m ≤ width → a < 2 ^ m → and_digits width a (2 ^ m - 1) ≡ a
unfolding and_digits
and_digits_ones zero zero a le h = omega arith
and_digits_ones zero (suc m) a le h = absurd (omega arith)
and_digits_ones (suc width) zero a le h =
    rw (digits) (and_digits_self (suc width) 0 (one-le-pow (suc width) 2 (omega arith)))
  where
    digits : a ≡ 0
    digits = omega arith
and_digits_ones (suc width) (suc m) a le h =
    let low : a / 2 < 2 ^ m = omega (arith, pow_step 2 m) in
    rw (odd, half, and_digits_ones width m (a / 2) (omega arith) low) (omega arith)
  where
    some_power : 1 ≤ 2 ^ m
    some_power = one-le-pow m 2 (omega arith)

    odd : (2 ^ suc m - 1) % 2 ≡ 1
    odd = omega (arith, pow_step 2 m, some_power)

    half : (2 ^ suc m - 1) / 2 ≡ 2 ^ m - 1
    half = omega (arith, pow_step 2 m, some_power)

pub bit_and_power :
    (width s : ℕ) → suc s < 2 ^ width → bit_and (suc s) s ≡ 0 → (k : ℕ) × (suc s ≡ 2 ^ k)
bit_and_power width s h e =
    and_digits_power width s h (sym (bit_and-and_digits width (suc s) s h) ∙ e)

pub bit_and_ones : (m a : ℕ) → a < 2 ^ m → bit_and a (2 ^ m - 1) ≡ a
bit_and_ones m a h = bit_and-and_digits m a (2 ^ m - 1) h ∙ and_digits_ones m m a (omega arith) h

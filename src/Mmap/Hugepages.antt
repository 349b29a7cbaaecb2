-- ===== src/Mmap/Hugepages.antt =====
-- The setting apc.mmap_hugepage_size, and the flags of the mapping that follow from it.
use apcu.Prelude.{
  ℕ, zero, suc, ◌+◌, ◌-◌, ◌/◌, ◌%◌, ◌^◌, ◌<◌, ◌≤◌, ◌≡◌, refl, sym, ap, ◌∙◌, ◌⊎◌, inl, inr, true,
  false, none, some, ◌==◌, ==_iff, ◌||◌, not, if◌then◌else◌, Bool-cases, arith,
}
use apcu.Prelude.Int.{ℤ, pos, negsuc}
use apcu.Mmap.{
  on_update_mmap_hugepage_size, log2_loop, apc_mmap_hugepage_flags, HugepageFlags, huge, refused,
  size_no_multiple, invalid_hugepage_size,
}
use apcu.Mmap.Digits.{bit_and_power, bit_and_ones}
use Prim.Native.Nat.{bit_and, bit_and-bitwise}
use native.Mathlib.Omega.{pow_step}
use native.Mathlib.Nat.{one-le-pow, pow-le-pow_right}

log2_loop-zero : (fuel rounds : ℕ) → log2_loop fuel 0 rounds ≡ some rounds
unfolding log2_loop
log2_loop-zero zero rounds = refl
log2_loop-zero (suc fuel) rounds = refl

power_half : (k : ℕ) → 2 ^ suc k / 2 ≡ 2 ^ k
power_half k = omega (arith, pow_step 2 k)

power_pos : (k : ℕ) → (2 ^ k == 0) ≡ false
power_pos k = let h : 1 ≤ 2 ^ k = one-le-pow k 2 (omega arith) in ground arith

log2_loop_power :
    (fuel k rounds : ℕ) → k < fuel → log2_loop fuel (2 ^ k) rounds ≡ some (rounds + k + 1)
unfolding log2_loop
log2_loop_power zero k rounds h = absurd (omega arith)
log2_loop_power (suc fuel) zero rounds h = log2_loop-zero fuel (rounds + 1) ∙ ap some (omega arith)
log2_loop_power (suc fuel) (suc k) rounds h =
    rw (power_pos (suc k), power_half k)
      (log2_loop_power fuel k (rounds + 1) (omega arith) ∙ ap some (omega arith))

-- the loop ends
pub log2_loop_ends :
    (fuel p rounds : ℕ) → p < 2 ^ fuel → (r : ℕ) × (log2_loop fuel p rounds ≡ some r)
unfolding log2_loop
log2_loop_ends zero p rounds h = rw (the_zero) (rounds, refl)
  where
    the_zero : p ≡ 0
    the_zero = omega arith
log2_loop_ends (suc fuel) p rounds h = elim (Bool-cases (p == 0)) [
  | inl nil ↦ (rounds, rw nil refl)
  | inr more ↦
      let low : p / 2 < 2 ^ fuel = omega (arith, pow_step 2 fuel) in
      rw more (log2_loop_ends fuel (p / 2) (rounds + 1) low)
]

power_below : (k : ℕ) → 2 ^ k < 2 ^ 63 → k < 63
power_below k h = elim at_least [
  | inl below ↦ below
  | inr above ↦
      absurd
        (let more : 2 ^ 63 ≤ 2 ^ k = pow-le-pow_right {n = 2} (omega arith) above in omega arith)
]
  where
    at_least : (k < 63) ⊎ (63 ≤ k)
    at_least = omega arith

-- an accepted setting is 0 or a power of 2
hugepage_size_power :
    (s : ℤ) (h : ℕ)
    → on_update_mmap_hugepage_size s ≡ some h
    → h < 2 ^ 63
    → (h ≡ 0) ⊎ ((k : ℕ) × (k < 63) × (h ≡ 2 ^ k))
unfolding on_update_mmap_hugepage_size
hugepage_size_power (negsuc s) h e small = absurd (cc)
hugepage_size_power (pos zero) h e small =
    let kept : on_update_mmap_hugepage_size (pos 0) ≡ some 0 =
      rw (bit_and-bitwise 0 (0 - 1)) refl in
    let same : 0 ≡ h = cc in inl (sym same)
hugepage_size_power (pos (suc s)) h e small = elim (Bool-cases (bit_and (suc s) (suc s - 1) == 0)) [
  | inl t ↦
      let kept : on_update_mmap_hugepage_size (pos (suc s)) ≡ some (suc s) = rw t refl in
      let same : suc s ≡ h = cc in
      let before : suc s - 1 ≡ s = omega arith in
      let shares_none : bit_and (suc s) s ≡ 0 =
        ap (λ b. bit_and (suc s) b) (sym before) ∙ (==_iff (bit_and (suc s) (suc s - 1)) 0).0 t in
      let p = bit_and_power 64 s (omega arith) shares_none in
      inr (p.0, power_below p.0 (omega arith), omega arith)
  | inr f ↦
      let failed : on_update_mmap_hugepage_size (pos (suc s)) ≡ none = rw f refl in absurd (cc)
]

-- Where MAP_HUGE_MASK is 63, and for a setting below 2^63 that OnUpdateMmapHugepageSize accepts,
-- apc_mmap_hugepage_flags ends: for 0 it adds no flag; otherwise the setting is 2^k, and it adds
-- MAP_HUGETLB with k, but ends in an error where the setting does not divide the size, and where it
-- is 1.
pub hugepage_flags_accepted :
    (size : ℕ) (s : ℤ) (h : ℕ)
    → on_update_mmap_hugepage_size s ≡ some h
    → h < 2 ^ 63
    → ((h ≡ 0) × (apc_mmap_hugepage_flags 63 size h ≡ some (huge none)))
      ⊎ ((k : ℕ) × (h ≡ 2 ^ k)
          × (apc_mmap_hugepage_flags 63 size h
              ≡ some (
                  if not (size % h == 0)
                  then refused size_no_multiple
                  else if k == 0
                  then refused invalid_hugepage_size
                  else huge (some k))))
unfolding apc_mmap_hugepage_flags
hugepage_flags_accepted size s h e small = elim (hugepage_size_power s h e small) [
  | inl nil ↦ inl (nil, rw nil refl)
  | inr p ↦ inr (p.0, p.2, rw p.2 (of_power p.0 p.1))
]
  where
    one_page :
        (k : ℕ)
        → some (if k == 0 || false then refused invalid_hugepage_size else huge (some k))
          ≡ some (if k == 0 then refused invalid_hugepage_size else huge (some k))
    one_page k = ground arith

    of_power :
        (k : ℕ)
        → k < 63
        → apc_mmap_hugepage_flags 63 size (2 ^ k)
          ≡ some (
              if not (size % 2 ^ k == 0)
              then refused size_no_multiple
              else if k == 0
              then refused invalid_hugepage_size
              else huge (some k))
    of_power k below =
        let back : 0 + k + 1 - 1 ≡ k = omega arith in
        let fits : (bit_and k 63 == k) ≡ true =
          (==_iff (bit_and k 63) k).1 (bit_and_ones 6 k (omega arith)) in
        elim (Bool-cases (size % 2 ^ k == 0)) [
          | inl multiple ↦
              rw (power_pos k, multiple, log2_loop_power 64 k 0 (omega arith), back, fits)
                (one_page k)
          | inr other ↦ rw (power_pos k, other) refl
        ]

unfoldable flags_of : (huge_mask k : ℕ) → HugepageFlags
flags_of huge_mask k =
    if k == 0 || not (bit_and k huge_mask == k)
    then refused invalid_hugepage_size
    else huge (some k)

-- the flags end for each size of a page, whether the setting would accept it or not
pub hugepage_flags_ends :
    (huge_mask size h : ℕ)
    → h < 2 ^ 63
    → (f : HugepageFlags) × (apc_mmap_hugepage_flags huge_mask size h ≡ some f)
unfolding apc_mmap_hugepage_flags flags_of
hugepage_flags_ends huge_mask size h small = elim (Bool-cases (h == 0)) [
  | inl nil ↦ (huge none, rw nil refl)
  | inr page ↦ elim (Bool-cases (size % h == 0)) [
    | inl multiple ↦
        let r = log2_loop_ends 64 h 0 (omega arith) in
        (flags_of huge_mask (r.0 - 1), rw (page, multiple, r.1) refl)
    | inr other ↦ (refused size_no_multiple, rw (page, other) refl)
  ]
]

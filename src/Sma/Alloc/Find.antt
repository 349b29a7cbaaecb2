-- ===== src/Sma/Alloc/Find.antt =====
-- What `find_block` finds in the free list.
use apcu.Prelude.{
  OneOf, ℕ, zero, suc, ◌≤◌, ◌<◌, ◌≡◌, refl, sym, false, Option, none, some, List, [], ◌∷◌, arith,
  length, ltb, leb, ◌==◌, ◌&&◌, Bool-cases, inl, inr, ◌⊎◌,
}
use mathlib.Core.Path.{subst}
use apcu.Sma.Platform.{Platform, first_block}
use apcu.Sma.Block.{Segment}
use apcu.Sma.Block.FreeList.{Chain, AllSmaller}
use apcu.Sma.Alloc.{first_fit, best_fit, best_fit_limit, find_block}

module _ (seg : Segment) (n : ℕ) where
  -- the walk ends before the fuel does: at the end of the list, or at a block that fits
  FirstFit : List ℕ → Option (Option ℕ) → Type 0
  FirstFit bs r =
      (AllSmaller seg n bs × (r ≡ some none))
      ⊎ ((b : ℕ) × (after : List ℕ) × (r ≡ some (some b))
          × OneOf b bs
          × ((x : ℕ) → OneOf x after → OneOf x bs)
          × Chain seg b after
          × (n ≤ (seg.block_at b).size))

  first_fit_lem :
      (fuel cur : ℕ) (bs : List ℕ) (r : Option (Option ℕ))
      → Chain seg cur bs
      → length bs < fuel
      → first_fit fuel seg n cur ≡ r
      → FirstFit bs r
  unfolding FirstFit first_fit
  first_fit_lem zero cur bs r c h e = absurd (omega arith)
  first_fit_lem (suc fuel) cur [] r c h e = inl (tt, sym (rw c at e))
  first_fit_lem (suc fuel) cur (b ∷ bs) r (next, pos, d) h e =
      let real : (b == 0) ≡ false = ground arith in
      elim (Bool-cases (leb n (seg.block_at b).size)) [
        | inl fits ↦
            inr (b, bs, sym (rw (next, real, fits) at e), inl refl, (λ x m. inr m), d, ground arith)
        | inr less ↦
            let small : (seg.block_at b).size < n = ground arith in
            let e' : first_fit fuel seg n b ≡ r = rw (next, real, less) at e in
            elim (first_fit_lem fuel b bs r d (omega arith) e') [
              | inl (all, q) ↦ inl ((small, all), q)
              | inr (x, after, q, m, up, d', fits) ↦
                  inr (x, after, q, inr m, (λ y i. inr (up y i)), d', fits)
            ]
      ]

  -- the rounds of the best fit stay in the list, and never take a larger block
  best_fit_lem :
      (i cur found r : ℕ) (bs : List ℕ)
      → Chain seg cur bs
      → n ≤ (seg.block_at found).size
      → best_fit i seg n cur found ≡ r
      → ((r ≡ found) ⊎ OneOf r bs)
        × (n ≤ (seg.block_at r).size)
        × ((seg.block_at r).size ≤ (seg.block_at found).size)
  unfolding best_fit
  best_fit_lem zero cur found r bs c h e = (inl (sym e), rw (← e) h, rw (← e) (omega arith))
  best_fit_lem (suc i) cur found r [] c h e =
      let e' : found ≡ r = rw c at e in (inl (sym e'), rw (← e') h, rw (← e') (omega arith))
  best_fit_lem (suc i) cur found r (b ∷ bs) (next, pos, d) h e =
      let real : (b == 0) ≡ false = ground arith in
      elim (Bool-cases
        (leb n (seg.block_at b).size && ltb (seg.block_at b).size (seg.block_at found).size)) [
          | inl better ↦
              let e' : best_fit i seg n b b ≡ r = rw (next, real, better) at e in
              let fits : n ≤ (seg.block_at b).size = ground arith in
              let less : (seg.block_at b).size ≤ (seg.block_at found).size = ground arith in
              let (m, fits', less') = best_fit_lem i b b r bs d fits e' in
              (elim m [ inl same ↦ inr (inl same) | inr m' ↦ inr (inr m') ], fits', omega arith)
          | inr worse ↦
              let e' : best_fit i seg n b found ≡ r = rw (next, real, worse) at e in
              let (m, fits, less) = best_fit_lem i b found r bs d h e' in
              elim m [ inl same ↦ (inl same, fits, less) | inr m' ↦ (inr (inr m'), fits, less) ]
        ]

  module _ ⦃p : Platform⦄ where
    -- If the free list ends within the fuel, a search ends. It fails if the segment has fewer
    -- than `n` free bytes or every free block has less than `n`. Else it gives a free block of at
    -- least `n` bytes.
    pub find_block-fits :
        (fuel : ℕ) (bs : List ℕ)
        → Chain seg first_block bs
        → length bs < fuel
        → (((seg.avail < n) ⊎ AllSmaller seg n bs) × (find_block fuel seg n ≡ some none))
          ⊎ ((n ≤ seg.avail)
              × ((b : ℕ) × (find_block fuel seg n ≡ some (some b))
                  × OneOf b bs
                  × (n ≤ (seg.block_at b).size)))
    unfolding find_block FirstFit
    find_block-fits fuel bs c h = elim (Bool-cases (ltb seg.avail n)) [
      | inl short ↦ inl (inl (ground arith), rw short)
      | inr enough ↦
          let most : n ≤ seg.avail = ground arith in
          elim (first_fit_lem fuel first_block bs _ c h refl) [
            | inl (all, e) ↦ inl (inr all, rw (enough, e))
            | inr (b, after, e, m, up, d, fits) ↦
                let (m', fits', less) = best_fit_lem best_fit_limit b b _ after d fits refl in
                let listed = elim m' as (λ _. OneOf (best_fit best_fit_limit seg n b b) bs) [
                  | inl same ↦ subst (λ x. OneOf x bs) (sym same) m
                  | inr m'' ↦ up _ m''
                ] in
                inr (most, (best_fit best_fit_limit seg n b b, rw (enough, e), listed, fits'))
          ]
    ]

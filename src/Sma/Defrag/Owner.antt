-- ===== src/Sma/Defrag/Owner.antt =====
-- What a defragmentation does to the data of its owner.
use apcu.Prelude.{ℕ, zero, suc, ◌+◌, ◌≡◌, Bool, some, ◌==◌, Bool-cases, Option-cases, inl, inr}
use apcu.Sma.Platform.{Platform, block_header, first_block}
use apcu.Sma.Block.{Segment, next_sblock}
use apcu.Sma.Defrag.{Progress, empty_free_list, defrag_loop, defrag}

module _ ⦃p : Platform⦄ {D : Type 0} (move : D → ℕ → ℕ → Bool × D) (P : D → Type 0)
    (keeps : (d : D) (old new : ℕ) → P d → P (move d old new).1) where
  loop-owner :
      (fuel cur : ℕ) (st r : Progress D)
      → P st.owner
      → defrag_loop move fuel cur st ≡ some r
      → P r.owner
  unfolding defrag_loop
  loop-owner zero cur st r h e = cc
  loop-owner (suc fuel) cur st r h e =
      let seg = st.seg in
      let nxt = next_sblock seg cur in
      let answer = move st.owner (nxt + block_header) (cur + block_header) in
      elim (Bool-cases ((seg.block_at cur).size == 0)) [
        | inl last ↦
            let same : some st ≡ some r = rw (last, defrag_loop) at e in
            let same' : st ≡ r = cc in rw (← same') h
        | inr more ↦ elim (Bool-cases ((seg.block_at cur).fnext == 0)) [
          | inl used ↦ loop-owner fuel nxt st r h (rw (more, defrag_loop, used) at e)
          | inr unused ↦ elim (Bool-cases ((seg.block_at nxt).size == 0)) [
            | inl end ↦ loop-owner fuel _ _ r h (rw (more, defrag_loop, unused, end) at e)
            | inr inside ↦ elim (Bool-cases answer.0) [
              | inl moved ↦
                  loop-owner fuel _ _ r (keeps st.owner _ _ h)
                    (rw (more, defrag_loop, unused, inside, moved) at e)
              | inr pinned ↦
                  loop-owner fuel _ _ r (keeps st.owner _ _ h)
                    (rw (more, defrag_loop, unused, inside, pinned) at e)
            ]
          ]
        ]
      ]

  -- whatever the callback keeps holds of the owner's data at the end
  pub defrag-owner :
      (fuel sma_size : ℕ) (seg : Segment) (d : D)
      → P d
      → (r : Segment × D) → defrag move fuel sma_size seg d ≡ some r
      → P r.1
  unfolding defrag
  defrag-owner fuel sma_size seg d h r e =
      let start : Progress D = record {
        seg = empty_free_list sma_size seg;
        owner = d;
        reclaimed_size = 0;
      } in
      elim (Option-cases (defrag_loop move fuel (first_block + block_header) start)) [
        | inl stuck ↦ cc (rw (stuck, defrag) at e)
        | inr (st, ends) ↦
            let same : st.owner ≡ r.1 = cc (rw (ends, defrag) at e) in
            rw (← same) (loop-owner fuel (first_block + block_header) start st h ends)
      ]

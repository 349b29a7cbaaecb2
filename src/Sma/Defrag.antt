-- ===== src/Sma/Defrag.antt =====
-- `apc_sma_defrag` (apc_sma.c). The callback `move` threads the state `D` of its owner; what
-- `memmove` copies beside the block header is that owner's data, which the callback moves.
pub mod Owner
use apcu.Prelude.{ℕ, zero, suc, ◌+◌, Bool, true, false, Option, none, some, ◌==◌, if◌then◌else◌}
use apcu.Sma.Platform.{Platform, block_header, first_block, wadd, wsub}
use apcu.Sma.Block.{
  Block, Segment, write, set_size, set_prev_size, set_fnext, set_fprev, next_sblock,
  link_free_block_at_start,
}

pub record Progress {ℓ} (D : Type ℓ) : Type ℓ where
  pub seg : Segment
  pub owner : D
  pub reclaimed_size : ℕ

module _ ⦃p : Platform⦄ where
  -- `cur` stays where it is and goes to the free list
  keep_block : ℕ → Segment → Segment
  unfolding link_free_block_at_start set_prev_size
  keep_block cur seg =
      let nxt = next_sblock seg cur in
      let s = set_prev_size cur 0 (link_free_block_at_start cur seg) in
      set_prev_size nxt (s.block_at cur).size s

  -- The free block `cur` changes places with the allocated block behind it, which gives back the
  -- bytes that it does not use. The result is the new place of the free block and those bytes.
  swap_blocks : ℕ → Segment → ℕ × ℕ × Segment
  unfolding set_size write set_prev_size set_fnext
  swap_blocks cur seg =
      let nxt = next_sblock seg cur in
      let unused = wsub (seg.block_at nxt).size (seg.block_at nxt).fprev in
      let s = set_size nxt (wsub (seg.block_at nxt).size unused) seg in
      let free_size = wadd unused (s.block_at cur).size in
      let s' = set_prev_size cur 0 (write s cur (s.block_at nxt)) in
      let cur' = next_sblock s' cur in
      let s'' = set_fnext cur' 1 (set_size cur' free_size s') in
      let nxt' = next_sblock s'' cur' in
      let s''' =
        if (s''.block_at nxt').fnext == 0
        then s''
        else set_size cur' (wadd (s''.block_at cur').size (s''.block_at nxt').size) s'' in
      (cur', unused, s''')

  -- the free list without its blocks: the first block leads to the last
  pub empty_free_list : ℕ → Segment → Segment
  unfolding set_fnext set_fprev
  empty_free_list sma_size seg =
      let s = set_fnext first_block (wsub sma_size block_header) seg in
      set_fprev (s.block_at first_block).fnext first_block s

  module _ {ℓ} {D : Type ℓ} (move : D → ℕ → ℕ → Bool × D) where
    -- the loop over the blocks, one unit of fuel for each round
    pub defrag_loop : ℕ → ℕ → Progress D → Option (Progress D)
    unfolding keep_block swap_blocks
    defrag_loop zero cur st = none
    defrag_loop (suc fuel) cur st =
        let seg = st.seg in
        let nxt = next_sblock seg cur in
        let skip = defrag_loop fuel nxt st in
        let kept = keep_block cur seg in
        let stay = λ (owner : D).
          defrag_loop fuel (next_sblock kept nxt) (record st { seg = kept; owner = owner }) in
        let answer = move st.owner (nxt + block_header) (cur + block_header) in
        let swapped = swap_blocks cur seg in
        let go = defrag_loop fuel swapped.0 (record {
          seg = swapped.2;
          owner = answer.1;
          reclaimed_size = wadd st.reclaimed_size swapped.1;
        }) in
        if (seg.block_at cur).size == 0
        then some st
        else if (seg.block_at cur).fnext == 0
        then skip
        else if (seg.block_at nxt).size == 0
        then stay st.owner
        else if answer.0
        then go
        else stay answer.1

    -- `sma_size` is the size of the segment. The free list is emptied before the loop.
    unfoldable pub defrag : ℕ → ℕ → Segment → D → Option (Segment × D)
    unfolding defrag_loop empty_free_list
    defrag fuel sma_size seg owner =
        let start : Progress D = record {
          seg = empty_free_list sma_size seg;
          owner = owner;
          reclaimed_size = 0;
        } in
        elim (defrag_loop fuel (first_block + block_header) start) [
          | none ↦ none
          | some st ↦
              let t = st.seg in some (record t { avail = wadd t.avail st.reclaimed_size }, st.owner)
        ]

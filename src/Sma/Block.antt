-- ===== src/Sma/Block.antt =====
-- Block headers at offsets of the segment, and the doubly linked list of the free ones:
-- `block_t`, `sma_header_t`, `link_free_block_at_start`, `unlink_free_block` (apc_sma.c).
-- The canaries are debugging aids of a build option and are left out.
pub mod Fields
pub mod FreeList
pub mod Link
pub mod Unlink
use apcu.Prelude.{ℕ, ◌+◌, ◌-◌, ◌==◌, if◌then◌else◌}
use apcu.Sma.Platform.{Platform, first_block}

pub record Block : Type 0 where
  pub size : ℕ
  pub prev_size : ℕ
  pub fnext : ℕ
  pub fprev : ℕ

-- The header of the segment, and its memory as far as the allocator reads it: a block header at
-- each offset. `min_block_size` and `avail` are fields of `sma_header_t`.
pub record Segment : Type 0 where
  pub min_block_size : ℕ
  pub avail : ℕ
  pub block_at : ℕ → Block

-- `*BLOCKAT(offset) = b`
unfoldable pub write : Segment → ℕ → Block → Segment
write seg offset b = record seg { block_at = λ o. if o == offset then b else seg.block_at o }

unfoldable pub set_size : ℕ → ℕ → Segment → Segment
unfolding write
set_size offset v seg = let b = seg.block_at offset in write seg offset (record b { size = v })

unfoldable pub set_prev_size : ℕ → ℕ → Segment → Segment
unfolding write
set_prev_size offset v seg =
    let b = seg.block_at offset in write seg offset (record b { prev_size = v })

unfoldable pub set_fnext : ℕ → ℕ → Segment → Segment
unfolding write
set_fnext offset v seg = let b = seg.block_at offset in write seg offset (record b { fnext = v })

unfoldable pub set_fprev : ℕ → ℕ → Segment → Segment
unfolding write
set_fprev offset v seg = let b = seg.block_at offset in write seg offset (record b { fprev = v })

-- `NEXT_SBLOCK`, `PREV_SBLOCK`
abbrev pub next_sblock : Segment → ℕ → ℕ
next_sblock seg offset = offset + (seg.block_at offset).size

abbrev pub prev_sblock : Segment → ℕ → ℕ
prev_sblock seg offset = offset - (seg.block_at offset).prev_size

unfoldable pub unlink_free_block : ℕ → Segment → Segment
unfolding set_fnext set_fprev
unlink_free_block cur seg =
    let linked = set_fnext (seg.block_at cur).fprev (seg.block_at cur).fnext seg in
    set_fprev (linked.block_at cur).fnext (linked.block_at cur).fprev linked

module _ ⦃p : Platform⦄ where
  unfoldable pub link_free_block_at_start : ℕ → Segment → Segment
  unfolding set_fnext set_fprev
  link_free_block_at_start cur seg =
      let dst = first_block in
      let s = set_fnext cur (seg.block_at dst).fnext seg in
      let s' = set_fprev cur dst s in
      let s'' = set_fnext dst cur s' in
      set_fprev (s''.block_at cur).fnext (s''.block_at dst).fnext s''

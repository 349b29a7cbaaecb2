-- ===== src/Sma/Alloc.antt =====
-- `find_block`, `sma_allocate` and `sma_deallocate` (apc_sma.c). A walk along the free list takes
-- fuel, one unit for each block that it visits, and gives `none` when the fuel runs out. An
-- offset of `none` inside is the source's NULL or SIZE_MAX.
pub mod Find
pub mod Extents
pub mod Frames
pub mod Handed
pub mod Cut
pub mod Hands
pub mod Loose
pub mod Tags
pub mod Joins
pub mod Returns
use apcu.Prelude.{
  ℕ, zero, suc, ◌+◌, ◌-◌, Bool, true, false, Option, none, some, ◌&&◌, ltb, leb, ◌==◌, not,
  if◌then◌else◌, ◌>>=◌,
}
use apcu.Sma.Platform.{Platform, block_header, first_block, real_size, wadd, wsub}
use apcu.Sma.Block.{
  Block, Segment, set_size, set_prev_size, set_fnext, set_fprev, next_sblock, prev_sblock,
  unlink_free_block, link_free_block_at_start,
}

abbrev pub best_fit_limit : ℕ
best_fit_limit = 3

-- the `while` of `find_block`
pub first_fit : ℕ → Segment → ℕ → ℕ → Option (Option ℕ)
first_fit zero seg realsize cur = none
first_fit (suc fuel) seg realsize cur =
    let next = (seg.block_at cur).fnext in
    let rest = first_fit fuel seg realsize next in
    if next == 0
    then some none
    else if leb realsize (seg.block_at next).size
    then some (some next)
    else rest

-- the `for` of `find_block`, with the rounds that are left
pub best_fit : ℕ → Segment → ℕ → ℕ → ℕ → ℕ
best_fit zero seg realsize cur found = found
best_fit (suc i) seg realsize cur found =
    let next = (seg.block_at cur).fnext in
    let size = (seg.block_at next).size in
    let rest =
      best_fit i seg realsize next
        (if leb realsize size && ltb size (seg.block_at found).size then next else found) in
    if next == 0 then found else rest

module _ ⦃p : Platform⦄ where
  pub find_block : ℕ → Segment → ℕ → Option (Option ℕ)
  unfolding first_fit best_fit
  find_block fuel seg realsize =
      if ltb seg.avail realsize
      then some none
      else first_fit fuel seg realsize first_block >>= λ found. elim found [
        | none ↦ some none
        | some b ↦ some (some (best_fit best_fit_limit seg realsize b b))
      ]

  -- The block is not split: its successor has an allocated predecessor.
  pub take_whole : ℕ → Segment → Segment
  unfolding set_prev_size
  take_whole cur seg = set_prev_size (next_sblock seg cur) 0 seg

  -- The block keeps `realsize` bytes; the rest goes back to the free list.
  pub split_block : ℕ → ℕ → Segment → Segment
  unfolding set_size set_prev_size link_free_block_at_start
  split_block cur realsize seg =
      let oldsize = (seg.block_at cur).size in
      let s = set_size cur realsize seg in
      let nxt = next_sblock s cur in
      let s' = set_size nxt (wsub oldsize realsize) (set_prev_size nxt 0 s) in
      link_free_block_at_start nxt (set_prev_size (next_sblock s' nxt) (s'.block_at nxt).size s')

  -- What follows once a block is found; `realsize + min_block_size` is taken not to wrap.
  allocate_block : ℕ → ℕ → Segment → ℕ × Segment
  unfolding unlink_free_block take_whole split_block set_fnext set_fprev
  allocate_block cur realsize seg =
      let s = unlink_free_block cur seg in
      let size = (s.block_at cur).size in
      let s' =
        if leb realsize size && ltb size (realsize + s.min_block_size)
        then take_whole cur s
        else split_block cur realsize s in
      let s'' = set_fprev cur realsize (set_fnext cur 0 s') in
      (cur + block_header, record s'' { avail = wsub s''.avail (s''.block_at cur).size })

  unfoldable pub sma_allocate : ℕ → ℕ → Segment → Option (Option ℕ × Segment)
  unfolding find_block allocate_block
  sma_allocate fuel size seg = find_block fuel seg (real_size size) >>= λ found. elim found [
    | none ↦ some (none, seg)
    | some cur ↦
        let (offset, seg') = allocate_block cur (real_size size) seg in some (some offset, seg')
  ]

  -- the block before, if it is free, takes `cur` in
  pub merge_prev : ℕ → Segment → ℕ × Segment
  unfolding unlink_free_block set_size
  merge_prev cur seg =
      if (seg.block_at cur).prev_size == 0
      then (cur, seg)
      else let prv = prev_sblock seg cur in
        let s = unlink_free_block prv seg in
        (prv, set_size prv (wadd (s.block_at prv).size (s.block_at cur).size) s)

  -- The block behind, if it is free, is taken in; `none` is the failed assertion on its boundary
  -- tag.
  pub merge_next : ℕ → Segment → Option Segment
  unfolding unlink_free_block set_size
  merge_next cur seg =
      let nxt = next_sblock seg cur in
      let tag = (seg.block_at (next_sblock seg nxt)).prev_size in
      let s = unlink_free_block nxt seg in
      if (seg.block_at nxt).fnext == 0
      then some seg
      else if tag == (seg.block_at nxt).size
      then some (set_size cur (wadd (s.block_at cur).size (s.block_at nxt).size) s)
      else none

  -- The result is the size of the block that was freed; `none` is a failed assertion.
  unfoldable pub sma_deallocate : ℕ → Segment → Option (ℕ × Segment)
  unfolding merge_prev merge_next set_prev_size link_free_block_at_start
  sma_deallocate offset seg =
      if ltb offset block_header
      then none
      else let freed = offset - block_header in
        let size = (seg.block_at freed).size in
        let m = merge_prev freed (record seg { avail = wadd seg.avail size }) in
        elim (merge_next m.0 m.1) [
          | none ↦ none
          | some s ↦
              let s' = set_prev_size (next_sblock s m.0) (s.block_at m.0).size s in
              some (size, link_free_block_at_start m.0 s')
        ]

-- ===== src/Sma/Api.antt =====
-- The functions of apc_sma.h. A pointer is an address of this process; NULL is `none`.
-- `locked` is whether `SMA_LOCK` succeeds: the mutex is the system's.
pub mod Instance
pub mod Init
use apcu.Prelude.{
  ℕ, zero, suc, ◌+◌, ◌-◌, ◌*◌, Bool, true, false, Option, none, some, List, [], ◌∷◌, ◌||◌, not, ltb,
  leb, ◌==◌, if◌then◌else◌, ◌>>=◌,
}
use apcu.Sma.Platform.{Platform, block_header, first_block, real_size, wadd, wsub}
use apcu.Sma.Block.{
  Block, Segment, write, set_size, set_prev_size, set_fnext, set_fprev, next_sblock,
  link_free_block_at_start,
}
use apcu.Sma.Alloc.{sma_allocate, sma_deallocate}
use apcu.Sma.Defrag.{defrag}
use apcu.Sma.Malloc.{Attempt, no_lock, full, got}

-- `apc_sma_t`, with the segment that `shmaddr` points to
pub record Sma : Type 0 where
  pub initialized : Bool
  pub size : ℕ
  pub max_alloc_size : ℕ
  pub shmaddr : ℕ
  pub seg : Segment

abbrev default_segsize : ℕ
default_segsize = 30 * 1024 * 1024

-- `apc_sma_link_t`, `apc_sma_info_t`
pub record Link : Type 0 where
  pub size : ℕ
  pub offset : ℕ

pub record Info : Type 0 where
  pub seg_size : ℕ
  pub list : List Link

module _ ⦃p : Platform⦄ where
  -- the segment that `apc_sma_init` lays out in fresh memory of `size` bytes
  unfoldable pub init_segment : (size min_alloc_size : ℕ) → Segment
  unfolding write
  init_segment size min_alloc_size =
      let avail = wsub (wsub (wsub size first_block) block_header) block_header in
      let empty = first_block + block_header in
      let last = empty + avail in
      let s : Segment = record {
        min_block_size =
            if ltb 0 min_alloc_size
            then p.align_word (wadd min_alloc_size block_header)
            else p.align_word 1 + block_header;
        avail = avail;
        block_at = λ _. record { size = 0; prev_size = 0; fnext = 0; fprev = 0 };
      } in
      let s' = write s first_block (record { size = 0; prev_size = 0; fnext = empty; fprev = 0 }) in
      let s'' =
        write s' empty
          (record { size = avail; prev_size = 0; fnext = last; fprev = first_block }) in
      write s'' last (record { size = 0; prev_size = avail; fnext = 0; fprev = empty })

  -- `shmaddr` is where the system maps the segment
  unfoldable init : Sma → (size min_alloc_size shmaddr : ℕ) → Sma
  unfolding init_segment
  init sma size min_alloc_size shmaddr =
      let size' = p.align_word (if ltb 0 size then size else default_segsize) in
      let seg = init_segment size' min_alloc_size in
      if sma.initialized then sma else record {
        initialized = true;
        size = size';
        max_alloc_size = wsub seg.avail block_header;
        shmaddr = shmaddr;
        seg = seg;
      }

  -- the assertion on `initialized` holds for every allocator that was set up
  unfoldable detach : Sma → Sma
  detach sma = record sma { initialized = false }

  -- One round of `apc_sma_malloc`, from taking the lock on. `none` is a walk that does not end.
  pub try_malloc : Bool → Sma → ℕ → Option (Attempt Sma)
  unfolding sma_allocate
  try_malloc locked sma n =
      let found = sma_allocate sma.size n sma.seg in
      if locked
      then elim found [
        | none ↦ none
        | some (none, seg) ↦ some (full (record sma { seg = seg }))
        | some (some off, seg) ↦ some (got (sma.shmaddr + off) (record sma { seg = seg }))
      ]
      else some no_lock

  -- `apc_sma_free`
  pub free : Bool → Sma → Option ℕ → Option Sma
  unfolding sma_deallocate
  free locked sma none = some sma
  free locked sma (some ptr) =
      if ltb ptr sma.shmaddr || leb sma.size (ptr - sma.shmaddr) || not locked
      then some sma
      else elim (sma_deallocate (ptr - sma.shmaddr) sma.seg) [
        | none ↦ none
        | some (_, seg) ↦ some (record sma { seg = seg })
      ]

  -- the list of free blocks, from the block at `cur`
  unfoldable pub info_loop : ℕ → Segment → ℕ → Option (List Link)
  info_loop zero seg cur = none
  info_loop (suc fuel) seg cur =
      let b = seg.block_at cur in
      let rest = info_loop fuel seg b.fnext in
      if b.fnext == 0
      then some []
      else elim rest [ none ↦ none | some ls ↦ some (record { size = b.size; offset = cur } ∷ ls) ]

  unfoldable info : Bool → Sma → (limited : Bool) → Option (Option Info)
  unfolding info_loop
  info locked sma limited =
      let seg_size = wsub sma.size (first_block + block_header + block_header) in
      let first = (sma.seg.block_at first_block).fnext in
      let walk = info_loop sma.size sma.seg first in
      if not sma.initialized
      then some none
      else if limited
      then some (some (record { seg_size = seg_size; list = [] }))
      else if not locked
      then some none
      else elim walk [
        | none ↦ none
        | some ls ↦ some (some (record { seg_size = seg_size; list = ls }))
      ]

  unfoldable get_avail_mem : Sma → ℕ
  get_avail_mem sma = sma.seg.avail

  pub check_avail : Sma → ℕ → Bool
  check_avail sma size = leb (real_size size) sma.seg.avail

  -- the walk of `apc_sma_check_avail_contiguous`
  contiguous_loop : ℕ → Segment → ℕ → ℕ → Option Bool
  contiguous_loop zero seg realsize cur = none
  contiguous_loop (suc fuel) seg realsize cur =
      let next = (seg.block_at cur).fnext in
      let rest = contiguous_loop fuel seg realsize next in
      if next == 0
      then some false
      else if leb realsize (seg.block_at next).size
      then some true
      else rest

  pub check_avail_contiguous : Bool → Sma → ℕ → Option Bool
  unfolding contiguous_loop
  check_avail_contiguous locked sma size =
      let walk = contiguous_loop sma.size sma.seg (real_size size) first_block in
      if ltb sma.seg.avail (real_size size)
      then some false
      else if not locked
      then some false
      else walk

  module _ {ℓ} {D : Type ℓ} (move : D → ℕ → ℕ → Bool × D) where
    -- `apc_sma_defrag`; the callback gets addresses
    pub sma_defrag : Bool → Sma → D → Option (Sma × D)
    unfolding defrag
    sma_defrag locked sma owner =
        if locked
        then elim (defrag (λ d old new. move d (sma.shmaddr + old) (sma.shmaddr + new))
            (sma.size + 1) sma.size sma.seg owner) [
              | none ↦ none
              | some (seg, owner') ↦ some (record sma { seg = seg }, owner')
            ]
        else some (sma, owner)

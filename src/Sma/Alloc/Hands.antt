-- ===== src/Sma/Alloc/Hands.antt =====
-- What `sma_allocate` hands out, and the free list that it leaves.
use apcu.Prelude.{
  OneOf, ℕ, ◌+◌, ◌≤◌, ◌<◌, ◌≡◌, refl, sym, Bool, true, false, none, some, List, ◌∷◌, ◌++◌, ◌⊎◌, inl,
  inr, arith, length, leb, ltb, ◌&&◌, Bool-cases, if◌then◌else◌,
}
use mathlib.Core.Path.{subst}
use apcu.Sma.Platform.{Platform, first_block, block_header, real_size}
use apcu.Sma.Block.{
  Segment, set_size, set_prev_size, set_fnext, set_fprev, next_sblock, unlink_free_block,
  link_free_block_at_start,
}
use apcu.Sma.Block.FreeList.{AllSmaller}
use apcu.Sma.Alloc.{take_whole, split_block, allocate_block, sma_allocate}
use apcu.Sma.Alloc.Find.{find_block-fits}
use apcu.Sma.Alloc.Extents.{OneOf-split}
use apcu.Sma.Alloc.Frames.{sizes, sizes-unlink, Linked-Chain, min-unlink}
use apcu.Sma.Alloc.Handed.{Free, Handed, closed, unlink-Left}
use apcu.Sma.Alloc.Cut.{whole-Handed, split-Handed}

module _ ⦃p : Platform⦄ where
  -- what `sma_allocate` makes of a block that was found
  handed_over : ℕ → ℕ → Segment → Segment
  unfolding closed
  handed_over cur n seg =
      let s = unlink_free_block cur seg in
      closed cur n (
        if leb n (sizes s cur) && ltb (sizes s cur) (n + s.min_block_size)
        then take_whole cur s
        else split_block cur n s)

  found-Handed :
      (seg : Segment) (n cur : ℕ) (bs : List ℕ)
      → Free seg bs
      → OneOf cur bs
      → 0 < n
      → 0 < seg.min_block_size
      → n ≤ sizes seg cur
      → (rest : List ℕ) × Handed seg n cur (handed_over cur n seg) rest
  unfolding handed_over
  found-Handed seg n cur bs fr m pos room fits =
      let (pre, post, e) = OneOf-split cur bs m in
      let t = unlink-Left seg cur pre post (subst (λ l. Free seg l) e fr) in
      let s = unlink_free_block cur seg in
      let old : sizes s cur ≡ sizes seg cur = sizes-unlink cur cur seg in
      let min : s.min_block_size ≡ seg.min_block_size = min-unlink cur seg in
      elim (Bool-cases (leb n (sizes s cur) && ltb (sizes s cur) (n + s.min_block_size))) [
        | inl whole ↦ (
          pre ++ post,
          subst
              (λ (b : Bool).
                Handed seg n cur
                  (closed cur n (if b then take_whole cur s else split_block cur n s))
                  (pre ++ post))
              (sym whole) (whole-Handed seg n cur (pre ++ post) t fits),
        )
        | inr split ↦
            let less : n < sizes seg cur =
              much n (sizes s cur) (n + s.min_block_size) (sizes seg cur) split old fits
                (omega (arith, min, room)) in
            (
              next_sblock (set_size cur n s) cur ∷ (pre ++ post),
              subst
                  (λ (b : Bool).
                    Handed seg n cur
                      (closed cur n (if b then take_whole cur s else split_block cur n s))
                      (next_sblock (set_size cur n s) cur ∷ (pre ++ post)))
                  (sym split) (split-Handed seg n cur (pre ++ post) t pos less),
            )
      ]
    where
      much : (n a b z : ℕ) → leb n a && ltb a b ≡ false → a ≡ z → n ≤ z → n < b → n < z
      much n a b z h e h' h'' = ground arith

  handed_over-min :
      (cur n : ℕ) (seg : Segment) → (handed_over cur n seg).min_block_size ≡ seg.min_block_size
  unfolding handed_over closed take_whole split_block unlink_free_block link_free_block_at_start
      set_size set_prev_size set_fnext set_fprev
  handed_over-min cur n seg = either (
      leb n (sizes (unlink_free_block cur seg) cur)
      && ltb (sizes (unlink_free_block cur seg) cur)
          (n + (unlink_free_block cur seg).min_block_size))
    where
      either :
          (b : Bool)
          → (if b
              then take_whole cur (unlink_free_block cur seg)
              else split_block cur n (unlink_free_block cur seg)).min_block_size
            ≡ seg.min_block_size
      either true = refl
      either false = refl

  -- Where the free list is well-formed and ends within the fuel, and the size that is asked for, with
  -- the header of a block, and the least size of a block are not 0: an allocation ends. It fails, and
  -- changes nothing, if the segment has fewer free bytes or every free block is smaller. Else it hands
  -- out a block of the free list, of at least the size, or the first bytes of one; a well-formed free
  -- list is left, of which no block has a byte of the block that was handed out, and the free bytes
  -- are fewer by the size of that block.
  pub sma_allocate-hands :
      (fuel size : ℕ) (bs : List ℕ) (seg : Segment)
      → Free seg bs
      → length bs < fuel
      → 0 < real_size size
      → 0 < seg.min_block_size
      → (((seg.avail < real_size size) ⊎ AllSmaller seg (real_size size) bs)
          × (sma_allocate fuel size seg ≡ some (none, seg)))
        ⊎ ((cur : ℕ) × (r : Segment) × (rest : List ℕ) × (sma_allocate fuel size seg
              ≡ some (some (cur + block_header), r))
            × OneOf cur bs
            × Handed seg (real_size size) cur r rest
            × (r.min_block_size ≡ seg.min_block_size))
  unfolding sma_allocate allocate_block handed_over closed
  sma_allocate-hands fuel size bs seg fr h pos room =
      elim (find_block-fits seg (real_size size) fuel bs (Linked-Chain seg first_block bs fr.linked)
        h) [
          | inl (short, e) ↦ inl (short, rw (e, sma_allocate) refl)
          | inr (enough, (b, e, m, fits)) ↦
              let (rest, handed) = found-Handed seg (real_size size) b bs fr m pos room fits in
              inr (
                b,
                handed_over b (real_size size) seg,
                rest,
                rw (e, sma_allocate) refl,
                m,
                handed,
                handed_over-min b (real_size size) seg,
              )
        ]

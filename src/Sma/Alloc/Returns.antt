-- ===== src/Sma/Alloc/Returns.antt =====
-- What `sma_deallocate` makes of the free list.
use apcu.Prelude.{
  OneOf, ℕ, ◌+◌, ◌-◌, ◌^◌, ◌<◌, ◌≡◌, sym, ap, ◌∙◌, Bool, false, Option, none, some, List, ◌∷◌,
  arith, ltb, ◌==◌, if◌then◌else◌,
}
use mathlib.Core.Path.{subst}
use apcu.Sma.Platform.{Platform, first_block, block_header, wadd}
use apcu.Sma.Block.{Segment, set_prev_size, next_sblock, prev_sblock, link_free_block_at_start}
use apcu.Sma.Alloc.{merge_prev, merge_next, sma_deallocate}
use apcu.Sma.Alloc.Extents.{Disjoint}
use apcu.Sma.Alloc.Frames.{sizes, sizes-link, sizes-set_prev_size, Linked-avail}
use apcu.Sma.Alloc.Handed.{Free}
use apcu.Sma.Alloc.Loose.{Loose, link-Free}
use apcu.Sma.Alloc.Tags.{tags, tags-link, tags-set_prev_size_self}
use apcu.Sma.Alloc.Joins.{Before, Behind, merge_prev-Joined, merge_next-Extended}

module _ ⦃p : Platform⦄ where
  freed-Loose :
      (cur : ℕ) (bs : List ℕ) (seg : Segment)
      → Free seg bs
      → first_block < cur
      → 0 < sizes seg cur
      → seg.avail + sizes seg cur < 2 ^ 64
      → ((x : ℕ) → OneOf x bs → Disjoint (sizes seg) cur x)
      → Loose (record seg { avail = wadd seg.avail (sizes seg cur) }) cur bs
  freed-Loose cur bs seg fr here pos bounded away =
      let filled = fr.filled in
      record {
        linked = Linked-avail (wadd seg.avail (sizes seg cur)) first_block bs seg fr.linked;
        once = fr.once;
        apart = fr.apart;
        above = fr.above;
        away = away;
        here = here;
        some_size = pos;
        filled = omega (arith, filled, bounded);
        bounded = omega (arith, bounded);
      }

  -- what follows in `sma_deallocate` for the block at `freed`
  abbrev given : ℕ → Segment → Option (ℕ × Segment)
  given freed seg =
      let size = sizes seg freed in
      let m = merge_prev freed (record seg { avail = wadd seg.avail size }) in
      elim (merge_next m.0 m.1) [
        | none ↦ none
        | some s ↦
            let s' = set_prev_size (next_sblock s m.0) (sizes s m.0) s in
            some (size, link_free_block_at_start m.0 s')
      ]

  -- Where the free list is well-formed, the block at `cur` stands behind the first block, has a size,
  -- shares no byte with a free block and has true boundary tags before and behind, and the free bytes
  -- with its own are fewer than 2^64: giving it back succeeds, answers its size, and leaves a
  -- well-formed free list with as many more free bytes. The list starts with the block that begins
  -- where the free block before `cur` began, or at `cur`, and that ends where the free block behind
  -- ended, or where the one at `cur` did; and the block behind it has its size as its tag.
  pub sma_deallocate-returns :
      (cur : ℕ) (bs : List ℕ) (seg : Segment)
      → Free seg bs
      → first_block < cur
      → 0 < sizes seg cur
      → seg.avail + sizes seg cur < 2 ^ 64
      → ((x : ℕ) → OneOf x bs → Disjoint (sizes seg) cur x)
      → Before seg cur bs
      → Behind seg (next_sblock seg cur) bs
      → (r : Segment) × (c : ℕ) × (rest : List ℕ) × (sma_deallocate (cur + block_header) seg
          ≡ some (sizes seg cur, r))
        × Free r (c ∷ rest)
        × (r.avail ≡ seg.avail + sizes seg cur)
        × (c ≡ (if tags seg cur == 0 then cur else prev_sblock seg cur))
        × (c + sizes r c ≡ (
            if (seg.block_at (next_sblock seg cur)).fnext == 0
            then next_sblock seg cur
            else next_sblock seg (next_sblock seg cur)))
        × (tags r (next_sblock r c) ≡ sizes r c)
  unfolding sma_deallocate Before Behind
  sma_deallocate-returns cur bs seg fr here pos bounded away before behind =
      let seg₀ : Segment = record seg { avail = wadd seg.avail (sizes seg cur) } in
      let nxt = next_sblock seg cur in
      let m = merge_prev cur seg₀ in
      let j =
        merge_prev-Joined seg₀ cur bs (freed-Loose cur bs seg fr here pos bounded away) before
          behind in
      let c = m.0 in
      let x =
        merge_next-Extended m.1 c j.rest j.loose
          (subst (λ y. Behind m.1 y j.rest) (sym j.ends) j.behind) in
      let s = x.s in
      let (free, bytes) = link-Free s c x.rest x.loose in
      let s' = set_prev_size (next_sblock s c) (sizes s c) s in
      let r = link_free_block_at_start c s' in
      let same : (y : ℕ) → sizes r y ≡ sizes s y =
        λ y. sizes-link c y s' ∙ sizes-set_prev_size (next_sblock s c) (sizes s c) y s in
      let long : ltb (cur + block_header) block_header ≡ false = ground arith in
      let back : cur + block_header - block_header ≡ cur = omega arith in
      let bytes₁ = j.avail in
      let bytes₂ = x.avail in
      (
        r,
        c,
        x.rest,
        ap (λ (b : Bool). if b then none else given (cur + block_header - block_header) seg) long
            ∙ ap (λ y. given y seg) back
            ∙ ap
                (λ (o : Option Segment). elim o [
                  | none ↦ none
                  | some z ↦ some (
                    sizes seg cur,
                    link_free_block_at_start c (set_prev_size (next_sblock z c) (sizes z c) z),
                  )
                ])
                x.runs,
        free,
        omega (arith, bytes, bytes₁, bytes₂, bounded),
        j.start,
        ap (λ z. c + z) (same c)
            ∙ x.ends
            ∙ ap (λ y. if (m.1.block_at y).fnext == 0 then y else y + sizes m.1 y) j.ends
            ∙ ap (λ (b : Bool). if b then nxt else nxt + sizes m.1 nxt) j.open_end
            ∙ ap (λ z. if (seg.block_at nxt).fnext == 0 then nxt else nxt + z) j.size_next,
        tags-link c (next_sblock r c) s'
            ∙ ap (λ z. tags s' (c + z)) (same c)
            ∙ tags-set_prev_size_self (next_sblock s c) (sizes s c) s
            ∙ sym (same c),
      )

-- ===== src/Sma/Alloc/Joins.antt =====
-- The two joins of a release: with the free block before, and with the one behind.
use apcu.Prelude.{
  OneOf, ℕ, ◌+◌, ◌<◌, ◌≡◌, ◌≢◌, refl, sym, ap, ◌∙◌, true, false, some, List, ◌∷◌, ◌++◌, ◌⊎◌, inl,
  inr, arith, ◌==◌, ==_iff, if◌then◌else◌, Bool-cases,
}
use mathlib.Core.Path.{subst}
use apcu.Sma.Platform.{Platform, first_block}
use apcu.Sma.Block.{Segment, next_sblock, prev_sblock}
use apcu.Sma.Alloc.{merge_prev, merge_next}
use apcu.Sma.Alloc.Extents.{OneOf-split, OneOf-middle, total-remove}
use apcu.Sma.Alloc.Frames.{sizes}
use apcu.Sma.Alloc.Loose.{Loose, joined, join-Loose, joined-avail, OneOf-remove}
use apcu.Sma.Alloc.Tags.{tags, tags-joined, joined-size, joined-size_ne, joined-ends}

module _ ⦃p : Platform⦄ where
  -- The boundary tag of the block at `cur` is true: it is 0, or the size of a free block that ends at
  -- `cur` and is not the last of the list.
  unfoldable pub Before : Segment → ℕ → List ℕ → Type 0
  Before seg cur bs =
      (tags seg cur ≡ 0)
      ⊎ (OneOf (prev_sblock seg cur) bs
          × (prev_sblock seg cur + sizes seg (prev_sblock seg cur) ≡ cur)
          × (0 < tags seg cur)
          × (0 < (seg.block_at (prev_sblock seg cur)).fnext))

  -- The block at `nxt` has no `fnext`, or it is a block of the list, and the block behind has its
  -- size as its tag.
  unfoldable pub Behind : Segment → ℕ → List ℕ → Type 0
  Behind seg nxt bs =
      ((seg.block_at nxt).fnext == 0) ≡ false
      → OneOf nxt bs × (tags seg (next_sblock seg nxt) ≡ sizes seg nxt)

  -- `m` is what the join with the block before makes of the block at `cur`.
  pub record Joined (seg : Segment) (cur nxt : ℕ) (m : ℕ × Segment) : Type 0 where
    pub start : m.0 ≡ (if tags seg cur == 0 then cur else prev_sblock seg cur)
    pub ends : m.0 + sizes m.1 m.0 ≡ nxt
    pub avail : m.1.avail ≡ seg.avail
    pub open_end : ((m.1.block_at nxt).fnext == 0) ≡ ((seg.block_at nxt).fnext == 0)
    pub size_next : sizes m.1 nxt ≡ sizes seg nxt
    pub rest : List ℕ
    pub loose : Loose m.1 m.0 rest
    pub behind : Behind m.1 nxt rest

  prev-Joined :
      (seg : Segment) (cur prv : ℕ) (pre post : List ℕ)
      → Loose seg cur (pre ++ (prv ∷ post))
      → prv + sizes seg prv ≡ cur
      → 0 < sizes seg prv
      → 0 < (seg.block_at prv).fnext
      → prv ≡ (if tags seg cur == 0 then cur else prev_sblock seg cur)
      → Behind seg (next_sblock seg cur) (pre ++ (prv ∷ post))
      → Joined seg cur (next_sblock seg cur) (prv, joined prv prv cur seg)
  unfolding Behind
  prev-Joined seg cur prv pre post t e pos more start behind =
      let f = sizes seg in
      let nxt = next_sblock seg cur in
      let r = joined prv prv cur seg in
      let filled = t.filled in
      let bounded = t.bounded in
      let size_cur = t.some_size in
      let above : first_block < prv = t.above prv (OneOf-middle prv pre post) in
      let parts = total-remove f prv pre post in
      let size_prv : sizes r prv ≡ f prv + f cur =
        joined-size prv prv cur seg (omega (arith, filled, parts, bounded)) in
      let ne : nxt ≢ prv = λ k. absurd (omega (arith, k, e, size_cur)) in
      let same_size : sizes r nxt ≡ f nxt = joined-size_ne prv prv cur nxt seg ne in
      let same_end =
        joined-ends prv prv cur nxt seg pre post t.linked (omega (arith, above)) more in
      record {
        start = start;
        ends = omega (arith, size_prv, e);
        avail = joined-avail prv prv cur seg;
        open_end = same_end;
        size_next = same_size;
        rest = pre ++ post;
        loose = join-Loose seg cur prv prv cur pre post t (inl (refl, refl)) e pos;
        behind = λ h.
            let (m, tag) = behind (sym same_end ∙ h) in
            (
              OneOf-remove nxt prv pre post m ne,
              tags-joined prv prv cur (next_sblock r nxt) seg
                  ∙ ap (λ z. tags seg (nxt + z)) same_size
                  ∙ tag
                  ∙ sym same_size,
            );
      }

  pub merge_prev-Joined :
      (seg : Segment) (cur : ℕ) (bs : List ℕ)
      → Loose seg cur bs
      → Before seg cur bs
      → Behind seg (next_sblock seg cur) bs
      → Joined seg cur (next_sblock seg cur) (merge_prev cur seg)
  unfolding merge_prev joined Before
  merge_prev-Joined seg cur bs t (inl none_before) behind =
      let none_there : (tags seg cur == 0) ≡ true = (==_iff (tags seg cur) 0).1 none_before in
      let done : merge_prev cur seg ≡ (cur, seg) = rw none_there refl in
      subst (λ (r : ℕ × Segment). Joined seg cur (next_sblock seg cur) r) (sym done)
        (record {
          start = rw none_there refl;
          ends = refl;
          avail = refl;
          open_end = refl;
          size_next = refl;
          rest = bs;
          loose = t;
          behind = behind;
        })
  merge_prev-Joined seg cur bs t (inr (m, e, pos, more)) behind =
      let prv = prev_sblock seg cur in
      let (pre, post, split) = OneOf-split prv bs m in
      let some_before : (tags seg cur == 0) ≡ false = ground arith in
      let here = t.here in
      let size_pos : 0 < sizes seg prv = omega (arith, e, pos, here) in
      let done : merge_prev cur seg ≡ (prv, joined prv prv cur seg) = rw some_before refl in
      subst (λ (r : ℕ × Segment). Joined seg cur (next_sblock seg cur) r) (sym done)
        (prev-Joined seg cur prv pre post (subst (λ l. Loose seg cur l) split t) e size_pos more
          (rw some_before refl) (subst (λ l. Behind seg (next_sblock seg cur) l) split behind))

  -- `s` is what the join with the block behind, at `nxt`, makes of the block at `c`.
  pub record Extended (seg : Segment) (c nxt : ℕ) : Type 0 where
    pub s : Segment
    pub runs : merge_next c seg ≡ some s
    pub ends : c + sizes s c ≡ (if (seg.block_at nxt).fnext == 0 then nxt else nxt + sizes seg nxt)
    pub avail : s.avail ≡ seg.avail
    pub rest : List ℕ
    pub loose : Loose s c rest

  pub merge_next-Extended :
      (seg : Segment) (c : ℕ) (bs : List ℕ)
      → Loose seg c bs
      → Behind seg (next_sblock seg c) bs
      → Extended seg c (next_sblock seg c)
  unfolding merge_next joined Behind
  merge_next-Extended seg c bs t behind =
      let nxt = next_sblock seg c in
      elim (Bool-cases ((seg.block_at nxt).fnext == 0)) [
        | inl taken ↦ record {
          s = seg;
          runs = rw taken refl;
          ends = rw taken refl;
          avail = refl;
          rest = bs;
          loose = t;
        }
        | inr free ↦
            let (m, tag) = behind free in
            let (pre, post, e) = OneOf-split nxt bs m in
            let t' = subst (λ l. Loose seg c l) e t in
            let true_tag : (tags seg (next_sblock seg nxt) == sizes seg nxt) ≡ true =
              (==_iff (tags seg (next_sblock seg nxt)) (sizes seg nxt)).1 tag in
            let filled = t'.filled in
            let bounded = t'.bounded in
            let parts = total-remove (sizes seg) nxt pre post in
            let size_c : sizes (joined nxt c nxt seg) c ≡ sizes seg c + sizes seg nxt =
              joined-size nxt c nxt seg (omega (arith, filled, parts, bounded)) in
            record {
              s = joined nxt c nxt seg;
              runs = rw (free, true_tag) refl;
              ends = rw free (omega (arith, size_c));
              avail = joined-avail nxt c nxt seg;
              rest = pre ++ post;
              loose = join-Loose seg c nxt c nxt pre post t' (inr (refl, refl)) refl t.some_size;
            }
      ]

-- ===== src/Sma/Alloc/Tags.antt =====
-- The tags of the blocks (`prev_size`) under the writes to other fields, and the blocks that are
-- joined.
use apcu.Prelude.{
  ℕ, ◌+◌, ◌^◌, ◌<◌, ◌≡◌, ◌≢◌, sym, ap, ◌∙◌, true, false, List, [], ◌∷◌, ◌++◌, inl, inr, arith, ◌==◌,
  ==_iff, Bool-cases,
}
use apcu.Sma.Platform.{Platform, first_block, wadd}
use apcu.Sma.Block.{
  Segment, write, set_size, set_prev_size, set_fnext, set_fprev, unlink_free_block,
  link_free_block_at_start,
}
use apcu.Sma.Block.Fields.{fnext-set_fnext_self, fnext-set_fnext_ne, fnext-set_fprev}
use apcu.Sma.Block.FreeList.{Linked}
use apcu.Sma.Alloc.Frames.{
  sizes, sizes-set_size_self, sizes-set_size_ne, sizes-unlink, fnext-set_size,
}
use apcu.Sma.Alloc.Loose.{joined}

abbrev pub tags : Segment → ℕ → ℕ
tags seg x = (seg.block_at x).prev_size

tags-set_fnext : (o v x : ℕ) (seg : Segment) → tags (set_fnext o v seg) x ≡ tags seg x
unfolding set_fnext write
tags-set_fnext o v x seg = elim (Bool-cases (x == o)) [
  | inl here ↦ let same : x ≡ o = ground arith in rw (here, same, tags)
  | inr other ↦ rw (other, tags)
]

tags-set_fprev : (o v x : ℕ) (seg : Segment) → tags (set_fprev o v seg) x ≡ tags seg x
unfolding set_fprev write
tags-set_fprev o v x seg = elim (Bool-cases (x == o)) [
  | inl here ↦ let same : x ≡ o = ground arith in rw (here, same, tags)
  | inr other ↦ rw (other, tags)
]

tags-set_size : (o v x : ℕ) (seg : Segment) → tags (set_size o v seg) x ≡ tags seg x
unfolding set_size write
tags-set_size o v x seg = elim (Bool-cases (x == o)) [
  | inl here ↦ let same : x ≡ o = ground arith in rw (here, same, tags)
  | inr other ↦ rw (other, tags)
]

pub tags-set_prev_size_self : (o v : ℕ) (seg : Segment) → tags (set_prev_size o v seg) o ≡ v
unfolding set_prev_size write
tags-set_prev_size_self o v seg = let same : (o == o) ≡ true = ground arith in rw (same, tags)

tags-unlink : (q x : ℕ) (seg : Segment) → tags (unlink_free_block q seg) x ≡ tags seg x
unfolding unlink_free_block
tags-unlink q x seg =
    let s = set_fnext (seg.block_at q).fprev (seg.block_at q).fnext seg in
    tags-set_fprev (s.block_at q).fnext (s.block_at q).fprev x s
    ∙ tags-set_fnext (seg.block_at q).fprev (seg.block_at q).fnext x seg

-- the block before one of the list leads to it
fnext-fprev :
    (seg : Segment) (c q : ℕ) (pre post : List ℕ)
    → Linked seg c (pre ++ (q ∷ post))
    → (seg.block_at (seg.block_at q).fprev).fnext ≡ q
fnext-fprev seg c q [] post (n, r, pos, d) = ap (λ x. (seg.block_at x).fnext) r ∙ n
fnext-fprev seg c q (x ∷ pre) post (n, r, pos, d) = fnext-fprev seg x q pre post d

-- Where `q` is not the end of the list, no other block becomes or ceases to be one without a
-- `fnext` when `q` is unlinked.
unlink-ends :
    (seg : Segment) (c q x : ℕ) (pre post : List ℕ)
    → Linked seg c (pre ++ (q ∷ post))
    → 0 < q
    → 0 < (seg.block_at q).fnext
    → (((unlink_free_block q seg).block_at x).fnext == 0) ≡ ((seg.block_at x).fnext == 0)
unfolding unlink_free_block
unlink-ends seg c q x pre post l pos more =
    let p = (seg.block_at q).fprev in
    let n = (seg.block_at q).fnext in
    let s = set_fnext p n seg in
    let before = fnext-fprev seg c q pre post l in
    let same = fnext-set_fprev (s.block_at q).fnext (s.block_at q).fprev x s in
    elim (Bool-cases (x == p)) [
      | inl here ↦
          let e : x ≡ p = (==_iff x p).0 here in
          let new : ((unlink_free_block q seg).block_at x).fnext ≡ n =
            same ∙ ap (λ y. (s.block_at y).fnext) e ∙ fnext-set_fnext_self p n seg in
          let old : (seg.block_at x).fnext ≡ q = ap (λ y. (seg.block_at y).fnext) e ∙ before in
          some_next _ n new more ∙ sym (some_next _ q old pos)
      | inr other ↦
          let ne : x ≢ p = λ e. differ (sym ((==_iff x p).1 e) ∙ other) in
          ap (λ y. y == 0) (same ∙ fnext-set_fnext_ne p n x seg ne)
    ]
  where
    some_next : (a b : ℕ) → a ≡ b → 0 < b → (a == 0) ≡ false
    some_next a b e h = ground arith

    differ : true ≡ false → ⊥
    differ e = ground arith

module _ ⦃p : Platform⦄ where
  pub tags-link : (q x : ℕ) (seg : Segment) → tags (link_free_block_at_start q seg) x ≡ tags seg x
  unfolding link_free_block_at_start
  tags-link q x seg =
      let dst = first_block in
      let s = set_fnext q (seg.block_at dst).fnext seg in
      let s' = set_fprev q dst s in
      let s'' = set_fnext dst q s' in
      tags-set_fprev (s''.block_at q).fnext (s''.block_at dst).fnext x s''
      ∙ tags-set_fnext dst q x s'
      ∙ tags-set_fprev q dst x s
      ∙ tags-set_fnext q (seg.block_at dst).fnext x seg

  pub joined-size :
      (q lo hi : ℕ) (seg : Segment)
      → sizes seg lo + sizes seg hi < 2 ^ 64
      → sizes (joined q lo hi seg) lo ≡ sizes seg lo + sizes seg hi
  unfolding joined
  joined-size q lo hi seg h =
      let s = unlink_free_block q seg in
      sizes-set_size_self lo (wadd (sizes s lo) (sizes s hi)) s
      ∙ ap (λ x. wadd x (sizes s hi)) (sizes-unlink q lo seg)
      ∙ ap (wadd (sizes seg lo)) (sizes-unlink q hi seg)
      ∙ omega (arith, h)

  pub joined-size_ne :
      (q lo hi x : ℕ) (seg : Segment) → x ≢ lo → sizes (joined q lo hi seg) x ≡ sizes seg x
  unfolding joined
  joined-size_ne q lo hi x seg ne =
      sizes-set_size_ne lo _ x (unlink_free_block q seg) ne ∙ sizes-unlink q x seg

  pub tags-joined : (q lo hi x : ℕ) (seg : Segment) → tags (joined q lo hi seg) x ≡ tags seg x
  unfolding joined
  tags-joined q lo hi x seg = tags-set_size lo _ x (unlink_free_block q seg) ∙ tags-unlink q x seg

  pub joined-ends :
      (q lo hi x : ℕ) (seg : Segment) (pre post : List ℕ)
      → Linked seg first_block (pre ++ (q ∷ post))
      → 0 < q
      → 0 < (seg.block_at q).fnext
      → (((joined q lo hi seg).block_at x).fnext == 0) ≡ ((seg.block_at x).fnext == 0)
  unfolding joined
  joined-ends q lo hi x seg pre post l pos more =
      ap (λ y. y == 0) (fnext-set_size lo _ x (unlink_free_block q seg))
      ∙ unlink-ends seg first_block q x pre post l pos more

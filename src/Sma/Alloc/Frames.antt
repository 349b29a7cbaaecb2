-- ===== src/Sma/Alloc/Frames.antt =====
-- What the writes of an allocation leave: the sizes of blocks, the links, and the header.
use apcu.Prelude.{
  ℕ, ◌≡◌, ◌≢◌, refl, ◌∙◌, true, false, inl, inr, arith, ◌==◌, Bool-cases, List, [], ◌∷◌,
}
use apcu.Sma.Platform.{Platform, first_block}
use apcu.Sma.Block.{
  Segment, write, set_size, set_prev_size, set_fnext, set_fprev, unlink_free_block,
  link_free_block_at_start,
}
use apcu.Sma.Block.FreeList.{Chain, Linked}

abbrev pub sizes : Segment → ℕ → ℕ
sizes seg x = (seg.block_at x).size

pub sizes-set_size_self : (o v : ℕ) (seg : Segment) → ((set_size o v seg).block_at o).size ≡ v
unfolding set_size write
sizes-set_size_self o v seg = let same : (o == o) ≡ true = ground arith in rw same

pub sizes-set_size_ne :
    (o v x : ℕ) (seg : Segment)
    → x ≢ o
    → ((set_size o v seg).block_at x).size ≡ (seg.block_at x).size
unfolding set_size write
sizes-set_size_ne o v x seg h = let other : (x == o) ≡ false = ground arith in rw other

pub sizes-set_prev_size :
    (o v x : ℕ) (seg : Segment) → ((set_prev_size o v seg).block_at x).size ≡ (seg.block_at x).size
unfolding set_prev_size write
sizes-set_prev_size o v x seg = elim (Bool-cases (x == o)) [
  | inl here ↦ let same : x ≡ o = ground arith in rw (here, same)
  | inr other ↦ rw other
]

pub sizes-set_fnext :
    (o v x : ℕ) (seg : Segment) → ((set_fnext o v seg).block_at x).size ≡ (seg.block_at x).size
unfolding set_fnext write
sizes-set_fnext o v x seg = elim (Bool-cases (x == o)) [
  | inl here ↦ let same : x ≡ o = ground arith in rw (here, same)
  | inr other ↦ rw other
]

pub sizes-set_fprev :
    (o v x : ℕ) (seg : Segment) → ((set_fprev o v seg).block_at x).size ≡ (seg.block_at x).size
unfolding set_fprev write
sizes-set_fprev o v x seg = elim (Bool-cases (x == o)) [
  | inl here ↦ let same : x ≡ o = ground arith in rw (here, same)
  | inr other ↦ rw other
]

pub sizes-unlink : (cur x : ℕ) (seg : Segment) → sizes (unlink_free_block cur seg) x ≡ sizes seg x
unfolding unlink_free_block
sizes-unlink cur x seg =
    let s = set_fnext (seg.block_at cur).fprev (seg.block_at cur).fnext seg in
    sizes-set_fprev (s.block_at cur).fnext (s.block_at cur).fprev x s
    ∙ sizes-set_fnext (seg.block_at cur).fprev (seg.block_at cur).fnext x seg

pub avail-unlink : (cur : ℕ) (seg : Segment) → (unlink_free_block cur seg).avail ≡ seg.avail
unfolding unlink_free_block set_fnext set_fprev write
avail-unlink cur seg = refl

pub min-unlink :
    (cur : ℕ) (seg : Segment) → (unlink_free_block cur seg).min_block_size ≡ seg.min_block_size
unfolding unlink_free_block set_fnext set_fprev write
min-unlink cur seg = refl

pub avail-set_size : (o v : ℕ) (seg : Segment) → (set_size o v seg).avail ≡ seg.avail
unfolding set_size write
avail-set_size o v seg = refl

pub avail-set_prev_size : (o v : ℕ) (seg : Segment) → (set_prev_size o v seg).avail ≡ seg.avail
unfolding set_prev_size write
avail-set_prev_size o v seg = refl

-- The writes of one field of a header leave the others, as far as links are concerned.
pub fnext-set_size :
    (o v x : ℕ) (seg : Segment) → ((set_size o v seg).block_at x).fnext ≡ (seg.block_at x).fnext
unfolding set_size write
fnext-set_size o v x seg = elim (Bool-cases (x == o)) [
  | inl here ↦ let same : x ≡ o = ground arith in rw (here, same)
  | inr other ↦ rw other
]

fprev-set_size :
    (o v x : ℕ) (seg : Segment) → ((set_size o v seg).block_at x).fprev ≡ (seg.block_at x).fprev
unfolding set_size write
fprev-set_size o v x seg = elim (Bool-cases (x == o)) [
  | inl here ↦ let same : x ≡ o = ground arith in rw (here, same)
  | inr other ↦ rw other
]

fnext-set_prev_size :
    (o v x : ℕ) (seg : Segment)
    → ((set_prev_size o v seg).block_at x).fnext ≡ (seg.block_at x).fnext
unfolding set_prev_size write
fnext-set_prev_size o v x seg = elim (Bool-cases (x == o)) [
  | inl here ↦ let same : x ≡ o = ground arith in rw (here, same)
  | inr other ↦ rw other
]

fprev-set_prev_size :
    (o v x : ℕ) (seg : Segment)
    → ((set_prev_size o v seg).block_at x).fprev ≡ (seg.block_at x).fprev
unfolding set_prev_size write
fprev-set_prev_size o v x seg = elim (Bool-cases (x == o)) [
  | inl here ↦ let same : x ≡ o = ground arith in rw (here, same)
  | inr other ↦ rw other
]

-- A segment with the same links has the same list.
Linked-same :
    (seg s : Segment) (cur : ℕ) (bs : List ℕ)
    → ((x : ℕ) → (s.block_at x).fnext ≡ (seg.block_at x).fnext)
    → ((x : ℕ) → (s.block_at x).fprev ≡ (seg.block_at x).fprev)
    → Linked seg cur bs
    → Linked s cur bs
Linked-same seg s cur [] f g l = f cur ∙ l
Linked-same seg s cur (b ∷ bs) f g (n, r, pos, l) =
    (f cur ∙ n, g b ∙ r, pos, Linked-same seg s b bs f g l)

pub Linked-set_size :
    (o v cur : ℕ) (bs : List ℕ) (seg : Segment)
    → Linked seg cur bs
    → Linked (set_size o v seg) cur bs
Linked-set_size o v cur bs seg =
    Linked-same seg (set_size o v seg) cur bs (λ x. fnext-set_size o v x seg)
      (λ x. fprev-set_size o v x seg)

pub Linked-set_prev_size :
    (o v cur : ℕ) (bs : List ℕ) (seg : Segment)
    → Linked seg cur bs
    → Linked (set_prev_size o v seg) cur bs
Linked-set_prev_size o v cur bs seg =
    Linked-same seg (set_prev_size o v seg) cur bs (λ x. fnext-set_prev_size o v x seg)
      (λ x. fprev-set_prev_size o v x seg)

pub Linked-avail :
    (v cur : ℕ) (bs : List ℕ) (seg : Segment)
    → Linked seg cur bs
    → Linked (record seg { avail = v }) cur bs
Linked-avail v cur bs seg =
    Linked-same seg (record seg { avail = v }) cur bs (λ x. refl) (λ x. refl)

pub Linked-Chain : (seg : Segment) (cur : ℕ) (bs : List ℕ) → Linked seg cur bs → Chain seg cur bs
Linked-Chain seg cur [] l = l
Linked-Chain seg cur (b ∷ bs) (n, r, pos, l) = (n, pos, Linked-Chain seg b bs l)

module _ ⦃p : Platform⦄ where
  pub sizes-link :
      (cur x : ℕ) (seg : Segment) → sizes (link_free_block_at_start cur seg) x ≡ sizes seg x
  unfolding link_free_block_at_start
  sizes-link cur x seg =
      let dst = first_block in
      let s = set_fnext cur (seg.block_at dst).fnext seg in
      let s' = set_fprev cur dst s in
      let s'' = set_fnext dst cur s' in
      sizes-set_fprev (s''.block_at cur).fnext (s''.block_at dst).fnext x s''
      ∙ sizes-set_fnext dst cur x s'
      ∙ sizes-set_fprev cur dst x s
      ∙ sizes-set_fnext cur (seg.block_at dst).fnext x seg

  pub avail-link : (cur : ℕ) (seg : Segment) → (link_free_block_at_start cur seg).avail ≡ seg.avail
  unfolding link_free_block_at_start set_fnext set_fprev write
  avail-link cur seg = refl

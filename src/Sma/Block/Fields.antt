-- ===== src/Sma/Block/Fields.antt =====
-- What the writes of `fnext` and `fprev` leave in the block headers.
use apcu.Prelude.{ℕ, ◌≡◌, ◌≢◌, true, false, inl, inr, arith, ◌==◌, Bool-cases}
use apcu.Sma.Block.{Segment, write, set_fnext, set_fprev}

pub fnext-set_fnext_self : (o v : ℕ) (seg : Segment) → ((set_fnext o v seg).block_at o).fnext ≡ v
unfolding set_fnext write
fnext-set_fnext_self o v seg = let same : (o == o) ≡ true = ground arith in rw same

pub fnext-set_fnext_ne :
    (o v x : ℕ) (seg : Segment)
    → x ≢ o
    → ((set_fnext o v seg).block_at x).fnext ≡ (seg.block_at x).fnext
unfolding set_fnext write
fnext-set_fnext_ne o v x seg h = let other : (x == o) ≡ false = ground arith in rw other

pub fprev-set_fnext :
    (o v x : ℕ) (seg : Segment) → ((set_fnext o v seg).block_at x).fprev ≡ (seg.block_at x).fprev
unfolding set_fnext write
fprev-set_fnext o v x seg = elim (Bool-cases (x == o)) [
  | inl here ↦ let same : x ≡ o = ground arith in rw (here, same)
  | inr other ↦ rw other
]

pub fprev-set_fprev_self : (o v : ℕ) (seg : Segment) → ((set_fprev o v seg).block_at o).fprev ≡ v
unfolding set_fprev write
fprev-set_fprev_self o v seg = let same : (o == o) ≡ true = ground arith in rw same

pub fprev-set_fprev_ne :
    (o v x : ℕ) (seg : Segment)
    → x ≢ o
    → ((set_fprev o v seg).block_at x).fprev ≡ (seg.block_at x).fprev
unfolding set_fprev write
fprev-set_fprev_ne o v x seg h = let other : (x == o) ≡ false = ground arith in rw other

pub fnext-set_fprev :
    (o v x : ℕ) (seg : Segment) → ((set_fprev o v seg).block_at x).fnext ≡ (seg.block_at x).fnext
unfolding set_fprev write
fnext-set_fprev o v x seg = elim (Bool-cases (x == o)) [
  | inl here ↦ let same : x ≡ o = ground arith in rw (here, same)
  | inr other ↦ rw other
]

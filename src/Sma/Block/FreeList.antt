-- ===== src/Sma/Block/FreeList.antt =====
-- The free list as a list of offsets.
use apcu.Prelude.{ℕ, ◌<◌, ◌≡◌, ◌≢◌, sym, ◌∙◌, List, [], ◌∷◌}
use apcu.Sma.Block.{Segment, set_fnext, set_fprev}
use apcu.Sma.Block.Fields.{fnext-set_fnext_ne, fprev-set_fnext, fprev-set_fprev_ne, fnext-set_fprev}

-- The `fnext` links lead from `cur` along the blocks, and end there.
abbrev pub Chain : Segment → ℕ → List ℕ → Type 0
Chain seg cur [] = (seg.block_at cur).fnext ≡ 0
Chain seg cur (b ∷ bs) = ((seg.block_at cur).fnext ≡ b) × (0 < b) × Chain seg b bs

-- a chain whose `fprev` links lead back
abbrev pub Linked : Segment → ℕ → List ℕ → Type 0
Linked seg cur [] = (seg.block_at cur).fnext ≡ 0
Linked seg cur (b ∷ bs) =
    ((seg.block_at cur).fnext ≡ b) × ((seg.block_at b).fprev ≡ cur) × (0 < b) × Linked seg b bs

abbrev pub Absent : ℕ → List ℕ → Type 0
Absent b [] = Unit
Absent b (x ∷ xs) = (b ≢ x) × Absent b xs

abbrev pub Nodup : List ℕ → Type 0
Nodup [] = Unit
Nodup (x ∷ xs) = Absent x xs × Nodup xs

-- no block of the list has `n` bytes
abbrev pub AllSmaller : Segment → ℕ → List ℕ → Type 0
AllSmaller seg n [] = Unit
AllSmaller seg n (b ∷ bs) = ((seg.block_at b).size < n) × AllSmaller seg n bs

-- A write of a `fnext` off the list, or before it, keeps the list behind `cur`.
pub Linked-set_fnext :
    (o v cur : ℕ) (bs : List ℕ) (seg : Segment)
    → o ≢ cur
    → Absent o bs
    → Linked seg cur bs
    → Linked (set_fnext o v seg) cur bs
Linked-set_fnext o v cur [] seg h off l = fnext-set_fnext_ne o v cur seg (λ e. h (sym e)) ∙ l
Linked-set_fnext o v cur (b ∷ bs) seg h (ne, off) (n, p, pos, l) = (
  fnext-set_fnext_ne o v cur seg (λ e. h (sym e)) ∙ n,
  fprev-set_fnext o v b seg ∙ p,
  pos,
  Linked-set_fnext o v b bs seg ne off l,
)

pub Linked-set_fprev :
    (o v cur : ℕ) (bs : List ℕ) (seg : Segment)
    → Absent o bs
    → Linked seg cur bs
    → Linked (set_fprev o v seg) cur bs
Linked-set_fprev o v cur [] seg off l = fnext-set_fprev o v cur seg ∙ l
Linked-set_fprev o v cur (b ∷ bs) seg (ne, off) (n, p, pos, l) = (
  fnext-set_fprev o v cur seg ∙ n,
  fprev-set_fprev_ne o v b seg (λ e. ne (sym e)) ∙ p,
  pos,
  Linked-set_fprev o v b bs seg off l,
)

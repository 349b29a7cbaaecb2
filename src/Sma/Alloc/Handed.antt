-- ===== src/Sma/Alloc/Handed.antt =====
-- A segment with its free list, and one from which a block was taken.
use apcu.Prelude.{OneOf, ℕ, ◌+◌, ◌^◌, ◌≤◌, ◌<◌, ◌≡◌, sym, ap, ◌∙◌, List, ◌∷◌, ◌++◌, arith}
use apcu.Sma.Platform.{Platform, first_block, wsub}
use apcu.Sma.Block.{Segment, set_fnext, set_fprev, unlink_free_block}
use apcu.Sma.Block.FreeList.{Linked, Absent, Nodup, Linked-set_fnext, Linked-set_fprev}
use apcu.Sma.Block.Unlink.{unlink-Linked}
use apcu.Sma.Alloc.Extents.{
  Disjoint, Apart, total, OneOf-add, OneOf-middle, Apart-remove, total-remove, Nodup-remove,
  Absent-all,
}
use apcu.Sma.Alloc.Frames.{sizes, sizes-set_fnext, sizes-set_fprev, Linked-avail}

module _ ⦃p : Platform⦄ where
  -- The free list holds blocks behind the first one, each once and none inside another, doubly
  -- linked, and `avail` is the number of their bytes.
  pub record Free (seg : Segment) (bs : List ℕ) : Type 0 where
    pub linked : Linked seg first_block bs
    pub once : Nodup (first_block ∷ bs)
    pub apart : Apart (sizes seg) bs
    pub above : (x : ℕ) → OneOf x bs → first_block < x
    pub filled : total (sizes seg) bs ≡ seg.avail
    pub bounded : seg.avail < 2 ^ 64

  -- The block at `cur`, of `n` bytes at least, was taken out of the segment; `bs` is what is free.
  pub record Handed (seg : Segment) (n cur : ℕ) (r : Segment) (bs : List ℕ) : Type 0 where
    pub free : Free r bs
    pub fits : n ≤ sizes r cur
    pub inside : sizes r cur ≤ sizes seg cur
    pub away : (x : ℕ) → OneOf x bs → Disjoint (sizes r) cur x
    pub paid : r.avail + sizes r cur ≡ seg.avail

  -- the last writes of an allocation
  unfoldable pub closed : ℕ → ℕ → Segment → Segment
  closed cur realsize s' =
      let s'' = set_fprev cur realsize (set_fnext cur 0 s') in
      record s'' { avail = wsub s''.avail (s''.block_at cur).size }

  pub closed-sizes :
      (cur realsize x : ℕ) (s : Segment) → sizes (closed cur realsize s) x ≡ sizes s x
  unfolding closed
  closed-sizes cur realsize x s =
      sizes-set_fprev cur realsize x (set_fnext cur 0 s) ∙ sizes-set_fnext cur 0 x s

  closed-avail :
      (cur realsize : ℕ) (s : Segment) → (closed cur realsize s).avail ≡ wsub s.avail (sizes s cur)
  unfolding closed set_fprev set_fnext
  closed-avail cur realsize s = ap (wsub s.avail) (closed-sizes cur realsize cur s)

  pub closed-Linked :
      (cur realsize : ℕ) (bs : List ℕ) (s : Segment)
      → first_block < cur
      → Absent cur bs
      → Linked s first_block bs
      → Linked (closed cur realsize s) first_block bs
  unfolding closed
  closed-Linked cur realsize bs s above off l =
      let s' = set_fnext cur 0 s in
      let s'' = set_fprev cur realsize s' in
      Linked-avail (wsub s''.avail (s''.block_at cur).size) first_block bs s'' (
        Linked-set_fprev cur realsize first_block bs s' off
          (Linked-set_fnext cur 0 first_block bs s (λ e. absurd (omega (arith, e, above))) off l))

  pub wsub-le : (a b : ℕ) → b ≤ a → a < 2 ^ 64 → wsub a b + b ≡ a
  wsub-le a b h h' = omega (arith, h, h')

  pub closed-paid :
      (cur n : ℕ) (s : Segment) (a z : ℕ)
      → s.avail ≡ a
      → sizes s cur ≡ z
      → z ≤ a
      → a < 2 ^ 64
      → (closed cur n s).avail + sizes (closed cur n s) cur ≡ a
  closed-paid cur n s a z e f h h' =
      let r = closed cur n s in
      ap (λ x. x + sizes r cur)
        (closed-avail cur n s ∙ ap (λ x. wsub x (sizes s cur)) e ∙ ap (wsub a) f)
      ∙ ap (λ x. wsub a z + x) (closed-sizes cur n cur s ∙ f)
      ∙ wsub-le a z h h'

  -- what the block `cur` of a list leaves of it
  pub record Left (seg : Segment) (cur : ℕ) (rest : List ℕ) : Type 0 where
    pub off : Absent cur rest
    pub once : Nodup (first_block ∷ rest)
    pub apart : Apart (sizes seg) rest
    pub away : (x : ℕ) → OneOf x rest → Disjoint (sizes seg) cur x
    pub above : (x : ℕ) → OneOf x rest → first_block < x
    pub here : first_block < cur
    pub filled : sizes seg cur + total (sizes seg) rest ≡ seg.avail
    pub bounded : seg.avail < 2 ^ 64
    pub linked : Linked (unlink_free_block cur seg) first_block rest

  pub unlink-Left :
      (seg : Segment) (cur : ℕ) (pre post : List ℕ)
      → Free seg (pre ++ (cur ∷ post))
      → Left seg cur (pre ++ post)
  unlink-Left seg cur pre post fr =
      let (once, off) = Nodup-remove cur pre post fr.once.1 in
      let (apart, away) = Apart-remove (sizes seg) cur pre post fr.apart in
      let above = λ (x : ℕ) (m : OneOf x (pre ++ post)). fr.above x (OneOf-add x cur pre post m) in
      record {
        off = off;
        once = (
          Absent-all first_block (pre ++ post)
              (λ x m e. let lt = above x m in absurd (omega (arith, e, lt))),
          once,
        );
        apart = apart;
        away = away;
        above = above;
        here = fr.above cur (OneOf-middle cur pre post);
        filled = sym (total-remove (sizes seg) cur pre post) ∙ fr.filled;
        bounded = fr.bounded;
        linked = unlink-Linked first_block cur pre post seg fr.once fr.linked;
      }

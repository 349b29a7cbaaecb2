-- ===== src/Sma/Alloc/Loose.antt =====
-- A block that is not free yet beside the free list, and the free blocks that it takes in.
use apcu.Prelude.{
  OneOf, ℕ, ◌+◌, ◌^◌, ◌<◌, ◌≡◌, ◌≢◌, sym, ap, ◌∙◌, List, [], ◌∷◌, ◌++◌, ◌⊎◌, inl, inr, arith,
}
use mathlib.Core.Path.{subst}
use apcu.Sma.Platform.{Platform, first_block, wadd}
use apcu.Sma.Block.{
  Segment, set_size, set_prev_size, set_fnext, next_sblock, unlink_free_block,
  link_free_block_at_start,
}
use apcu.Sma.Block.Fields.{fnext-set_fnext_ne, fnext-set_fprev}
use apcu.Sma.Block.FreeList.{Linked, Absent, Nodup}
use apcu.Sma.Block.Unlink.{unlink-Linked, fprev-OneOf, OneOf-left, Absent-ne}
use apcu.Sma.Block.Link.{link-Linked}
use apcu.Sma.Alloc.Extents.{
  Disjoint, Apart, total, OneOf-add, OneOf-middle, Apart-remove, total-remove, Nodup-remove,
  Absent-all, total-same, Apart-same, Disjoint-same, Disjoint-self,
}
use apcu.Sma.Alloc.Frames.{
  sizes, sizes-set_size_self, sizes-set_size_ne, sizes-set_prev_size, sizes-unlink, sizes-link,
  Linked-set_size, Linked-set_prev_size, avail-unlink, avail-set_size, avail-set_prev_size,
  avail-link,
}
use apcu.Sma.Alloc.Handed.{Free}

-- Two blocks side by side, where `g` has their sum as the size of the lower one.
Disjoint-join :
    (f g : ℕ → ℕ) (lo hi x : ℕ)
    → lo + f lo ≡ hi
    → g lo ≡ f lo + f hi
    → g x ≡ f x
    → x ≢ hi
    → Disjoint f lo x
    → Disjoint f hi x
    → Disjoint g lo x
unfolding Disjoint
Disjoint-join f g lo hi x e s k ne (inr h) d = inr (omega (arith, k, h))
Disjoint-join f g lo hi x e s k ne (inl h) (inl h') = inl (omega (arith, e, s, h'))
Disjoint-join f g lo hi x e s k ne (inl h) (inr h') = absurd (ne (omega (arith, e, h, h')))

pub OneOf-remove :
    (x b : ℕ) (pre post : List ℕ) → OneOf x (pre ++ (b ∷ post)) → x ≢ b → OneOf x (pre ++ post)
OneOf-remove x b [] post (inl e) ne = absurd (ne e)
OneOf-remove x b [] post (inr m) ne = m
OneOf-remove x b (y ∷ pre) post (inl e) ne = inl e
OneOf-remove x b (y ∷ pre) post (inr m) ne = inr (OneOf-remove x b pre post m ne)

module _ ⦃p : Platform⦄ where
  -- The block `c` is not free yet; the free blocks are `bs`, and `avail` counts both.
  pub record Loose (seg : Segment) (c : ℕ) (bs : List ℕ) : Type 0 where
    pub linked : Linked seg first_block bs
    pub once : Nodup (first_block ∷ bs)
    pub apart : Apart (sizes seg) bs
    pub above : (x : ℕ) → OneOf x bs → first_block < x
    pub away : (x : ℕ) → OneOf x bs → Disjoint (sizes seg) c x
    pub here : first_block < c
    pub some_size : 0 < sizes seg c
    pub filled : sizes seg c + total (sizes seg) bs ≡ seg.avail
    pub bounded : seg.avail < 2 ^ 64

  -- A free block `q` next to the loose one goes to it: `lo` and `hi` are the two in their order.
  unfoldable pub joined : ℕ → ℕ → ℕ → Segment → Segment
  joined q lo hi seg =
      let s = unlink_free_block q seg in set_size lo (wadd (sizes s lo) (sizes s hi)) s

  pub join-Loose :
      (seg : Segment) (c q lo hi : ℕ) (pre post : List ℕ)
      → Loose seg c (pre ++ (q ∷ post))
      → ((lo ≡ q) × (hi ≡ c)) ⊎ ((lo ≡ c) × (hi ≡ q))
      → lo + sizes seg lo ≡ hi
      → 0 < sizes seg lo
      → Loose (joined q lo hi seg) lo (pre ++ post)
  unfolding joined
  join-Loose seg c q lo hi pre post t sides e pos =
      let f = sizes seg in
      let s = unlink_free_block q seg in
      let v = wadd (sizes s lo) (sizes s hi) in
      let r = set_size lo v s in
      let rest = pre ++ post in
      let (once, off) = Nodup-remove q pre post t.once.1 in
      let (apart, away_q) = Apart-remove f q pre post t.apart in
      let above = λ (x : ℕ) (m : OneOf x rest). t.above x (OneOf-add x q pre post m) in
      let away_c = λ (x : ℕ) (m : OneOf x rest). t.away x (OneOf-add x q pre post m) in
      let filled = t.filled in
      let bounded = t.bounded in
      let parts = total-remove f q pre post in
      let both : f lo + f hi ≡ f c + f q = elim sides [
        | inl (a, b) ↦ ap (λ x. f x + f hi) a ∙ ap (λ x. f q + f x) b ∙ (omega arith)
        | inr (a, b) ↦ ap (λ x. f x + f hi) a ∙ ap (λ x. f c + f x) b
      ] in
      let sum : v ≡ f lo + f hi =
        ap (λ x. wadd x (sizes s hi)) (sizes-unlink q lo seg)
        ∙ ap (wadd (f lo)) (sizes-unlink q hi seg)
        ∙ omega (arith, both, filled, parts, bounded) in
      let low = λ (x : ℕ) (m : OneOf x rest). elim sides as (λ z. Disjoint f lo x) [
        | inl (a, b) ↦ subst (λ y. Disjoint f y x) (sym a) (away_q x m)
        | inr (a, b) ↦ subst (λ y. Disjoint f y x) (sym a) (away_c x m)
      ] in
      let high = λ (x : ℕ) (m : OneOf x rest). elim sides as (λ z. Disjoint f hi x) [
        | inl (a, b) ↦ subst (λ y. Disjoint f y x) (sym b) (away_c x m)
        | inr (a, b) ↦ subst (λ y. Disjoint f y x) (sym b) (away_q x m)
      ] in
      let here : first_block < lo = elim sides [
        | inl (a, b) ↦ let l = t.above q (OneOf-middle q pre post) in omega (arith, a, l)
        | inr (a, b) ↦ let l = t.here in omega (arith, a, l)
      ] in
      let size_lo : sizes r lo ≡ f lo + f hi = sizes-set_size_self lo v s ∙ sum in
      let kept = λ (x : ℕ) (m : OneOf x rest).
        sizes-set_size_ne lo v x s (Disjoint-self f lo x (low x m) pos) ∙ sizes-unlink q x seg in
      let ne = λ (x : ℕ) (m : OneOf x rest). elim sides as (λ z. x ≢ hi) [
        | inl (a, b) ↦ λ k. Disjoint-self f c x (away_c x m) t.some_size (k ∙ b)
        | inr (a, b) ↦ λ k. Absent-ne q x rest off m (sym (k ∙ b))
      ] in
      let rest_total = total-same f (sizes r) rest kept in
      let bytes = avail-set_size lo v s ∙ avail-unlink q seg in
      record {
        linked =
            Linked-set_size lo v first_block rest s
              (unlink-Linked first_block q pre post seg t.once t.linked);
        once = (
          Absent-all first_block rest
              (λ x m e. let lt = above x m in absurd (omega (arith, e, lt))),
          once,
        );
        apart = Apart-same f (sizes r) rest kept apart;
        above = above;
        away = λ x m.
            Disjoint-join f (sizes r) lo hi x e size_lo (kept x m) (ne x m) (low x m) (high x m);
        here = here;
        some_size = omega (arith, size_lo, pos);
        filled = omega (arith, size_lo, rest_total, filled, parts, both, bytes);
        bounded = omega (arith, bytes, bounded);
      }

  -- A block off the list keeps its `fnext` when another one is unlinked.
  pub fnext-unlink_other :
      (seg : Segment) (q x : ℕ) (pre post : List ℕ)
      → Linked seg first_block (pre ++ (q ∷ post))
      → first_block < x
      → ((y : ℕ) → OneOf y (pre ++ (q ∷ post)) → x ≢ y)
      → ((unlink_free_block q seg).block_at x).fnext ≡ (seg.block_at x).fnext
  unfolding unlink_free_block
  fnext-unlink_other seg q x pre post l above off =
      let s = set_fnext (seg.block_at q).fprev (seg.block_at q).fnext seg in
      fnext-set_fprev (s.block_at q).fnext (s.block_at q).fprev x s
      ∙ fnext-set_fnext_ne (seg.block_at q).fprev (seg.block_at q).fnext x seg (λ e.
        elim (fprev-OneOf seg first_block q pre post l) [
          | inl k ↦ absurd (omega (arith, e, k, above))
          | inr m ↦
              absurd (
                off (seg.block_at q).fprev (OneOf-left (seg.block_at q).fprev pre (q ∷ post) m) (e))
        ])

  -- The loose block is put at the start of the free list.
  pub link-Free :
      (seg : Segment) (c : ℕ) (bs : List ℕ)
      → Loose seg c bs
      → (let s = set_prev_size (next_sblock seg c) (sizes seg c) seg in
          Free (link_free_block_at_start c s) (c ∷ bs)
          × ((link_free_block_at_start c s).avail ≡ seg.avail))
  unfolding Apart total
  link-Free seg c bs t =
      let n = next_sblock seg c in
      let v = sizes seg c in
      let s = set_prev_size n v seg in
      let r = link_free_block_at_start c s in
      let same : (x : ℕ) → sizes r x ≡ sizes seg x =
        λ x. sizes-link c x s ∙ sizes-set_prev_size n v x seg in
      let bytes : r.avail ≡ seg.avail = avail-link c s ∙ avail-set_prev_size n v seg in
      let rest = total-same (sizes seg) (sizes r) bs (λ x m. same x) in
      let filled = t.filled in
      let bounded = t.bounded in
      let here = t.here in
      let at_c = same c in
      let off : Absent c bs =
        Absent-all c bs (λ x m e. Disjoint-self (sizes seg) c x (t.away x m) t.some_size (sym e)) in
      (
        record {
          linked =
              link-Linked c bs s (omega (arith, here)) t.once
                ((λ e. absurd (omega (arith, e, here))), off)
                (Linked-set_prev_size n v first_block bs seg t.linked);
          once = (((λ e. absurd (omega (arith, e, here))), t.once.0), (off, t.once.1));
          apart = (
            (λ x m.
                Disjoint-same (sizes seg) (sizes r) c x (omega (arith, at_c)) (same x)
                  (t.away x m)),
            Apart-same (sizes seg) (sizes r) bs (λ x m. same x) t.apart,
          );
          above = λ x m. elim m [ inl e ↦ omega (arith, e, here) | inr m' ↦ t.above x m' ];
          filled = omega (arith, rest, filled, at_c, bytes);
          bounded = omega (arith, bytes, bounded);
        },
        bytes,
      )

  pub joined-avail : (q lo hi : ℕ) (seg : Segment) → (joined q lo hi seg).avail ≡ seg.avail
  unfolding joined
  joined-avail q lo hi seg = avail-set_size lo _ (unlink_free_block q seg) ∙ avail-unlink q seg

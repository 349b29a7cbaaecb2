-- ===== src/Sma/Alloc/Cut.antt =====
-- The two ways in which `sma_allocate` takes a block: whole, or cut in two.
use apcu.Prelude.{OneOf, ℕ, ◌+◌, ◌≤◌, ◌<◌, ◌≡◌, ◌≢◌, sym, ap, ◌∙◌, List, ◌∷◌, inl, inr, arith}
use apcu.Sma.Platform.{Platform, first_block, wsub}
use apcu.Sma.Block.{
  Segment, set_size, set_prev_size, next_sblock, unlink_free_block, link_free_block_at_start,
}
use apcu.Sma.Block.FreeList.{Absent}
use apcu.Sma.Block.Link.{link-Linked}
use apcu.Sma.Alloc.{take_whole, split_block}
use apcu.Sma.Alloc.Extents.{
  Apart, total, Absent-all, total-same, Apart-same, Disjoint-same, Disjoint-ne, Disjoint-self,
  Disjoint-behind, Disjoint-before,
}
use apcu.Sma.Alloc.Frames.{
  sizes, sizes-set_size_self, sizes-set_size_ne, sizes-set_prev_size, sizes-unlink, sizes-link,
  Linked-set_size, Linked-set_prev_size, avail-unlink, avail-set_size, avail-set_prev_size,
  avail-link,
}
use apcu.Sma.Alloc.Handed.{Handed, Left, closed, closed-sizes, closed-Linked, closed-paid, wsub-le}

module _ ⦃p : Platform⦄ where
  -- A block that is taken whole.
  pub whole-Handed :
      (seg : Segment) (n cur : ℕ) (rest : List ℕ)
      → Left seg cur rest
      → n ≤ sizes seg cur
      → (let s = unlink_free_block cur seg in
          Handed seg n cur (closed cur n (take_whole cur s)) rest)
  unfolding take_whole
  whole-Handed seg n cur rest t fits =
      let s = unlink_free_block cur seg in
      let s' = take_whole cur s in
      let r = closed cur n s' in
      let same : (x : ℕ) → sizes r x ≡ sizes seg x = λ x.
        closed-sizes cur n x s'
        ∙ sizes-set_prev_size (next_sblock s cur) 0 x s
        ∙ sizes-unlink cur x seg in
      let filled = t.filled in
      let bounded = t.bounded in
      let at_cur = same cur in
      let rest_total = total-same (sizes seg) (sizes r) rest (λ x m. same x) in
      let paid : r.avail + sizes r cur ≡ seg.avail =
        closed-paid cur n s' seg.avail (sizes seg cur)
          (avail-set_prev_size (next_sblock s cur) 0 s ∙ avail-unlink cur seg)
          (sizes-set_prev_size (next_sblock s cur) 0 cur s ∙ sizes-unlink cur cur seg)
          (omega (arith, filled)) bounded in
      record {
        free = record {
          linked =
              closed-Linked cur n rest s' t.here t.off
                (Linked-set_prev_size (next_sblock s cur) 0 first_block rest s t.linked);
          once = t.once;
          apart = Apart-same (sizes seg) (sizes r) rest (λ x m. same x) t.apart;
          above = t.above;
          filled = omega (arith, rest_total, filled, paid, at_cur);
          bounded = omega (arith, paid, bounded);
        };
        fits = omega (arith, at_cur, fits);
        inside = omega (arith, at_cur);
        away = λ x m.
            Disjoint-same (sizes seg) (sizes r) cur x (omega (arith, at_cur)) (same x) (t.away x m);
        paid = paid;
      }

  -- A block that is split: the bytes behind the first `n` become a free block.
  pub split-Handed :
      (seg : Segment) (n cur : ℕ) (rest : List ℕ)
      → Left seg cur rest
      → 0 < n
      → n < sizes seg cur
      → (let s = unlink_free_block cur seg in
          Handed seg n cur
            (closed cur n (split_block cur n s))
            (next_sblock (set_size cur n s) cur ∷ rest))
  unfolding split_block Apart total closed
  split-Handed seg n cur rest t pos less =
      let s = unlink_free_block cur seg in
      let s₁ = set_size cur n s in
      let nxt = next_sblock s₁ cur in
      let v = wsub (sizes s cur) n in
      let s₂ = set_size nxt v (set_prev_size nxt 0 s₁) in
      let o = next_sblock s₂ nxt in
      let s₃ = set_prev_size o (sizes s₂ nxt) s₂ in
      let s₄ = link_free_block_at_start nxt s₃ in
      let r = closed cur n s₄ in
      let filled = t.filled in
      let bounded = t.bounded in
      let here = t.here in
      let at_nxt : nxt ≡ cur + n = ap (λ x. cur + x) (sizes-set_size_self cur n s) in
      let old : sizes s cur ≡ sizes seg cur = sizes-unlink cur cur seg in
      let remains : v + n ≡ sizes seg cur =
        ap (λ x. wsub x n + n) old
        ∙ wsub-le (sizes seg cur) n (omega (arith, less)) (omega (arith, filled, bounded)) in
      let late : (x : ℕ) → sizes s₄ x ≡ sizes s₂ x =
        λ x. sizes-link nxt x s₃ ∙ sizes-set_prev_size o (sizes s₂ nxt) x s₂ in
      let others : (x : ℕ) → x ≢ nxt → x ≢ cur → sizes r x ≡ sizes seg x = λ x h h'.
        closed-sizes cur n x s₄
        ∙ late x
        ∙ sizes-set_size_ne nxt v x (set_prev_size nxt 0 s₁) h
        ∙ sizes-set_prev_size nxt 0 x s₁
        ∙ sizes-set_size_ne cur n x s h'
        ∙ sizes-unlink cur x seg in
      let cur_size : sizes s₄ cur ≡ n =
        late cur
        ∙ sizes-set_size_ne nxt v cur (set_prev_size nxt 0 s₁)
            (λ e. absurd (omega (arith, e, at_nxt, pos)))
        ∙ sizes-set_prev_size nxt 0 cur s₁
        ∙ sizes-set_size_self cur n s in
      let r_cur : sizes r cur ≡ n = closed-sizes cur n cur s₄ ∙ cur_size in
      let r_nxt : sizes r nxt ≡ v =
        closed-sizes cur n nxt s₄ ∙ late nxt ∙ sizes-set_size_self nxt v (set_prev_size nxt 0 s₁) in
      let outside : (x : ℕ) → OneOf x rest → nxt ≢ x =
        λ x m. Disjoint-ne (sizes seg) cur nxt n x at_nxt less (t.away x m) pos in
      let kept : (x : ℕ) → OneOf x rest → sizes r x ≡ sizes seg x = λ x m.
        others x (λ e. outside x m (sym e))
          (Disjoint-self (sizes seg) cur x (t.away x m) (omega (arith, less))) in
      let paid : r.avail + sizes r cur ≡ seg.avail =
        closed-paid cur n s₄ seg.avail n
          (avail-link nxt s₃
            ∙ avail-set_prev_size o (sizes s₂ nxt) s₂
            ∙ avail-set_size nxt v (set_prev_size nxt 0 s₁)
            ∙ avail-set_prev_size nxt 0 s₁
            ∙ avail-set_size cur n s
            ∙ avail-unlink cur seg)
          cur_size (omega (arith, filled, less)) bounded in
      let rest_total = total-same (sizes seg) (sizes r) rest kept in
      let off : Absent nxt (first_block ∷ rest) =
        ((λ e. absurd (omega (arith, e, at_nxt, here))), Absent-all nxt rest outside) in
      record {
        free = record {
          linked =
              closed-Linked cur n (nxt ∷ rest) s₄ here
                ((λ e. absurd (omega (arith, e, at_nxt, pos))), t.off)
                (link-Linked nxt rest s₃ (omega (arith, at_nxt, pos)) t.once off (
                  Linked-set_prev_size o (sizes s₂ nxt) first_block rest s₂ (
                    Linked-set_size nxt v first_block rest (set_prev_size nxt 0 s₁) (
                      Linked-set_prev_size nxt 0 first_block rest s₁
                        (Linked-set_size cur n first_block rest s t.linked)))));
          once = (((λ e. absurd (omega (arith, e, at_nxt, here))), t.once.0), (off.1, t.once.1));
          apart = (
            λ x m.
                Disjoint-behind (sizes seg) (sizes r) cur nxt n x at_nxt
                  (ap (λ y. y + n) r_nxt ∙ remains) (kept x m) (t.away x m),
            Apart-same (sizes seg) (sizes r) rest kept t.apart,
          );
          above = λ x m. elim m [ inl e ↦ omega (arith, e, at_nxt, here) | inr m' ↦ t.above x m' ];
          filled = omega (arith, rest_total, filled, paid, r_cur, r_nxt, remains);
          bounded = omega (arith, paid, bounded);
        };
        fits = omega (arith, r_cur);
        inside = omega (arith, r_cur, less);
        away = λ x m. elim m [
          | inl e ↦ Disjoint-before (sizes r) cur nxt x e (at_nxt ∙ ap (λ y. cur + y) (sym r_cur))
          | inr m' ↦
              Disjoint-same (sizes seg) (sizes r) cur x (omega (arith, r_cur, less)) (kept x m')
                (t.away x m')
        ];
        paid = paid;
      }

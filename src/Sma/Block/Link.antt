-- ===== src/Sma/Block/Link.antt =====
-- What `link_free_block_at_start` makes of the free list.
use apcu.Prelude.{ℕ, ◌<◌, ◌≡◌, ◌≢◌, sym, ◌∙◌, List, [], ◌∷◌, arith}
use mathlib.Core.Path.{subst}
use apcu.Sma.Platform.{Platform, first_block}
use apcu.Sma.Block.{Segment, set_fnext, set_fprev, link_free_block_at_start}
use apcu.Sma.Block.Fields.{
  fnext-set_fnext_self, fnext-set_fnext_ne, fprev-set_fnext, fprev-set_fprev_self,
  fprev-set_fprev_ne, fnext-set_fprev,
}
use apcu.Sma.Block.FreeList.{Linked, Absent, Nodup, Linked-set_fnext, Linked-set_fprev}

-- the writes of a link, with what the last of them reads
linked_in : ℕ → ℕ → ℕ → ℕ → Segment → Segment
linked_in dst cur q c seg =
    set_fprev q c
      (set_fnext dst cur (set_fprev cur dst (set_fnext cur (seg.block_at dst).fnext seg)))

fnext-linked_in :
    (dst cur q c : ℕ) (seg : Segment)
    → cur ≢ dst
    → ((linked_in dst cur q c seg).block_at cur).fnext ≡ (seg.block_at dst).fnext
unfolding linked_in
fnext-linked_in dst cur q c seg ne =
    let s = set_fnext cur (seg.block_at dst).fnext seg in
    let s' = set_fprev cur dst s in
    fnext-set_fprev q c cur (set_fnext dst cur s')
    ∙ fnext-set_fnext_ne dst cur cur s' ne
    ∙ fnext-set_fprev cur dst cur s
    ∙ fnext-set_fnext_self cur _ seg

fprev-linked_in :
    (dst cur q c : ℕ) (seg : Segment)
    → cur ≢ q
    → ((linked_in dst cur q c seg).block_at cur).fprev ≡ dst
unfolding linked_in
fprev-linked_in dst cur q c seg ne =
    let s = set_fnext cur (seg.block_at dst).fnext seg in
    let s' = set_fprev cur dst s in
    fprev-set_fprev_ne q c cur (set_fnext dst cur s') ne
    ∙ fprev-set_fnext dst cur cur s'
    ∙ fprev-set_fprev_self cur dst s

linked_in-Linked :
    (dst cur q : ℕ) (bs : List ℕ) (seg : Segment)
    → q ≡ (seg.block_at dst).fnext
    → 0 < cur
    → Nodup (dst ∷ bs)
    → Absent cur (dst ∷ bs)
    → Linked seg dst bs
    → Linked (linked_in dst cur q cur seg) dst (cur ∷ bs)
unfolding linked_in
linked_in-Linked dst cur q [] seg e pos nodup (ne, fresh) l =
    let s = set_fnext cur (seg.block_at dst).fnext seg in
    let s' = set_fprev cur dst s in
    (
      fnext-set_fprev q cur dst (set_fnext dst cur s') ∙ fnext-set_fnext_self dst cur s',
      fprev-linked_in dst cur q cur seg (omega (arith, e, l)),
      pos,
      fnext-linked_in dst cur q cur seg ne ∙ l,
    )
linked_in-Linked dst cur q (b ∷ bs) seg e pos ((off, off'), (once, nodup)) (ne, (ne', fresh))
      (n, r, pos', l) =
    let s = set_fnext cur (seg.block_at dst).fnext seg in
    let s' = set_fprev cur dst s in
    let s'' = set_fnext dst cur s' in
    let here : q ≡ b = e ∙ n in
    (
      fnext-set_fprev q cur dst s'' ∙ fnext-set_fnext_self dst cur s',
      fprev-linked_in dst cur q cur seg (λ same. ne' (same ∙ here)),
      pos,
      (
        fnext-linked_in dst cur q cur seg ne ∙ n,
        subst (λ x. ((set_fprev q cur s'').block_at x).fprev ≡ cur) here
            (fprev-set_fprev_self q cur s''),
        pos',
        Linked-set_fprev q cur b bs s'' (subst (λ x. Absent x bs) (sym here) once) (
            Linked-set_fnext dst cur b bs s' off off' (
              Linked-set_fprev cur dst b bs s fresh (Linked-set_fnext cur _ b bs seg ne' fresh l))),
      ),
    )

module _ ⦃p : Platform⦄ where
  -- If the doubly linked list of free blocks that starts at the first block holds each block once
  -- and not `cur`, it holds `cur` and then the same blocks once `cur` is linked at its start.
  pub link-Linked :
      (cur : ℕ) (bs : List ℕ) (seg : Segment)
      → 0 < cur
      → Nodup (first_block ∷ bs)
      → Absent cur (first_block ∷ bs)
      → Linked seg first_block bs
      → Linked (link_free_block_at_start cur seg) first_block (cur ∷ bs)
  unfolding link_free_block_at_start linked_in
  link-Linked cur bs seg pos nodup (ne, fresh) l =
      let dst = first_block in
      let s = set_fnext cur (seg.block_at dst).fnext seg in
      let s' = set_fprev cur dst s in
      let q : ((set_fnext dst cur s').block_at cur).fnext ≡ (seg.block_at dst).fnext =
        fnext-set_fnext_ne dst cur cur s' ne
        ∙ fnext-set_fprev cur dst cur s
        ∙ fnext-set_fnext_self cur _ seg in
      let c : ((set_fnext dst cur s').block_at dst).fnext ≡ cur = fnext-set_fnext_self dst cur s' in
      subst
        (λ x.
          Linked (set_fprev ((set_fnext dst cur s').block_at cur).fnext x (set_fnext dst cur s'))
            dst (cur ∷ bs))
        (sym c) (linked_in-Linked dst cur _ bs seg q pos nodup (ne, fresh) l)

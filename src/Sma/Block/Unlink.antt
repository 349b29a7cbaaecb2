-- ===== src/Sma/Block/Unlink.antt =====
-- What `unlink_free_block` makes of a list of blocks.
use apcu.Prelude.{OneOf, ℕ, ◌≡◌, ◌≢◌, refl, sym, ◌∙◌, List, [], ◌∷◌, ◌++◌, ◌⊎◌, inl, inr, arith}
use mathlib.Core.Path.{subst}
use apcu.Sma.Block.{Segment, set_fnext, set_fprev, unlink_free_block}
use apcu.Sma.Block.Fields.{
  fnext-set_fnext_self, fnext-set_fnext_ne, fprev-set_fnext, fprev-set_fprev_self,
  fprev-set_fprev_ne, fnext-set_fprev,
}
use apcu.Sma.Block.FreeList.{Linked, Absent, Nodup, Linked-set_fnext, Linked-set_fprev}

pub Absent-ne : (a b : ℕ) (xs : List ℕ) → Absent a xs → OneOf b xs → a ≢ b
Absent-ne a b [] h m = absurd m
Absent-ne a b (x ∷ xs) (ne, h) (inl same) = λ e. ne (e ∙ same)
Absent-ne a b (x ∷ xs) (ne, h) (inr m) = Absent-ne a b xs h m

pub OneOf-left : (b : ℕ) (xs ys : List ℕ) → OneOf b xs → OneOf b (xs ++ ys)
OneOf-left b [] ys m = absurd m
OneOf-left b (x ∷ xs) ys (inl same) = inl same
OneOf-left b (x ∷ xs) ys (inr m) = inr (OneOf-left b xs ys m)

OneOf-right : (b : ℕ) (xs ys : List ℕ) → OneOf b ys → OneOf b (xs ++ ys)
OneOf-right b [] ys m = m
OneOf-right b (x ∷ xs) ys m = inr (OneOf-right b xs ys m)

Nodup-ne : (p cur : ℕ) (xs post : List ℕ) → Nodup (xs ++ (cur ∷ post)) → OneOf p xs → cur ≢ p
Nodup-ne p cur [] post nodup m = absurd m
Nodup-ne p cur (x ∷ xs) post (off, nodup) (inl same) =
    let ne =
      Absent-ne x cur (xs ++ (cur ∷ post)) off (OneOf-right cur xs (cur ∷ post) (inl refl)) in
    λ e. ne (sym (e ∙ same))
Nodup-ne p cur (x ∷ xs) post (off, nodup) (inr m) = Nodup-ne p cur xs post nodup m

pub fprev-OneOf :
    (seg : Segment) (c cur : ℕ) (pre post : List ℕ)
    → Linked seg c (pre ++ (cur ∷ post))
    → OneOf (seg.block_at cur).fprev (c ∷ pre)
fprev-OneOf seg c cur [] post (n, r, pos, d) = inl r
fprev-OneOf seg c cur (x ∷ pre) post (n, r, pos, d) = inr (fprev-OneOf seg x cur pre post d)

Linked-behind :
    (seg : Segment) (c cur : ℕ) (pre post : List ℕ)
    → Linked seg c (pre ++ (cur ∷ post))
    → Linked seg cur post
Linked-behind seg c cur [] post (n, r, pos, d) = d
Linked-behind seg c cur (x ∷ pre) post (n, r, pos, d) = Linked-behind seg x cur pre post d

fnext-OneOf :
    (seg : Segment) (cur : ℕ) (post : List ℕ)
    → Linked seg cur post
    → ((seg.block_at cur).fnext ≡ 0) ⊎ OneOf (seg.block_at cur).fnext post
fnext-OneOf seg cur [] e = inl e
fnext-OneOf seg cur (b ∷ post) (n, r, pos, d) = inr (inl n)

-- the writes of an unlink, between the neighbours `p` and `q`
unlinked_in : ℕ → ℕ → Segment → Segment
unlinked_in p q seg = set_fprev q p (set_fnext p q seg)

unlinked_in-Linked :
    (c cur p q : ℕ) (pre post : List ℕ) (seg : Segment)
    → p ≡ (seg.block_at cur).fprev
    → q ≡ (seg.block_at cur).fnext
    → Nodup (c ∷ (pre ++ (cur ∷ post)))
    → Linked seg c (pre ++ (cur ∷ post))
    → Linked (unlinked_in p q seg) c (pre ++ post)
unfolding unlinked_in
unlinked_in-Linked c cur p q [] [] seg e f nodup (n, r, pos, d) =
    let here : p ≡ c = e ∙ r in
    fnext-set_fprev q p c (set_fnext p q seg)
    ∙ subst (λ x. ((set_fnext p q seg).block_at x).fnext ≡ q) here (fnext-set_fnext_self p q seg)
    ∙ f
    ∙ d
unlinked_in-Linked c cur p q [] (b ∷ bs) seg e f ((ne, (ne', off)), ((_, _), (once, _)))
      (n, r, pos, (n', r', pos', d)) =
    let here : p ≡ c = e ∙ r in
    let there : q ≡ b = f ∙ n' in
    let s = set_fnext p q seg in
    (
      fnext-set_fprev q p c s
          ∙ subst (λ x. ((set_fnext p q seg).block_at x).fnext ≡ q) here
              (fnext-set_fnext_self p q seg)
          ∙ there,
      subst (λ x. ((set_fprev q p s).block_at x).fprev ≡ p) there (fprev-set_fprev_self q p s)
          ∙ here,
      pos',
      Linked-set_fprev q p b bs s (subst (λ x. Absent x bs) (sym there) once) (
          Linked-set_fnext p q b bs seg (λ same. ne' (sym here ∙ same))
            (subst (λ x. Absent x bs) (sym here) off) d),
    )
unlinked_in-Linked c cur p q (x ∷ pre) post seg e f (off, nodup) (n, r, pos, d) =
    let s = set_fnext p q seg in
    let before : OneOf p (x ∷ pre) =
      subst (λ y. OneOf y (x ∷ pre)) (sym e) (fprev-OneOf seg x cur pre post d) in
    let c_ne : c ≢ p =
      Absent-ne c p (x ∷ (pre ++ (cur ∷ post))) off (OneOf-left p (x ∷ pre) (cur ∷ post) before) in
    let x_ne : x ≢ q = elim (fnext-OneOf seg cur post (Linked-behind seg x cur pre post d)) [
      | inl end ↦ λ same. absurd (omega (arith, end, f, same, pos))
      | inr m ↦
          Absent-ne x q (pre ++ (cur ∷ post)) nodup.0
            (OneOf-right q pre (cur ∷ post) (inr (subst (λ y. OneOf y post) (sym f) m)))
    ] in
    (
      fnext-set_fprev q p c s ∙ fnext-set_fnext_ne p q c seg c_ne ∙ n,
      fprev-set_fprev_ne q p x s x_ne ∙ fprev-set_fnext p q x seg ∙ r,
      pos,
      unlinked_in-Linked x cur p q pre post seg e f nodup d,
    )

-- If the doubly linked list behind `c` holds each block once, an unlink of one of them leaves the
-- others in their order.
pub unlink-Linked :
    (c cur : ℕ) (pre post : List ℕ) (seg : Segment)
    → Nodup (c ∷ (pre ++ (cur ∷ post)))
    → Linked seg c (pre ++ (cur ∷ post))
    → Linked (unlink_free_block cur seg) c (pre ++ post)
unfolding unlink_free_block unlinked_in
unlink-Linked c cur pre post seg nodup l =
    let p = (seg.block_at cur).fprev in
    let q = (seg.block_at cur).fnext in
    let s = set_fnext p q seg in
    let off : cur ≢ p = Nodup-ne p cur (c ∷ pre) post nodup (fprev-OneOf seg c cur pre post l) in
    let f : (s.block_at cur).fnext ≡ q = fnext-set_fnext_ne p q cur seg off in
    let e : (s.block_at cur).fprev ≡ p = fprev-set_fnext p q cur seg in
    subst (λ y. Linked (set_fprev y (s.block_at cur).fprev s) c (pre ++ post)) (sym f)
      (subst (λ y. Linked (set_fprev q y s) c (pre ++ post)) (sym e)
        (unlinked_in-Linked c cur p q pre post seg refl refl nodup l))

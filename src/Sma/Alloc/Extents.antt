-- ===== src/Sma/Alloc/Extents.antt =====
-- The extents of the blocks of a list, where `f` gives their sizes.
use apcu.Prelude.{
  OneOf, ℕ, ◌+◌, ◌≤◌, ◌<◌, ◌≡◌, ◌≢◌, refl, sym, ap, List, [], ◌∷◌, ◌++◌, ◌⊎◌, inl, inr, arith,
}
use mathlib.Core.Path.{subst}
use apcu.Sma.Block.FreeList.{Absent, Nodup}

-- no byte of the block at `b` is one of the block at `x`
unfoldable pub Disjoint : (ℕ → ℕ) → ℕ → ℕ → Type 0
Disjoint f b x = (b + f b ≤ x) ⊎ (x + f x ≤ b)

unfoldable pub Apart : (ℕ → ℕ) → List ℕ → Type 0
Apart f [] = Unit
Apart f (b ∷ bs) = ((x : ℕ) → OneOf x bs → Disjoint f b x) × Apart f bs

unfoldable pub total : (ℕ → ℕ) → List ℕ → ℕ
total f [] = 0
total f (b ∷ bs) = f b + total f bs

Disjoint-sym : (f : ℕ → ℕ) (b x : ℕ) → Disjoint f b x → Disjoint f x b
unfolding Disjoint
Disjoint-sym f b x (inl h) = inr h
Disjoint-sym f b x (inr h) = inl h

pub OneOf-add : (x b : ℕ) (pre post : List ℕ) → OneOf x (pre ++ post) → OneOf x (pre ++ (b ∷ post))
OneOf-add x b [] post m = inr m
OneOf-add x b (y ∷ pre) post (inl e) = inl e
OneOf-add x b (y ∷ pre) post (inr m) = inr (OneOf-add x b pre post m)

pub OneOf-middle : (b : ℕ) (pre post : List ℕ) → OneOf b (pre ++ (b ∷ post))
OneOf-middle b [] post = inl refl
OneOf-middle b (y ∷ pre) post = inr (OneOf-middle b pre post)

-- the parts of a list around one of its members
pub OneOf-split :
    (b : ℕ) (bs : List ℕ) → OneOf b bs → (pre : List ℕ) × (post : List ℕ) × (bs ≡ pre ++ (b ∷ post))
OneOf-split b [] m = absurd m
OneOf-split b (x ∷ bs) (inl e) = ([], bs, ap (λ y. y ∷ bs) (sym e))
OneOf-split b (x ∷ bs) (inr m) =
    let (pre, post, e) = OneOf-split b bs m in (x ∷ pre, post, ap (λ l. x ∷ l) e)

pub Apart-remove :
    (f : ℕ → ℕ) (b : ℕ) (pre post : List ℕ)
    → Apart f (pre ++ (b ∷ post))
    → Apart f (pre ++ post) × ((x : ℕ) → OneOf x (pre ++ post) → Disjoint f b x)
unfolding Apart
Apart-remove f b [] post (h, a) = (a, h)
Apart-remove f b (y ∷ pre) post (h, a) =
    let (rest, away) = Apart-remove f b pre post a in
    ((λ x m. h x (OneOf-add x b pre post m), rest), others away)
  where
    others :
        ((x : ℕ) → OneOf x (pre ++ post) → Disjoint f b x)
        → (x : ℕ) → OneOf x ((y ∷ pre) ++ post)
        → Disjoint f b x
    others away x (inl e) =
        subst (λ z. Disjoint f b z) (sym e) (Disjoint-sym f y b (h b (OneOf-middle b pre post)))
    others away x (inr m) = away x m

pub total-remove :
    (f : ℕ → ℕ) (b : ℕ) (pre post : List ℕ)
    → total f (pre ++ (b ∷ post)) ≡ f b + total f (pre ++ post)
unfolding total
total-remove f b [] post = refl
total-remove f b (y ∷ pre) post = let e = total-remove f b pre post in omega (arith, e)

Absent-remove :
    (x b : ℕ) (pre post : List ℕ) → Absent x (pre ++ (b ∷ post)) → Absent x (pre ++ post) × (x ≢ b)
Absent-remove x b [] post (ne, h) = (h, ne)
Absent-remove x b (y ∷ pre) post (ne, h) =
    let (rest, away) = Absent-remove x b pre post h in ((ne, rest), away)

pub Nodup-remove :
    (b : ℕ) (pre post : List ℕ)
    → Nodup (pre ++ (b ∷ post))
    → Nodup (pre ++ post) × Absent b (pre ++ post)
Nodup-remove b [] post (off, n) = (n, off)
Nodup-remove b (y ∷ pre) post (off, n) =
    let (rest, away) = Nodup-remove b pre post n in
    let (off', ne) = Absent-remove y b pre post off in ((off', rest), (λ e. ne (sym e), away))

-- A block off the list is none of its blocks.
pub Absent-all : (b : ℕ) (bs : List ℕ) → ((x : ℕ) → OneOf x bs → b ≢ x) → Absent b bs
Absent-all b [] h = tt
Absent-all b (y ∷ bs) h = (h y (inl refl), Absent-all b bs (λ x m. h x (inr m)))

pub total-same :
    (f g : ℕ → ℕ) (bs : List ℕ) → ((x : ℕ) → OneOf x bs → g x ≡ f x) → total g bs ≡ total f bs
unfolding total
total-same f g [] h = refl
total-same f g (b ∷ bs) h =
    let e = h b (inl refl) in let r = total-same f g bs (λ x m. h x (inr m)) in omega (arith, e, r)

pub Disjoint-same :
    (f g : ℕ → ℕ) (b x : ℕ) → g b ≤ f b → g x ≡ f x → Disjoint f b x → Disjoint g b x
unfolding Disjoint
Disjoint-same f g b x e e' (inl h) = inl (omega (arith, e, h))
Disjoint-same f g b x e e' (inr h) = inr (omega (arith, e', h))

pub Apart-same :
    (f g : ℕ → ℕ) (bs : List ℕ) → ((x : ℕ) → OneOf x bs → g x ≡ f x) → Apart f bs → Apart g bs
unfolding Apart
Apart-same f g [] h a = tt
Apart-same f g (b ∷ bs) h (away, a) = (
  λ x m.
      Disjoint-same f g b x (let e = h b (inl refl) in omega (arith, e)) (h x (inr m)) (away x m),
  Apart-same f g bs (λ x m. h x (inr m)) a,
)

-- A block `q` that begins inside the block at `b` and ends where it does is apart from the blocks
-- that `b` is apart from.
pub Disjoint-ne : (f : ℕ → ℕ) (b q n x : ℕ) → q ≡ b + n → n < f b → Disjoint f b x → 0 < n → q ≢ x
unfolding Disjoint
Disjoint-ne f b q n x e less (inl h) pos same = omega (arith, e, same, less, h)
Disjoint-ne f b q n x e less (inr h) pos same = omega (arith, e, same, less, h, pos)

pub Disjoint-self : (f : ℕ → ℕ) (b x : ℕ) → Disjoint f b x → 0 < f b → x ≢ b
unfolding Disjoint
Disjoint-self f b x (inl h) pos same = omega (arith, same, h, pos)
Disjoint-self f b x (inr h) pos same = let e = ap f same in omega (arith, same, h, pos, e)

pub Disjoint-behind :
    (f g : ℕ → ℕ) (b q n x : ℕ)
    → q ≡ b + n
    → g q + n ≡ f b
    → g x ≡ f x
    → Disjoint f b x
    → Disjoint g q x
unfolding Disjoint
Disjoint-behind f g b q n x e e' k (inl h) = inl (omega (arith, e, e', h))
Disjoint-behind f g b q n x e e' k (inr h) = inr (omega (arith, e, k, h))

pub Disjoint-before : (g : ℕ → ℕ) (b q x : ℕ) → x ≡ q → q ≡ b + g b → Disjoint g b x
unfolding Disjoint
Disjoint-before g b q x e e' = inl (omega (arith, e, e'))

-- ===== src/Stack/Refines.antt =====
-- The stack refines a list, with its bottom first.
use apcu.Prelude.{
  ap, length-take, ℕ, zero, suc, ◌+◌, ◌-◌, ◌≤◌, ◌<◌, ◌≡◌, refl, sym, true, none, some, List, [],
  ◌∷◌, ◌++◌, arith, length, take, get_elem?, ltb, if◌then◌else◌,
}
use mathlib.Core.Path.{subst}
use apcu.Stack.{Stack, create, write, push, pop, get}

module _ {ℓ} {A : Type ℓ} where
  -- the items of the stack, bottom first
  pub items : Stack A → List A
  items s = take s.size s.cells

  -- the array has room for the items, and they are written
  pub record IsStack (s : Stack A) : Type ℓ where
    pub written : s.size ≤ length s.cells
    pub roomy : s.size ≤ s.capacity
    pub nonempty : 0 < s.capacity

  take-write :
      (xs : List A) (n : ℕ) (x : A)
      → n ≤ length xs
      → take (suc n) (write xs n x) ≡ take n xs ++ (x ∷ [])
  unfolding write
  take-write xs zero x h = refl
  take-write [] (suc n) x h = absurd (omega arith)
  take-write (y ∷ xs) (suc n) x h = rw (take-write xs n x (omega arith))

  take_again : (xs : List A) (n : ℕ) (x : A) → n ≤ length xs → take n (write xs n x) ≡ take n xs
  unfolding write
  take_again xs zero x h = refl
  take_again [] (suc n) x h = absurd (omega arith)
  take_again (y ∷ xs) (suc n) x h = rw (take_again xs n x (omega arith))

  get-write : (xs : List A) (n : ℕ) (x : A) → n ≤ length xs → get_elem? (write xs n x) n ≡ some x
  unfolding write
  get-write xs zero x h = refl
  get-write [] (suc n) x h = absurd (omega arith)
  get-write (y ∷ xs) (suc n) x h = get-write xs n x (omega arith)

  length-write : (xs : List A) (n : ℕ) (x : A) → n ≤ length xs → suc n ≤ length (write xs n x)
  unfolding write
  length-write xs zero x h = omega arith
  length-write [] (suc n) x h = absurd (omega arith)
  length-write (y ∷ xs) (suc n) x h = let ih = length-write xs n x (omega arith) in omega arith

  get-take :
      (xs : List A) (n i : ℕ) → get_elem? (take n xs) i ≡ (if ltb i n then get_elem? xs i else none)
  get-take xs zero i = ground arith
  get-take [] (suc n) i = ground arith
  get-take (x ∷ xs) (suc n) zero = ground arith
  get-take (x ∷ xs) (suc n) (suc i) =
      let smaller : ltb (suc i) (suc n) ≡ ltb i n = ground arith in rw (get-take xs n i, smaller)

  -- A new stack is empty, and it has room for at least one item.
  pub create-IsStack :
      (size_hint : ℕ) → IsStack (create size_hint) × (items (create size_hint) ≡ [])
  unfolding create items
  create-IsStack size_hint =
      (record { written = omega arith; roomy = omega arith; nonempty = ground arith }, refl)

  -- A push appends the item, and the array has room for it: it is doubled when it is full.
  pub push-items :
      (s : Stack A) (x : A)
      → IsStack s
      → IsStack (push s x) × (items (push s x) ≡ items s ++ (x ∷ []))
  unfolding push items
  push-items s x h =
      let next : s.size + 1 ≡ suc s.size = omega arith in
      let w = length-write s.cells s.size x h.written in
      let r = h.roomy in
      let p = h.nonempty in
      (
        record { written = omega arith; roomy = ground arith; nonempty = ground arith },
        rw (next, take-write s.cells s.size x h.written),
      )

  -- A pop after a push gives the item, and leaves the items that there were.
  pub pop-push :
      (s : Stack A) (x : A)
      → IsStack s
      → (rest : Stack A) × (pop (push s x) ≡ some (x, rest)) × (items rest ≡ items s)
  unfolding push pop items
  pop-push s x h =
      let some_item : ltb 0 (s.size + 1) ≡ true = ground arith in
      let last : s.size + 1 - 1 ≡ s.size = omega arith in
      (
        record (push s x) { size = (push s x).size - 1 },
        rw (some_item, last, get-write s.cells s.size x h.written, last),
        rw last (take_again s.cells s.size x h.written),
      )

  -- An item is read at its position from the bottom, and there is none from the size on.
  pub get-items : (s : Stack A) (n : ℕ) → get s n ≡ get_elem? (items s) n
  unfolding get items
  get-items s n = sym (get-take s.cells s.size n)

  items-snoc :
      (xs : List A) (m : ℕ) (ys : List A) (x : A)
      → suc m ≤ length xs
      → take (suc m) xs ≡ ys ++ (x ∷ [])
      → (get_elem? xs m ≡ some x) × (take m xs ≡ ys)
  items-snoc [] m ys x h e = absurd (omega arith)
  items-snoc (z ∷ zs) zero [] x h e = (cc, refl)
  items-snoc (z ∷ []) (suc m) [] x h e = absurd (omega arith)
  items-snoc (z ∷ w ∷ zs) (suc m) [] x h e = cc
  items-snoc (z ∷ zs) zero (y ∷ []) x h e = cc
  items-snoc (z ∷ zs) zero (y ∷ w ∷ ys) x h e = cc
  items-snoc (z ∷ zs) (suc m) (y ∷ ys) x h e =
      let tail : take (suc m) zs ≡ ys ++ (x ∷ []) = cc in
      let head : z ≡ y = cc in
      let (last, before) = items-snoc zs m ys x (omega arith) tail in (last, rw (head, before))

  suc_size : (xs : List A) (n : ℕ) (ys : List A) (x : A) → take n xs ≡ ys ++ (x ∷ []) → 0 < n
  suc_size xs zero [] x e = cc
  suc_size xs zero (y ∷ ys) x e = cc
  suc_size xs (suc n) ys x e = omega arith

  -- A well-formed stack whose last item is `x` gives it to a pop, and keeps the others.
  pub pop-last :
      (s : Stack A) (ys : List A) (x : A)
      → IsStack s
      → items s ≡ ys ++ (x ∷ [])
      → (rest : Stack A) × (pop s ≡ some (x, rest))
        × (items rest ≡ ys)
        × IsStack rest
        × (ltb 0 s.size ≡ true)
  unfolding pop items
  pop-last s ys x h e =
      let more = suc_size s.cells s.size ys x e in
      let step : s.size ≡ suc (s.size - 1) = omega arith in
      let w' : suc (s.size - 1) ≤ length s.cells = let w = h.written in omega arith in
      let (last, before) =
        items-snoc s.cells (s.size - 1) ys x w'
          (subst (λ n. take n s.cells ≡ ys ++ (x ∷ [])) step e) in
      let some_item : ltb 0 s.size ≡ true = ground arith in
      let w = h.written in
      let r = h.roomy in
      (
        record s { size = s.size - 1 },
        rw (some_item, last),
        before,
        record { written = omega arith; roomy = omega arith; nonempty = h.nonempty },
        some_item,
      )

  get_elem-some : (xs : List A) (i : ℕ) → i < length xs → (x : A) × (get_elem? xs i ≡ some x)
  get_elem-some [] i h = absurd (omega arith)
  get_elem-some (x ∷ xs) zero h = (x, refl)
  get_elem-some (x ∷ xs) (suc i) h = get_elem-some xs i (omega arith)

  -- A well-formed stack that is not empty can be popped, and is one smaller.
  pub pop-smaller :
      (s : Stack A)
      → IsStack s
      → 0 < s.size
      → (x : A) × (rest : Stack A) × (pop s ≡ some (x, rest))
        × (rest.size ≡ s.size - 1)
        × IsStack rest
  unfolding pop
  pop-smaller s h more =
      let w = h.written in
      let r = h.roomy in
      let some_item : ltb 0 s.size ≡ true = ground arith in
      let (x, there) = get_elem-some s.cells (s.size - 1) (omega arith) in
      (
        x,
        record s { size = s.size - 1 },
        rw (some_item, there),
        refl,
        record { written = omega arith; roomy = omega arith; nonempty = h.nonempty },
      )

  pub length-items : (s : Stack A) → IsStack s → length (items s) ≡ s.size
  unfolding items
  length-items s h = let w = h.written in omega (arith, length-take s.size s.cells)

  pub items-empty : (s : Stack A) → s.size ≡ 0 → items s ≡ []
  unfolding items
  items-empty s h = ap (λ n. take n s.cells) h

-- ===== src/Stack.antt =====
-- The growable stack of apc_stack.c. `data` is the allocated array as the list of its written
-- cells: a cell that was popped keeps its contents until it is overwritten.
pub mod Refines
use apcu.Prelude.{
  ℕ, zero, suc, ◌+◌, ◌-◌, ◌*◌, Bool, true, false, Option, none, some, List, [], ◌∷◌, ltb, ◌==◌,
  if◌then◌else◌, get_elem?, length, take, drop, ◌++◌,
}

module _ {ℓ} where
  pub record Stack (A : Type ℓ) : Type ℓ where
    pub cells : List A
    pub capacity : ℕ
    pub size : ℕ

module _ {ℓ} {A : Type ℓ} where
  unfoldable pub create : ℕ → Stack A
  create size_hint = record {
    cells = [];
    capacity = if ltb 0 size_hint then size_hint else 10;
    size = 0;
  }

  unfoldable pub clear : Stack A → Stack A
  clear s = record s { size = 0 }

  -- `data[n] = item`, where the cells below `n` are written
  unfoldable pub write : List A → ℕ → A → List A
  write xs n item = take n xs ++ (item ∷ drop (suc n) xs)

  unfoldable pub push : Stack A → A → Stack A
  unfolding write
  push s item = record {
    cells = write s.cells s.size item;
    capacity = if s.size == s.capacity then s.capacity * 2 else s.capacity;
    size = s.size + 1;
  }

  -- `none` is a failed assertion
  pub pop : Stack A → Option (A × Stack A)
  pop s =
      if ltb 0 s.size
      then elim (get_elem? s.cells (s.size - 1)) [
        | none ↦ none
        | some a ↦ some (a, record s { size = s.size - 1 })
      ]
      else none

  unfoldable top : Stack A → Option A
  top s = if ltb 0 s.size then get_elem? s.cells (s.size - 1) else none

  unfoldable pub get : Stack A → ℕ → Option A
  get s n = if ltb n s.size then get_elem? s.cells n else none

  unfoldable pub size_of : Stack A → ℕ
  size_of s = s.size

-- ===== src/Tests/SmaWitnesses.antt =====
-- The theorems on the allocator, the stack and the number of slots at concrete inputs.
use apcu.Prelude.{
  OneOf, ℕ, ◌+◌, ◌<◌, ◌≤◌, ◌≡◌, refl, true, false, Option, none, some, List, [], ◌∷◌, arith, ◌⊎◌,
  inl, inr,
}
use apcu.Stack.{Stack, create, push, pop}
use apcu.Stack.Refines.{items, IsStack, create-IsStack, pop-push}
use apcu.Sma.Block.{next_sblock, Segment}
use apcu.Sma.Block.FreeList.{AllSmaller}
use apcu.Sma.Alloc.{sma_allocate, sma_deallocate}
use apcu.Sma.Alloc.Extents.{Apart, Disjoint, total}
use apcu.Sma.Alloc.Handed.{Free, Handed}
use apcu.Sma.Alloc.Hands.{sma_allocate-hands}
use apcu.Sma.Alloc.Joins.{Before, Behind}
use apcu.Sma.Alloc.Returns.{sma_deallocate-returns}
use apcu.Sma.Api.Init.{init_segment-Free}
use apcu.Sma.Malloc.{full, malloc}
use apcu.Sma.Malloc.Laws.{malloc_total}
use apcu.Sma.Api.{init_segment}
use apcu.Cache.Create.{make_prime, primes}
use apcu.Cache.Create.Primes.{LeastAbove, AllBelow, make_prime-least}
use apcu.Tests.SmaRuns.{platform}

-- a free block at 88 and the sentinel at 968
abbrev segment : Segment
segment = init_segment 1000 0

init_segment-Free_example : Free segment (88 ∷ 968 ∷ []) × (56 + 32 + segment.avail + 32 ≡ 1000)
unfolding init_segment platform
init_segment-Free_example = init_segment-Free 1000 0 (omega arith) (omega arith)

segment-Free : Free segment (88 ∷ 968 ∷ [])
unfolding init_segment platform
segment-Free = (init_segment-Free 1000 0 (omega arith) (omega arith)).0

sma_allocate-hands_example :
    (((segment.avail < 136) ⊎ AllSmaller segment 136 (88 ∷ 968 ∷ []))
      × (sma_allocate 3 100 segment ≡ some (none, segment)))
    ⊎ ((cur : ℕ) × (r : Segment) × (rest : List ℕ) × (sma_allocate 3 100 segment
          ≡ some (some (cur + 32), r))
        × OneOf cur (88 ∷ 968 ∷ [])
        × Handed segment 136 cur r rest
        × (r.min_block_size ≡ segment.min_block_size))
unfolding init_segment platform
sma_allocate-hands_example =
    sma_allocate-hands 3 100 (88 ∷ 968 ∷ []) segment segment-Free (omega arith) (omega arith)
      (omega arith)

-- The block at 88 is allocated, that at 224 is free.
taken : Segment
unfolding init_segment platform sma_allocate
taken = elim (sma_allocate 3 100 segment) [ none ↦ segment | some r ↦ r.1 ]

taken-Free : Free taken (224 ∷ 968 ∷ [])
unfolding taken Apart Disjoint total
taken-Free = record {
  linked = (refl, refl, omega arith, (refl, refl, omega arith, refl));
  once = (((λ e. omega arith), ((λ e. omega arith), tt)), (((λ e. omega arith), tt), (tt, tt)));
  apart = (
    (λ x m. elim m [ inl e ↦ inl (omega (arith, e)) | inr n ↦ absurd n ]),
    ((λ x m. absurd m), tt),
  );
  above = λ x m. elim m [
    | inl e ↦ omega (arith, e)
    | inr m' ↦ elim m' [ inl e ↦ omega (arith, e) | inr n ↦ absurd n ]
  ];
  filled = refl;
  bounded = omega arith;
}

sma_deallocate-returns_example :
    (r : Segment) × (c : ℕ) × (rest : List ℕ) × (sma_deallocate (88 + 32) taken ≡ some (136, r))
    × Free r (c ∷ rest)
    × (r.avail ≡ taken.avail + 136)
    × (c ≡ 88)
    × (c + (r.block_at c).size ≡ 968)
    × ((r.block_at (next_sblock r c)).prev_size ≡ (r.block_at c).size)
unfolding taken Disjoint Before Behind
sma_deallocate-returns_example =
    sma_deallocate-returns 88 (224 ∷ 968 ∷ []) taken taken-Free (omega arith) (omega arith)
      (omega arith)
      (λ x m. elim m [
        | inl e ↦ inl (omega (arith, e))
        | inr m' ↦ elim m' [ inl e ↦ inl (omega (arith, e)) | inr n ↦ absurd n ]
      ])
      (inl refl) (λ free. (inl refl, refl))

malloc_total_example :
    (r : Option ℕ × ℕ) × (malloc
        (λ (s : ℕ). 100)
        (λ s n. full s)
        (λ s n. (true, s + 1))
        2
        false
        7
        30
      ≡ some r)
malloc_total_example =
    malloc_total (λ (s : ℕ). 100) (λ s n. full s) (λ s n. (true, s + 1)) (λ s n. refl) 0 7 30

abbrev two : Stack ℕ
two = record { cells = 4 ∷ 5 ∷ 6 ∷ []; capacity = 2; size = 2 }

two-IsStack : IsStack two
two-IsStack = record { written = omega arith; roomy = omega arith; nonempty = omega arith }

create-IsStack_example : IsStack (create {A = ℕ} 0) × (items (create {A = ℕ} 0) ≡ [])
create-IsStack_example = create-IsStack 0

pop-push_example : (rest : Stack ℕ) × (pop (push two 9) ≡ some (9, rest)) × (items rest ≡ items two)
pop-push_example = pop-push two 9 two-IsStack

make_prime-least_example :
    (OneOf (make_prime 600) primes
      × (600 < make_prime 600)
      × LeastAbove 600 (make_prime 600) primes)
    ⊎ (OneOf (make_prime 600) primes × (make_prime 600 ≤ 600) × AllBelow (make_prime 600) primes)
make_prime-least_example = make_prime-least 600

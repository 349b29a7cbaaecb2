-- ===== src/Sma/Api/Instance.antt =====
-- The allocator of apc_sma.c as the interface that the cache uses. A walk that does not end in its
-- fuel, or a failed assertion, leaves the memory as it is; on a well-formed segment there is none.
use apcu.Prelude.{ℕ, ◌+◌, Bool, false, Option, none, some, Bool-cases, Option-cases, inl, inr}
use apcu.Sma.Defrag.{defrag}
use apcu.Sma.Defrag.Owner.{defrag-owner}
use apcu.Sma.Platform.{Platform}
use apcu.Sma.Malloc.{no_lock}
use apcu.Sma.Api.{Sma, try_malloc, free, check_avail, check_avail_contiguous, sma_defrag}
use apcu.Cache.Allocator.{Allocator}

pub or_keep {ℓ} : {A : Type ℓ} → A → Option A → A
or_keep x none = x
or_keep x (some y) = y

pub defrag_inv_lem :
    ⦃p : Platform⦄
    → (locked : Bool) (D : Type 0) (P : D → Type 0) (move : D → ℕ → ℕ → Bool × D)
    → ((d : D) (old new : ℕ) → P d → P (move d old new).1)
    → (m : Sma) (d : D) → P d
    → P (or_keep (m, d) (sma_defrag move locked m d)).1
unfolding or_keep sma_defrag
defrag_inv_lem locked D P move keeps m d h =
    let inner = λ (e : D) (old new : ℕ). move e (m.shmaddr + old) (m.shmaddr + new) in
    let after = defrag-owner inner P (λ e old new g. keeps e _ _ g) (m.size + 1) m.size m.seg d h in
    elim (Bool-cases locked) [
      | inr l ↦ rw l h
      | inl l ↦ elim (Option-cases (defrag inner (m.size + 1) m.size m.seg d)) [
        | inl e ↦ rw (l, e) h
        | inr (r, e) ↦ rw (l, e) (after r e)
      ]
    ]

module _ ⦃p : Platform⦄ (locked : Bool) where
  unfoldable pub sma_allocator : Allocator
  unfolding or_keep try_malloc free check_avail check_avail_contiguous sma_defrag
  sma_allocator = record {
    Mem = Sma;
    total_size = λ m. m.size;
    max_alloc_size = λ m. m.max_alloc_size;
    try_malloc = λ m n. or_keep no_lock (try_malloc locked m n);
    free = λ m ptr. or_keep m (free locked m (some ptr));
    check_avail = check_avail;
    check_avail_contiguous = λ m size. or_keep false (check_avail_contiguous locked m size);
    defrag = λ D move m d. or_keep (m, d) (sma_defrag move locked m d);
    defrag_inv = defrag_inv_lem locked;
  }

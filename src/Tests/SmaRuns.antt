-- ===== src/Tests/SmaRuns.antt =====
-- The allocator on a segment of 1000 bytes.
use apcu.Prelude.{ℕ, ◌+◌, ◌*◌, ◌/◌, ◌≤◌, ◌≡◌, refl, Option, some, List, [], ◌∷◌, ◌>>=◌, arith}
use apcu.Sma.Platform.{Platform}
use apcu.Sma.Block.{Segment}
use apcu.Sma.Alloc.{sma_allocate, sma_deallocate}
use apcu.Sma.Api.{Link, init_segment, info_loop}

pub align8 : ℕ → ℕ
align8 n = (n + 7) / 8 * 8

pub align8-le : (n : ℕ) → n ≤ align8 n
unfolding align8
align8-le n = omega arith

-- 64-bit words, a mutex of 40 bytes
instance unfoldable pub platform : Platform
unfolding align8
platform = record {
  align_word = align8;
  sizeof_block_t = 32;
  sizeof_sma_header_t = 56;
  sizeof_block_t_pos = omega arith;
  sizeof_sma_header_t_pos = omega arith;
  align_word-le = align8-le;
}

abbrev fresh : Segment
fresh = init_segment 1000 0

-- what is left free after two allocations, and after the first of them is given back
free_after : Option (ℕ × List Link)
unfolding platform init_segment sma_allocate sma_deallocate info_loop
free_after = sma_allocate 1000 100 fresh >>= λ r. sma_allocate 1000 50 r.1 >>= λ s.
    sma_deallocate 120 s.1 >>= λ t.
    info_loop 1000 t.1 (t.1.block_at 56).fnext >>= λ ls. some (t.0, ls)

free_after_runs :
    free_after
    ≡ some (136, record { size = 136; offset = 88 } ∷ record { size = 656; offset = 312 } ∷ [])
unfolding free_after
free_after_runs = refl

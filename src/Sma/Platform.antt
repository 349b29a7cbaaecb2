-- ===== src/Sma/Platform.antt =====
-- What the allocator takes from the platform: the alignment of Zend's memory manager
-- (`ZEND_MM_ALIGNED_SIZE`, which `ALIGNWORD` of apc_sma.h names) and the sizes of its structs.
use apcu.Prelude.{ℕ, ◌+◌, ◌-◌, ◌%◌, ◌^◌, ◌≤◌, ◌<◌}

pub record Platform : Type 0 where
  pub align_word : ℕ → ℕ
  pub sizeof_block_t : ℕ
  pub sizeof_sma_header_t : ℕ
  pub sizeof_block_t_pos : 0 < sizeof_block_t
  pub sizeof_sma_header_t_pos : 0 < sizeof_sma_header_t
  pub align_word-le : (n : ℕ) → n ≤ align_word n

-- `size_t` arithmetic of a 64-bit build.
abbrev size_t : ℕ
size_t = 2 ^ 64

abbrev pub wadd : ℕ → ℕ → ℕ
wadd a b = (a + b) % size_t

abbrev pub wsub : ℕ → ℕ → ℕ
wsub a b = (a + size_t - b) % size_t

module _ ⦃p : Platform⦄ where
  -- `ALIGNWORD(sizeof(block_t))`
  abbrev pub block_header : ℕ
  block_header = p.align_word p.sizeof_block_t

  -- `ALIGNWORD(sizeof(sma_header_t))`, the offset of the first block
  abbrev pub first_block : ℕ
  first_block = p.align_word p.sizeof_sma_header_t

  -- `ALIGNWORD(size + ALIGNWORD(sizeof(block_t)))`
  abbrev pub real_size : ℕ → ℕ
  real_size size = p.align_word (wadd size block_header)

-- ===== src/Sma.antt =====
-- The shared memory allocator of apc_sma.c and apc_sma.h: its process-local record, its segment,
-- and the functions of its interface. The blocks are in Sma/Block.antt, allocation and
-- deallocation in Sma/Alloc.antt, defragmentation in Sma/Defrag.antt.
pub mod Platform
pub mod Block
pub mod Alloc
pub mod Defrag
pub mod Malloc
pub mod Api

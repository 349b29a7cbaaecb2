-- ===== src/Cache.antt =====
-- The cache of apc_cache.c and apc_cache.h: a hash table of entries in the segment, with a list of
-- removed entries that are still referenced. Each child models one group of functions.
pub mod Types
pub mod Allocator
pub mod Entry
pub mod Remove
pub mod Insert
pub mod Find
pub mod Expunge
pub mod Store
pub mod Fetch
pub mod Update
pub mod Create
pub mod Delete
pub mod Valid

-- ===== src/Iterator.antt =====
-- `APCUIterator` (apc_iterator.c).
pub mod Types
pub mod Fetch
pub mod Pins
pub mod Gather
pub mod Items
pub mod Covers
pub mod Methods
pub mod Endless
pub mod Restart
pub mod Totals
pub mod Construct

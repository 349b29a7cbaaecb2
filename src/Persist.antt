-- ===== src/Persist.antt =====
-- The conversion of values into the form in which an entry keeps them, and back (apc_persist.c), in
-- a build for PHP 8.2 or later.
pub mod Zend
pub mod Calc
pub mod Copy
pub mod Entry
pub mod Unpersist
pub mod Whole
pub mod Sync
pub mod Once
pub mod Steps
pub mod Serialized
pub mod Exact
pub mod Bounds
pub mod Content
pub mod Tables
pub mod Sim
pub mod Grown
pub mod Back
pub mod Kept
pub mod Parts
pub mod RoundTrip
pub mod Restored

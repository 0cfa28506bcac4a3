-- ===== src/Index.antt =====
-- src/index/in_mem_index.c: the in-memory index, built attribute by attribute.
pub mod State
pub mod Values
pub mod Build
pub mod Aof
pub mod Buckets
pub mod Calls
pub mod Faults
pub mod Loading
pub mod Finishes
pub mod Paths
pub mod Pairs
pub mod Numeric
pub mod Log
pub mod Bucket
pub mod Refines
pub mod Strings
pub mod Locking

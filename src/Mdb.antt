-- ===== src/Mdb.antt =====
-- src/index/on_disk_index.c and in_mem_index.c: the file that the whole index is dumped to and loaded
-- from. `none` is a fault: a null pointer is read.
pub mod Dump
pub mod Load
pub mod Paths
pub mod PairLists
pub mod Values
pub mod Names
pub mod Copied
pub mod Restart
pub mod Regions

-- ===== src/Storage.antt =====
-- src/index/storage/bin_file_ops.c and bin_file_ops.h: typed fields in a binary file.
-- A stream open for writing is the list of the bytes written so far; a stream open for reading is
-- the list of the bytes from its position to its end. An `int` is its 32-bit pattern, a `double`
-- its 64-bit pattern, a `size_t` or `uint64_t` its value; the host is little-endian with an 8-byte
-- `size_t`, and memory allocation succeeds.
pub mod Words
pub mod Fields
pub mod RoundTrip
pub mod Consumed
pub mod Misuse

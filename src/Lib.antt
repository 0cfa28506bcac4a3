-- ===== src/Lib.antt =====
-- MIQS indexes the metadata attributes of self-describing scientific files in memory, writes the
-- index to disk, and answers searches for attributes by name and value.
--
-- The parts, and the files that model them (paths are from the root of the repository):
--
-- - src/index/storage/bin_file_ops.c writes and reads typed fields in a binary file. Storage.antt:
--   Storage/Words has the bytes of words, Storage/Fields the functions, one definition for each of
--   the same name, Storage/RoundTrip and Storage/Misuse the proofs. A stream is the list of bytes
--   written so far, or of those left to read.
-- - src/utils/hash_utils.c, the string hashes: Hashing.antt.
-- - src/metadata/miqs_metadata.c and .h, the types of attributes: Metadata.antt.
-- - src/index/on_disk_index.c: the records of the append-only file and the search of a file for
--   them. Records.antt has create_index_record, append_index_record and read_index_record,
--   Records/Find find_index_record, and Records/Layout, Visit and Search the proofs.
-- - src/index/in_mem_index.c, the index in memory. Index.antt: Index/State has the records of
--   in_mem_index.h and on_disk_index.h, Index/Values insert_tagged_value, indexing_numeric and
--   indexing_string, Index/Build init_in_mem_index and create_in_mem_index_for_attr, Index/Aof
--   indexing_attr, write_aof and load_aof. Index/Log is the abstract index, a list of facts, and
--   Paths, Pairs, Numeric, Bucket and Refines lead up to it.
-- - src/miqs_querying.c, the search: Query.antt, and Query/Exact for the proofs. Query/Sharing has
--   threads that search beside threads that index, under the locks of the buckets, and Sharing/Kept,
--   Whole, Answers, Now and Progress the proofs. A search there reads the index bit by bit, at several
--   moments.
-- - src/index/on_disk_index.c and in_mem_index.c, the file that the whole index is dumped to. Mdb.antt:
--   Mdb/Dump has the append functions and dump_mdb_index_to_disk, Mdb/Load the read functions and
--   load_mdb_file_to_index. Mdb/Paths, PairLists, Values, Names, Copied and Restart lead up to the
--   round trip of a whole file, Mdb/Regions is about several buckets.
-- - src/utils/timer_utils.c, the stopwatch: Timer.antt.
-- - src/utils/string_utils.c, the patterns with stars at their ends and the substring functions:
--   Strings.antt, and Strings/Patterns and Strings/Matching for the proofs. What memory holds behind a
--   block is a parameter, since the copies of substring have no terminator. Strings/Concat is concat,
--   with the size of its buffer. Strings/Words is the reading of a file of words, and str_append;
--   Words/Lines and Words/Text have the proofs.
-- - Tests.antt and its children run the definitions on concrete data.
-- - src/utils/fs/fs_ops.c, the walk over a directory, with the filters and the callback that
--   src/miqs_indexing.c hands to it: Walk.antt, and Walk/Visited for the proofs.
--   Walk/Mkpath is mkpath, with dirname and mkdir as parameters.
-- - src/utils/query_utils.c, keys and values in a list of tags: Tags.antt, and Tags/Pairs and
--   Tags/Lists for the proofs. Tags/Numbers has atoi and the range check, and Numbers/Range its proof.
-- - src/metadata, the scan of an HDF5 file: Extract.antt has what the HDF5 library returns and the values
--   of an attribute, Extract/Nodes the linked lists on a heap, Extract/Collector the collector, its
--   callbacks and scan_hdf5, Extract/Attributes and Extract/Collected the proofs.
-- - src/h52index/hdf52index.c, the callbacks that index what is scanned, and parse_hdf5_file:
--   Extract/Indexing.antt, and Extract/Facts and Extract/Scanned for the proofs. The
--   collector is not freed in the model: the code frees a structure of the HDF5 library there.
-- - src/index/spi, the plug-ins: Plugins.antt has the interface of a data structure, Plugins/StringStores
--   and Plugins/NumberStores the back ends, Plugins/Strings and Plugins/Numbers the dispatch on the
--   environment, Plugins/Found, Plugins/FoundNumbers and Plugins/Affixes the proofs. Plugins/Assoc is an
--   association list as a data structure. Nothing is asked of the red-black tree of strings, which
--   compares keys that have no terminator, nor of the sparse array.
-- - src/miqs_indexing.c, the configuration, the names of the index files, loading and recovering:
--   Driver.antt, and Driver/Names and Driver/Recovery for the proofs. indexing_data_collection is in
--   Driver/Collection, as the run of one process, with Driver/Nothing for the proofs. What is listed
--   behind the barrier of the processes is a parameter.
-- - Indexing as a change of one bucket: Index/Buckets, and Index/Calls for calls one behind the other.
--   Any threads with the write locks of the buckets, as a step relation: Index/Locking, with
--   Index/Locking/Steps, Serial, Live and Progress for the proofs. The counter us_to_index, which
--   no lock guards, has any value when a call returns. What becomes of string values:
--   Index/Strings.
-- - That the loops over a file end: Storage/Consumed, Records/Finishes and Index/Finishes.
--
-- The index keeps its paths in linked lists and its names and values in trees, which come from
-- copies of the libraries libhl (src/index/libhl) and libart (src/index/art). They are a parameter
-- here: Containers.antt is a record of their operations with the laws that the index relies on, and
-- Containers/Assoc meets the laws with plain lists. What the code changes through a pointer into a
-- container is written back under its key.
--
-- A fault (a null or unset pointer that is read, memory read as another type) is `none`, or a
-- constructor of the result's own type. A path of an attribute that is null is not followed: the code
-- puts it in an empty table as a tag that is null, which the tables of paths here do not have, so that
-- `none` stands for it too. An int is its 32-bit pattern, a double its 64-bit pattern.
-- The loops over a file run on fuel, one round more than the file has bytes: each round reads a byte
-- at least.
--
-- Not modelled: the counters of allocated memory; failing allocations; MPI, the HDF5 library and the
-- operating system, of which only what their calls return is given; output; the applications.
pub mod Containers
pub mod Driver
pub mod Extract
pub mod Hashing
pub mod Index
pub mod Mdb
pub mod Metadata
pub mod Plugins
pub mod Prelude
pub mod Query
pub mod Records
pub mod Storage
pub mod Strings
pub mod Tags
pub mod Tests
pub mod Timer
pub mod Walk

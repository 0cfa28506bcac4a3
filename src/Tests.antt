-- ===== src/Tests.antt =====
-- Data for the runs of the definitions, over the containers of Containers/Assoc.antt.
mod Storage
mod Locking
mod Records
mod Index
mod Mdb
mod Utils
mod Extract
mod Plugins
mod Dirs
mod Sharing
mod Driver
use Prim.Native.Char.{code}
use Prim.Native.String.{String}
use mathlib.Core.Path.{subst}
use miqs.Containers.{TaggedValue}
use miqs.Containers.Assoc.{assoc}
use miqs.Hashing.{djb2_loop, djb2_hash, sdbm_hash, lose_lose_hash, horner, hash-horner}
use miqs.Index.Build.{
  empty_leaf, new_leaf, index_values, find_leaf, init_in_mem_index, create_in_mem_index_for_attr,
  bucket_of,
}
use miqs.Index.Log.{Fact, facts_of, matching}
use miqs.Index.Paths.{IsTable, Extends, HasTag, insert_tagged_value-HasTag}
use miqs.Index.Refines.{int_attribute, Represents, init-Represents, create-Represents}
use miqs.Index.State.{ValueLeaf, FileObjPair, Anchor, Attribute}
use miqs.Index.Values.{
  new_value_leaf, numeric_round, indexing_numeric, numeric_loop, numeric_entry, push_pair,
  insert_tagged_value,
}
use miqs.Mdb.Dump.{
  append_path_list, append_file_obj_pair_linked_list, dump_mdb_index_to_disk, append_file_obj_pair,
  append_pairs, append_path, append_paths, append_int_value_node, append_numeric_nodes,
  append_numeric_value_tree, append_attr_name_node, append_attr_nodes, append_attr_root_tree,
  append_all_trees, append_buckets,
}
use miqs.Mdb.Load.{
  read_into_path_list, read_file_obj_path_pair_list, load_mdb_file_to_index, follow, read_pair,
  read_paths, read_pairs, add_number, read_number_leaf, read_attr_value_node, read_value_nodes,
  leaf_of_type, read_attr_values, read_attr_name_node, read_name_nodes, read_into_attr_root_tree,
  load_bucket, load_buckets, anchor_to_load,
}
use miqs.Mdb.PairLists.{unbucketed, read_pair_list-append_pair_list}
use miqs.Mdb.Paths.{TextTags, read_path_list-append_path_list}
use miqs.Mdb.Regions.{load-dump_fault}
use miqs.Metadata.{get_miqs_type_from_int}
use miqs.Prelude.{
  ◌+◌, ℕ, sym, zero, suc, ◌==◌, ◌≡◌, ap, ◌++◌, ◌%◌, ◌^◌, ◌≢◌, refl, Bool, true, false, Option, none,
  some, List, [], ◌∷◌, Bytes, ◌>>=◌, arith, length, take, map, ◌/◌,
}
use miqs.Query.{
  path_at, collect_result_from_list, SearchRstEntry, atv_integer, exact_metadata_search,
  attribute_value_search, search_in_leaf, search_leaf, find_number, collect_results,
}
use miqs.Query.Exact.{search-Represents, search_miss}
use miqs.Records.{int_at, Pointee, append_index_record, read_index_record}
use miqs.Records.Find.{find_index_record, array, undefined, initial_capacity}
use miqs.Records.Layout.{
  Entry, IsEntry, int_value, text_value, record_of, layout, layout_all, append-layout, read-layout,
}
use miqs.Records.Search.{find-layout_all, find_enlarged}
use miqs.Storage.Fields.{
  append_header, miqs_append_string_with_len, miqs_append_type, c_str, read_array, read_payload,
  read_type, read_length, miqs_read_general, one_of, miqs_append_int, miqs_read_int,
  miqs_append_string, miqs_read_string, miqs_append_double, miqs_read_double, miqs_append_uint64,
  miqs_read_uint64, miqs_append_size_t, miqs_read_size_t, miqs_skip_field, element_width,
}
use miqs.Storage.Misuse.{IsField, skip_field-field, read_any_field}
use miqs.Storage.RoundTrip.{field, IsText, read_wide-append_wide}
use miqs.Storage.Words.{of_le_bytes, fread, fwrite, le_bytes}
use miqs.Timer.{
  Stopwatch, timer_start, timer_delta_ns, timer_delta_us, timer_delta_h, pause_after, unpause_after,
  run_calls, delta-run_calls,
}

-- Code points; every literal below is ASCII.
abbrev pub codes : String → Bytes
codes String.[] = []
codes (String.◌∷◌ c s) = code c ∷ codes s

abbrev pub plate : Bytes
plate = codes "PLATE"

abbrev pub run_h5 : Bytes
run_h5 = codes "run.h5"

abbrev pub sky_h5 : Bytes
sky_h5 = codes "sky.h5"

abbrev pub start : Anchor
start = init_in_mem_index 4

-- An attribute with an array of values in one file, and the same name in another.
abbrev pub plate_run : Attribute
plate_run = int_attribute plate (3 ∷ 5 ∷ 3 ∷ []) run_h5 (codes "/a")

abbrev pub plate_sky : Attribute
plate_sky = int_attribute plate (3 ∷ []) sky_h5 (codes "/b")

abbrev pub item : Bytes → Bytes → SearchRstEntry
item file object = record { file_path = file; obj_path = object }

pub plate-IsText : IsText plate
plate-IsText = record { no_zero = ground arith; fits = omega arith }

abbrev pub run_table : List TaggedValue
run_table = record { tag = run_h5; value = 0 } ∷ []

pub run_table-IsTable : IsTable run_table
run_table-IsTable zero tv e = ground arith
run_table-IsTable (suc i) tv e = cc

-- The index that a step leaves, if it does not fault.
abbrev pub or_start : Option Anchor → Anchor
or_start none = start
or_start (some a) = a

abbrev pub after : Anchor
after = or_start (create_in_mem_index_for_attr 7 start plate_run)

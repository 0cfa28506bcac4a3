-- ===== src/Tests/Mdb.antt =====
-- Runs of the dump and the load of the index.
use miqs.Containers.Assoc.{assoc}
use miqs.Hashing.{djb2_loop, djb2_hash}
use miqs.Index.Build.{
  empty_leaf, new_leaf, index_values, find_leaf, init_in_mem_index, create_in_mem_index_for_attr,
  bucket_of,
}
use miqs.Index.State.{Anchor, ValueLeaf, FileObjPair}
use miqs.Index.Values.{
  new_value_leaf, numeric_round, indexing_numeric, numeric_loop, numeric_entry, push_pair,
  insert_tagged_value,
}
use miqs.Mdb.Dump.{
  append_path_list, append_file_obj_pair_linked_list, dump_mdb_index_to_disk, append_file_obj_pair,
  append_pairs, append_path, append_paths, append_int_value_node, append_numeric_nodes,
  append_numeric_value_tree, append_attr_name_node, append_attr_nodes, append_attr_root_tree,
  append_all_trees, append_buckets,
}
use miqs.Mdb.Load.{
  read_into_path_list, read_file_obj_path_pair_list, load_mdb_file_to_index, follow, read_pair,
  read_paths, read_pairs, add_number, read_number_leaf, read_attr_value_node, read_value_nodes,
  leaf_of_type, read_attr_values, read_attr_name_node, read_name_nodes, read_into_attr_root_tree,
  load_bucket, load_buckets, anchor_to_load,
}
use miqs.Mdb.PairLists.{unbucketed, read_pair_list-append_pair_list}
use miqs.Mdb.Paths.{TextTags}
use miqs.Mdb.Restart.{IsStorable, load-dump-Represents}
use miqs.Index.Log.{Fact, facts_of, matching}
use miqs.Index.Refines.{Represents, init-Represents, create-Represents}
use mathlib.Core.Path.{subst}
use miqs.Mdb.Regions.{load-dump_fault}
use miqs.Metadata.{get_miqs_type_from_int}
use miqs.Prelude.{
  ◌≡◌, ◌++◌, refl, none, some, List, [], ◌∷◌, Bytes, ◌>>=◌, arith, map, sym, ap, ◌≢◌, ℕ,
}
use miqs.Query.{
  path_at, collect_result_from_list, atv_integer, exact_metadata_search, attribute_value_search,
  search_in_leaf, search_leaf, find_number, collect_results,
}
use miqs.Storage.Fields.{
  append_header, miqs_append_string_with_len, miqs_append_type, c_str, read_array, read_payload,
  read_type, read_length, miqs_read_general, one_of, miqs_append_int, miqs_read_int,
  miqs_append_string, miqs_read_string, miqs_append_uint64, miqs_read_uint64, miqs_append_size_t,
  miqs_read_size_t,
}
use miqs.Storage.Words.{of_le_bytes, fread, fwrite, le_bytes}
use miqs.Tests.{codes, plate, run_h5, start, plate_run, plate-IsText, item, run_table, or_start}

run_table_text : TextTags run_table
run_table_text = (record { no_zero = ground arith; fits = omega arith }, tt)

abbrev one_pair : List FileObjPair
one_pair = record { parallel_index_pos = 3; file_list_pos = 0; obj_list_pos = 1 } ∷ []

-- A dump and a load: with one bucket the index comes back, with two the load faults.
dump_load_one :
    (dump_mdb_index_to_disk
        (or_start (create_in_mem_index_for_attr 7 (init_in_mem_index 1) plate_run))
      >>= λ bytes. load_mdb_file_to_index 64 (some bytes) none >>= λ a.
          a >>= λ b. exact_metadata_search b plate (atv_integer 5))
    ≡ some (record { size = 1; rst_arr = item run_h5 (codes "/a") ∷ [] })
unfolding append_file_obj_pair append_pairs append_path append_paths
    append_file_obj_pair_linked_list append_path_list append_int_value_node append_numeric_nodes
    append_numeric_value_tree append_attr_name_node append_attr_nodes append_attr_root_tree
    append_all_trees append_buckets dump_mdb_index_to_disk follow read_pair read_paths
    read_into_path_list read_pairs read_file_obj_path_pair_list add_number read_number_leaf
    read_attr_value_node read_value_nodes leaf_of_type read_attr_values read_attr_name_node
    read_name_nodes read_into_attr_root_tree load_bucket load_buckets anchor_to_load
    load_mdb_file_to_index init_in_mem_index empty_leaf new_leaf find_leaf index_values bucket_of
    create_in_mem_index_for_attr insert_tagged_value push_pair new_value_leaf numeric_entry
    numeric_round numeric_loop indexing_numeric append_header miqs_append_int
    miqs_append_string_with_len miqs_append_string miqs_append_uint64 miqs_append_size_t
    miqs_append_type c_str read_array read_payload read_type read_length miqs_read_general one_of
    miqs_read_int miqs_read_uint64 miqs_read_size_t miqs_read_string le_bytes of_le_bytes fread
    fwrite find_number search_leaf search_in_leaf attribute_value_search path_at
    collect_result_from_list collect_results exact_metadata_search djb2_loop djb2_hash
    get_miqs_type_from_int
dump_load_one = refl

read_pair_list-append_pair_list_example :
    (written : Bytes) × (append_file_obj_pair_linked_list one_pair (7 ∷ []) ≡ 7 ∷ [] ++ written)
    × (leaf : ValueLeaf) × (read_file_obj_path_pair_list (written ++ 9 ∷ []) ≡ some (leaf, 9 ∷ []))
    × (leaf.file_obj_pair_list ≡ map unbucketed one_pair)
read_pair_list-append_pair_list_example =
    read_pair_list-append_pair_list one_pair (7 ∷ []) (9 ∷ []) ((omega arith, omega arith), tt)
      (omega arith)

load-dump_fault_example :
    (bytes : Bytes) × (dump_mdb_index_to_disk start ≡ some bytes)
    × (load_mdb_file_to_index 64 (some bytes) none ≡ none)
    × (load_mdb_file_to_index 64 (some bytes) (some start) ≡ none)
load-dump_fault_example = load-dump_fault 2 64 (omega arith)

-- An index of one bucket with the attribute of an object.
abbrev one_bucket : Anchor
one_bucket = or_start (create_in_mem_index_for_attr 7 (init_in_mem_index 1) plate_run)

abbrev one_log : List Fact
one_log = [] ++ facts_of plate (3 ∷ 5 ∷ 3 ∷ []) run_h5 (codes "/a")

one_bucket-Represents : Represents one_bucket one_log
one_bucket-Represents =
    let (a', eq, r) =
      create-Represents (init_in_mem_index 1) [] 7 plate (3 ∷ 5 ∷ 3 ∷ []) run_h5 (codes "/a")
        (init-Represents 1 (omega arith)) in
    subst (λ a. Represents a one_log) (sym (ap or_start eq)) r

one_bucket_width : one_bucket.parallelism ≡ 1
unfolding create_in_mem_index_for_attr init_in_mem_index bucket_of djb2_hash djb2_loop find_leaf
    new_leaf index_values indexing_numeric
one_bucket_width = refl

one_bucket-IsStorable : IsStorable one_bucket
unfolding create_in_mem_index_for_attr init_in_mem_index bucket_of djb2_hash djb2_loop find_leaf
    new_leaf index_values indexing_numeric numeric_loop numeric_round numeric_entry new_value_leaf
    push_pair insert_tagged_value
one_bucket-IsStorable = record {
  files = (((record { no_zero = ground arith; fits = omega arith }, tt), omega arith), tt);
  objects = (((record { no_zero = ground arith; fits = omega arith }, tt), omega arith), tt);
  names = ((omega arith, ((plate-IsText, omega arith), tt)), tt);
}

load-dump-Represents_example :
    (bytes : Bytes) × (b : Anchor) × (dump_mdb_index_to_disk one_bucket ≡ some bytes)
    × (load_mdb_file_to_index 64 (some bytes) none ≡ some (some b))
    × Represents b one_log
    × ((name : Bytes) (v : ℕ)
        → matching name v one_log ≢ []
        → exact_metadata_search b name (atv_integer v)
          ≡ exact_metadata_search one_bucket name (atv_integer v))
load-dump-Represents_example =
    load-dump-Represents 64 one_bucket one_log one_bucket-Represents one_bucket_width
      one_bucket-IsStorable

-- ===== src/Mdb/Dump.antt =====
-- The functions of on_disk_index.c that write a part of the index, and `dump_mdb_index_to_disk`.
-- The walks over the containers visit their items in order, and every call on the way returns the
-- value on which its walk goes on.
use miqs.Prelude.{ℕ, Option, some, List, [], ◌∷◌, Bytes, length, ◌>>=◌, ◌==◌, if◌then◌else◌}
use miqs.Containers.{Containers, TaggedValue}
use miqs.Index.State.{FileObjPair, ValueLeaf, AttrLeaf, Anchor}
use miqs.Storage.Fields.{
  miqs_append_type, miqs_append_int, miqs_append_double, miqs_append_string_with_len,
  miqs_append_string, miqs_append_uint64, miqs_append_size_t,
}

-- |file_list_pos|object_list_pos|
unfoldable pub append_file_obj_pair : FileObjPair → Bytes → Bytes
append_file_obj_pair pair stream =
    miqs_append_size_t pair.obj_list_pos (miqs_append_size_t pair.file_list_pos stream)

unfoldable pub append_pairs : List FileObjPair → Bytes → Bytes
unfolding append_file_obj_pair
append_pairs [] stream = stream
append_pairs (p ∷ ps) stream = append_pairs ps (append_file_obj_pair p stream)

-- |tag|pos|
unfoldable pub append_path : TaggedValue → Bytes → Bytes
append_path tv stream = miqs_append_size_t tv.value (miqs_append_string tv.tag stream)

unfoldable pub append_paths : List TaggedValue → Bytes → Bytes
unfolding append_path
append_paths [] stream = stream
append_paths (tv ∷ tvs) stream = append_paths tvs (append_path tv stream)

module _ ⦃c : Containers⦄ where
  open c use {Lst, list_count, list_items, Art, art_iter_size, art_items, Rbt, rbt_items}

  unfoldable pub append_file_obj_pair_linked_list : Lst FileObjPair → Bytes → Bytes
  unfolding append_pairs
  append_file_obj_pair_linked_list list stream =
      append_pairs (list_items list) (miqs_append_size_t (list_count list) stream)

  unfoldable pub append_path_list : Lst TaggedValue → Bytes → Bytes
  unfolding append_paths
  append_path_list list stream =
      append_paths (list_items list) (miqs_append_size_t (list_count list) stream)

  -- The key of the tree has its own length.
  unfoldable pub append_string_value_node : Bytes → ValueLeaf → Bytes → Bytes
  append_string_value_node key leaf stream =
      append_file_obj_pair_linked_list leaf.file_obj_pair_list
        (miqs_append_string_with_len key (length key) stream)

  unfoldable pub append_string_nodes : List (Bytes × ValueLeaf) → Bytes → Bytes
  append_string_nodes [] stream = stream
  append_string_nodes ((key, leaf) ∷ nodes) stream =
      append_string_nodes nodes (append_string_value_node key leaf stream)

  unfoldable pub append_string_value_tree : Art ValueLeaf → Bytes → Bytes
  append_string_value_tree art stream =
      append_string_nodes (art_items art)
        (miqs_append_uint64 (art_iter_size art) (miqs_append_type 3 stream))

  unfoldable pub append_int_value_node : ℕ → ValueLeaf → Bytes → Bytes
  append_int_value_node key leaf stream =
      append_file_obj_pair_linked_list leaf.file_obj_pair_list (miqs_append_int key stream)

  unfoldable pub append_float_value_node : ℕ → ValueLeaf → Bytes → Bytes
  append_float_value_node key leaf stream =
      append_file_obj_pair_linked_list leaf.file_obj_pair_list (miqs_append_double key stream)

  -- `rbt_walk` with one of the two callbacks.
  unfoldable pub append_numeric_nodes : ℕ → List (ℕ × ValueLeaf) → Bytes → Bytes
  append_numeric_nodes is_float [] stream = stream
  append_numeric_nodes is_float ((key, leaf) ∷ nodes) stream = append_numeric_nodes is_float nodes (
      if is_float == 0
      then append_int_value_node key leaf stream
      else append_float_value_node key leaf stream)

  -- The first walk, with `rbt_size_cb`, counts the nodes.
  unfoldable pub append_numeric_value_tree : Rbt ValueLeaf → ℕ → Bytes → Bytes
  append_numeric_value_tree rbt is_float stream = append_numeric_nodes is_float (rbt_items rbt) (
      miqs_append_uint64 (length (rbt_items rbt))
        (miqs_append_type (if is_float == 1 then 2 else 1) stream))

  unfoldable pub append_attr_name_node : Bytes → AttrLeaf → Bytes → Option Bytes
  append_attr_name_node key leaf stream =
      let named = miqs_append_string_with_len key (length key) stream in
      if leaf.is_numeric == 0
      then (do art ← leaf.art; some (append_string_value_tree art named))
      else (do rbt ← leaf.rbt; some (append_numeric_value_tree rbt leaf.is_float named))

  unfoldable pub append_attr_nodes : List (Bytes × AttrLeaf) → Bytes → Option Bytes
  append_attr_nodes [] stream = some stream
  append_attr_nodes ((key, leaf) ∷ nodes) stream =
      append_attr_name_node key leaf stream >>= append_attr_nodes nodes

  unfoldable pub append_attr_root_tree : Art AttrLeaf → Bytes → Option Bytes
  unfolding append_attr_nodes
  append_attr_root_tree art stream =
      append_attr_nodes (art_items art) (miqs_append_uint64 (art_iter_size art) stream)

  unfoldable pub append_all_trees : List (Art AttrLeaf) → Bytes → Option Bytes
  unfolding append_attr_root_tree
  append_all_trees [] stream = some stream
  append_all_trees (art ∷ arts) stream = append_attr_root_tree art stream >>= append_all_trees arts

  -- The inner loop has an index `i` of its own: in every bucket it writes the trees of all buckets.
  unfoldable pub append_buckets :
      List (Art AttrLeaf) → List (Lst TaggedValue) → List (Lst TaggedValue) → Bytes → Option Bytes
  unfolding append_all_trees
  append_buckets arts (files ∷ fs) (objects ∷ os) stream = do
    s ← append_all_trees arts (append_path_list objects (append_path_list files stream))
    append_buckets arts fs os s
  append_buckets arts _ _ stream = some stream

  -- The arrays of the anchor have `parallelism` elements each.
  unfoldable pub dump_mdb_index_to_disk : Anchor → Option Bytes
  unfolding append_buckets
  dump_mdb_index_to_disk a =
      append_buckets a.root_art_array a.file_paths_list a.object_paths_list
        (miqs_append_size_t a.parallelism [])

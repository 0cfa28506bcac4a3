-- ===== src/Mdb/Load.antt =====
-- The functions of on_disk_index.c that read a part of the index back, and `load_mdb_file_to_index`.
-- The result codes are left out where nothing reads them, and insertions succeed. A tag that cannot
-- be read stays a null pointer, on which the next search of its list faults: it is a fault here.
use miqs.Prelude.{
  ℕ, zero, suc, ◌+◌, ◌%◌, ◌^◌, Option, none, some, List, [], ◌∷◌, Bytes, ◌>>=◌, ◌==◌, leb,
  if◌then◌else◌, get_elem?, set,
}
use miqs.Metadata.{AttrType, at_unknown, at_integer, at_float, at_string, get_miqs_type_from_int}
use miqs.Containers.{Containers, TaggedValue, int_keys, double_keys}
use miqs.Index.State.{FileObjPair, ValueLeaf, AttrLeaf, Anchor}
use miqs.Index.Build.{empty_leaf, bucket_of, init_in_mem_index}
use miqs.Storage.Fields.{
  miqs_read_int, miqs_read_double, miqs_read_string, miqs_read_uint64, miqs_read_size_t,
}

-- A pointer that a reader has returned is followed.
unfoldable pub follow {ℓ} : {A : Type ℓ} → Option A × Bytes → Option (A × Bytes)
follow (none, stream) = none
follow (some v, stream) = some (v, stream)

-- The pair's `parallel_index_pos` stays as `calloc` leaves it.
unfoldable pub read_pair : Bytes → Option (FileObjPair × Bytes)
unfolding follow
read_pair stream = do
  (file_pos, s1) ← follow (miqs_read_size_t stream)
  (obj_pos, s2) ← follow (miqs_read_size_t s1)
  some (record { parallel_index_pos = 0; file_list_pos = file_pos; obj_list_pos = obj_pos }, s2)

-- With a null list the two positions are read and dropped.
unfoldable pub skip_pairs : ℕ → Bytes → Bytes
skip_pairs zero stream = stream
skip_pairs (suc n) stream = skip_pairs n (miqs_read_size_t (miqs_read_size_t stream).1).1

module _ ⦃c : Containers⦄ where
  open c use {
    Lst, list_create, list_count, list_insert, list_push_value, Art, art_tree_init, art_insert, Rbt,
    rbt_create, rbt_add,
  }

  unfoldable pub read_paths : ℕ → Lst TaggedValue → Bytes → Option (Lst TaggedValue × Bytes)
  unfolding follow
  read_paths zero list stream = some (list, stream)
  read_paths (suc n) list stream = do
    (tag, s1) ← follow (miqs_read_string stream)
    (pos, s2) ← follow (miqs_read_size_t s1)
    read_paths n (list_insert list (record { tag = tag; value = pos }) pos) s2

  unfoldable pub read_into_path_list : Lst TaggedValue → Bytes → Option (Lst TaggedValue × Bytes)
  unfolding read_paths
  read_into_path_list list stream = do
    (n, s1) ← follow (miqs_read_size_t stream)
    read_paths n list s1

  -- `read_into_file_obj_list` on a list.
  unfoldable pub read_pairs : ℕ → Lst FileObjPair → Bytes → Option (Lst FileObjPair × Bytes)
  unfolding read_pair
  read_pairs zero list stream = some (list, stream)
  read_pairs (suc n) list stream = do
    (pair, s1) ← read_pair stream
    read_pairs n (list_push_value list pair) s1

  unfoldable pub read_file_obj_path_pair_list : Bytes → Option (ValueLeaf × Bytes)
  unfolding read_pairs
  read_file_obj_path_pair_list stream = do
    (n, s1) ← follow (miqs_read_size_t stream)
    (list, s2) ← read_pairs n list_create s1
    some (record { file_obj_pair_list = list }, s2)

  -- With a null leaf.
  unfoldable pub skip_file_obj_path_pair_list : Bytes → Option Bytes
  unfolding skip_pairs
  skip_file_obj_path_pair_list stream = do
    (n, s1) ← follow (miqs_read_size_t stream)
    some (skip_pairs n s1)

  -- The leaf of an attribute, with `num_kv_pairs_loaded_mdb`.
  abbrev pub NodeState : Type 0
  NodeState = AttrLeaf × ℕ

  -- `none` as the tree is a null pointer.
  unfoldable pub add_number : AttrLeaf → ℕ → ValueLeaf → Option AttrLeaf
  add_number node key leaf = do
    rbt ← node.rbt
    some (record node { rbt = some (rbt_add rbt key leaf) })

  unfoldable pub add_string : AttrLeaf → Bytes → ValueLeaf → Option AttrLeaf
  add_string node key leaf = do
    art ← node.art
    some (record node { art = some (art_insert art key leaf) })

  -- The list of a value that cannot be read is skipped.
  unfoldable pub read_number_leaf : NodeState → Option ℕ × Bytes → Option (NodeState × Bytes)
  unfolding add_number skip_file_obj_path_pair_list read_file_obj_path_pair_list
  read_number_leaf st (none, s1) = do s2 ← skip_file_obj_path_pair_list s1; some (st, s2)
  read_number_leaf (node, count) (some key, s1) = do
    (leaf, s2) ← read_file_obj_path_pair_list s1
    node' ← add_number node key leaf
    some ((node', count + 1), s2)

  unfoldable pub read_string_leaf : NodeState → Option Bytes × Bytes → Option (NodeState × Bytes)
  unfolding add_string skip_file_obj_path_pair_list read_file_obj_path_pair_list
  read_string_leaf st (none, s1) = do s2 ← skip_file_obj_path_pair_list s1; some (st, s2)
  read_string_leaf (node, count) (some key, s1) = do
    (leaf, s2) ← read_file_obj_path_pair_list s1
    node' ← add_string node key leaf
    some ((node', count + 1), s2)

  unfoldable pub read_attr_value_node : AttrType → NodeState → Bytes → Option (NodeState × Bytes)
  unfolding read_number_leaf read_string_leaf
  read_attr_value_node at_string st stream = read_string_leaf st (miqs_read_string stream)
  read_attr_value_node at_float st stream = read_number_leaf st (miqs_read_double stream)
  read_attr_value_node at_integer st stream = read_number_leaf st (miqs_read_int stream)
  read_attr_value_node at_unknown st stream = read_number_leaf st (none, stream)

  unfoldable pub read_value_nodes : ℕ → AttrType → NodeState → Bytes → Option (NodeState × Bytes)
  unfolding read_attr_value_node
  read_value_nodes zero type st stream = some (st, stream)
  read_value_nodes (suc n) type st stream = do
    (st', s1) ← read_attr_value_node type st stream
    read_value_nodes n type st' s1

  -- The zeroed leaf with the tree of its type.
  unfoldable pub leaf_of_type : AttrType → AttrLeaf
  unfolding empty_leaf
  leaf_of_type at_string = record empty_leaf {
    is_numeric = 0;
    is_float = 0;
    art = some art_tree_init;
  }
  leaf_of_type at_integer = record empty_leaf {
    is_numeric = 1;
    is_float = 0;
    rbt = some (rbt_create int_keys);
  }
  leaf_of_type at_float = record empty_leaf {
    is_numeric = 1;
    is_float = 1;
    rbt = some (rbt_create double_keys);
  }
  leaf_of_type at_unknown = record empty_leaf { is_numeric = 1 }

  unfoldable pub read_attr_values : ℕ → Bytes → Option (NodeState × Bytes)
  unfolding leaf_of_type read_value_nodes
  read_attr_values count stream = do
    (number, s1) ← follow (miqs_read_int stream)
    (n, s2) ← follow (miqs_read_uint64 s1)
    let type = get_miqs_type_from_int number
    read_value_nodes n type (leaf_of_type type, count) s2

  -- The trees of all buckets, with `num_kv_pairs_loaded_mdb`.
  abbrev pub TreeState : Type 0
  TreeState = List (Art AttrLeaf) × ℕ

  -- The leaf goes into the bucket of its name.
  unfoldable pub read_attr_name_node : ℕ → TreeState → Bytes → Option (TreeState × Bytes)
  unfolding read_attr_values
  read_attr_name_node parallelism (arts, count) stream = do
    (name, s1) ← follow (miqs_read_string stream)
    pos ← bucket_of name parallelism
    art ← get_elem? arts pos
    ((leaf, count'), s2) ← read_attr_values count s1
    some ((set arts pos (art_insert art name leaf), count'), s2)

  unfoldable pub read_name_nodes : ℕ → ℕ → TreeState → Bytes → Option (TreeState × Bytes)
  unfolding read_attr_name_node
  read_name_nodes zero parallelism st stream = some (st, stream)
  read_name_nodes (suc n) parallelism st stream = do
    (st', s1) ← read_attr_name_node parallelism st stream
    read_name_nodes n parallelism st' s1

  -- The count starts at 0 in every bucket.
  unfoldable pub read_into_attr_root_tree :
      ℕ → List (Art AttrLeaf) → Bytes → Option (TreeState × Bytes)
  unfolding read_name_nodes
  read_into_attr_root_tree parallelism arts stream = do
    (n, s1) ← follow (miqs_read_uint64 stream)
    read_name_nodes n parallelism (arts, 0) s1

  -- One round of the loop over the buckets, at bucket `i`.
  unfoldable pub load_bucket : ℕ → Anchor × ℕ → Bytes → Option ((Anchor × ℕ) × Bytes)
  unfolding read_into_attr_root_tree read_into_path_list
  load_bucket i (a, count) stream = do
    old_files ← get_elem? a.file_paths_list i
    (files, s1) ← read_into_path_list old_files stream
    old_objects ← get_elem? a.object_paths_list i
    (objects, s2) ← read_into_path_list old_objects s1
    ((arts, count'), s3) ← read_into_attr_root_tree a.parallelism a.root_art_array s2
    some (
      (
        record a {
          file_paths_list = set a.file_paths_list i files;
          object_paths_list = set a.object_paths_list i objects;
          root_art_array = arts;
          total_num_files = a.total_num_files + list_count files;
          total_num_objects = a.total_num_objects + list_count objects;
        },
        count',
      ),
      s3,
    )

  -- The buckets from `i` on, `n` of them.
  unfoldable pub load_buckets : ℕ → ℕ → Anchor × ℕ → Bytes → Option ((Anchor × ℕ) × Bytes)
  unfolding load_bucket
  load_buckets zero i st stream = some (st, stream)
  load_buckets (suc n) i st stream = do
    (st', s1) ← load_bucket i st stream
    load_buckets n (i + 1) st' s1

  -- The index that is loaded into: the one given, or a new one of the file's parallelism, an int.
  -- A negative one leaves the arrays null, a fault here.
  unfoldable pub anchor_to_load : Option Anchor → ℕ → Option Anchor
  anchor_to_load (some a) parallelism = some a
  anchor_to_load none parallelism =
      let p = parallelism % 2 ^ 32 in if leb (2 ^ 31) p then none else some (init_in_mem_index p)

  -- `load_mdb_file_to_index` on a file that cannot be read or on its bytes, with the index given: the
  -- index afterwards. `address` is the address of the number that `num_attrs_loaded_mdb` is
  -- made from, the pointer's value and not the number.
  unfoldable pub load_mdb_file_to_index : ℕ → Option Bytes → Option Anchor → Option (Option Anchor)
  unfolding load_buckets anchor_to_load
  load_mdb_file_to_index address none given = some given
  load_mdb_file_to_index address (some []) given = some given
  load_mdb_file_to_index address (some (b ∷ bs)) given = do
    (parallelism, s1) ← follow (miqs_read_size_t (b ∷ bs))
    a ← anchor_to_load given parallelism
    ((a', count), s2) ← load_buckets a.parallelism 0 (a, 0) s1
    some (
        some (record a' {
          total_num_kv_pairs = a'.total_num_kv_pairs + count;
          total_num_attrs = a'.total_num_attrs + (if a'.parallelism == 0 then 0 else address);
        }))

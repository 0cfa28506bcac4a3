-- ===== src/Index/State.antt =====
-- src/index/in_mem_index.h and on_disk_index.h: the state of the index. The locks are left out: an
-- operation here is what runs while one is held. The counters of allocated memory are left out too.
-- The parameter `idx_anchor` of the operations and the global `root_index_anchor` are one state, as
-- they are in every call of the program.
use miqs.Prelude.{ℕ, Option, List, Bytes, length}
use miqs.Metadata.{AttrType, at_unknown, at_integer, at_float, at_string}
use miqs.Containers.{Containers, TaggedValue}

-- `file_obj_pair_t`
pub record FileObjPair : Type 0 where
  pub parallel_index_pos : ℕ
  pub file_list_pos : ℕ
  pub obj_list_pos : ℕ

-- The array behind `attribute_value` with its length. `invalid t` is one element of type `t` through
-- a pointer that is null, or whose target is gone.
pub data AttrValues : Type 0 where
  unknown_values : ℕ → AttrValues
  int_values float_values : List ℕ → AttrValues
  string_values : List Bytes → AttrValues
  invalid : AttrType → AttrValues

abbrev pub attr_type : AttrValues → AttrType
attr_type (unknown_values n) = at_unknown
attr_type (int_values vs) = at_integer
attr_type (float_values vs) = at_float
attr_type (string_values vs) = at_string
attr_type (invalid t) = t

abbrev pub attribute_value_length : AttrValues → ℕ
attribute_value_length (unknown_values n) = n
attribute_value_length (int_values vs) = length vs
attribute_value_length (float_values vs) = length vs
attribute_value_length (string_values vs) = length vs
attribute_value_length (invalid t) = 1

-- `miqs_meta_attribute_t`; no path stands for a pointer that was never set, and for a null pointer.
pub record Attribute : Type 0 where
  pub attr_name : Bytes
  pub attribute_value : AttrValues
  pub file_path_str : Option Bytes
  pub obj_path_str : Option Bytes

-- `on_disk_file_stream`: null, open for writing with the bytes written so far, or open for reading.
pub data IndexStream : Type 0 where
  no_stream reading : IndexStream
  writing : Bytes → IndexStream

module _ ⦃c : Containers⦄ where
  open c use {Lst, Art, Rbt}

  -- `value_tree_leaf_content_t`
  pub record ValueLeaf : Type 0 where
    pub file_obj_pair_list : Lst FileObjPair

  -- `attr_tree_leaf_content_t`
  pub record AttrLeaf : Type 0 where
    pub is_numeric : ℕ
    pub is_float : ℕ
    pub rbt : Option (Rbt ValueLeaf)
    pub art : Option (Art ValueLeaf)

  -- `index_anchor_t`; `num_indexed_field` is the length of `indexed_attr`.
  pub record Anchor : Type 0 where
    pub file_path : Option Bytes
    pub obj_path : Option Bytes
    pub parallelism : ℕ
    pub root_art_array : List (Art AttrLeaf)
    pub file_paths_list : List (Lst TaggedValue)
    pub object_paths_list : List (Lst TaggedValue)
    pub indexed_attr : List Bytes
    pub on_disk_file_stream : IndexStream
    pub is_readonly_index_file : ℕ
    pub total_num_files : ℕ
    pub total_num_objects : ℕ
    pub total_num_attrs : ℕ
    pub total_num_indexed_kv_pairs : ℕ
    pub total_num_kv_pairs : ℕ
    pub us_to_index : ℕ
    pub us_to_disk_index : ℕ

  -- `file_paths_list[i]` and `object_paths_list[i]`
  pub record Tables : Type 0 where
    pub files : Lst TaggedValue
    pub objects : Lst TaggedValue

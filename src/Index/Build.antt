-- ===== src/Index/Build.antt =====
-- src/index/in_mem_index.c: indexing one attribute. `none` is a fault: a pointer that is null or was
-- never set is read, or a value is read as another type. What the code changes through a pointer
-- that a container has returned is written back under its key.
use miqs.Prelude.{
  ℕ, ◌+◌, ◌%◌, Bool, true, false, ◌||◌, Option, none, some, List, [], ◌∷◌, Bytes, get_elem?, set,
  replicate, ◌>>=◌, ◌==◌, str_eq, if◌then◌else◌,
}
use miqs.Metadata.{AttrType, at_unknown, at_integer, at_float, at_string}
use miqs.Containers.{Containers, int_keys, double_keys}
use miqs.Hashing.{djb2_hash}
use miqs.Index.State.{
  AttrValues, unknown_values, int_values, float_values, string_values, invalid, attr_type,
  Attribute, no_stream, AttrLeaf, Anchor, Tables,
}
use miqs.Index.Values.{indexing_numeric, indexing_string}

module _ ⦃c : Containers⦄ where
  open c use {
    Lst, list_create, list_push_value, list_insert, list_count, list_get_tagged_value, Art,
    art_tree_init, art_search, art_insert, Rbt, rbt_create, rbt_find, rbt_add,
  }

  unfoldable pub init_in_mem_index : ℕ → Anchor
  init_in_mem_index parallelism = record {
    file_path = none;
    obj_path = none;
    parallelism = parallelism;
    root_art_array = replicate parallelism art_tree_init;
    file_paths_list = replicate parallelism list_create;
    object_paths_list = replicate parallelism list_create;
    indexed_attr = [];
    on_disk_file_stream = no_stream;
    is_readonly_index_file = 1;
    total_num_files = 0;
    total_num_objects = 0;
    total_num_attrs = 0;
    total_num_indexed_kv_pairs = 0;
    total_num_kv_pairs = 0;
    us_to_index = 0;
    us_to_disk_index = 0;
  }

  unfoldable pub is_specified_field : Bytes → List Bytes → Bool
  is_specified_field name [] = false
  is_specified_field name (f ∷ fs) = str_eq name f || is_specified_field name fs

  -- A zeroed leaf.
  unfoldable pub empty_leaf : AttrLeaf
  empty_leaf = record { is_numeric = 0; is_float = 0; rbt = none; art = none }

  -- The leaf made for a new name, with `into_art`. The case of a string has no `break`: it runs on
  -- into the default, which sets `into_art` to 0. A zeroed tree is an empty one.
  unfoldable pub new_leaf : AttrType → AttrLeaf × Bool
  unfolding empty_leaf
  new_leaf at_integer =
      (record empty_leaf { rbt = some (rbt_create int_keys); is_float = 0; is_numeric = 1 }, true)
  new_leaf at_float = (
    record empty_leaf { is_float = 1; is_numeric = 1; rbt = some (rbt_create double_keys) },
    true,
  )
  new_leaf at_string =
      (record empty_leaf { is_float = 0; is_numeric = 0; art = some art_tree_init }, false)
  new_leaf at_unknown = (empty_leaf, false)

  -- The leaf of the name, the tree, and whether the tree holds the leaf.
  unfoldable pub find_leaf : Art AttrLeaf → Bytes → AttrType → AttrLeaf × Art AttrLeaf × Bool
  unfolding new_leaf
  find_leaf global_art name type = elim (art_search global_art name) [
    | some leaf ↦ (leaf, global_art, true)
    | none ↦
        let (leaf, into_art) = new_leaf type in
        (leaf, if into_art then art_insert global_art name leaf else global_art, into_art)
  ]

  -- The switch that indexes the values.
  unfoldable pub index_values :
      ℕ → AttrValues → Option Bytes → Option Bytes → AttrLeaf → Tables → Option (AttrLeaf × Tables)
  index_values pos (int_values vs) file_path obj_path leaf t =
      indexing_numeric pos 0 vs file_path obj_path leaf t
  index_values pos (float_values vs) file_path obj_path leaf t =
      indexing_numeric pos 1 vs file_path obj_path leaf t
  index_values pos (string_values vs) file_path obj_path leaf t =
      indexing_string pos vs file_path obj_path leaf t
  index_values pos (unknown_values n) file_path obj_path leaf t = some (leaf, t)
  index_values pos (invalid at_unknown) file_path obj_path leaf t = some (leaf, t)
  index_values pos (invalid _) file_path obj_path leaf t = none

  -- The bucket of a name; no bucket is chosen modulo 0.
  unfoldable pub bucket_of : Bytes → ℕ → Option ℕ
  bucket_of name parallelism =
      if parallelism == 0 then none else some (djb2_hash name % parallelism)

  -- `duration` is what the stopwatch reads in microseconds.
  unfoldable pub create_in_mem_index_for_attr : ℕ → Anchor → Attribute → Option Anchor
  create_in_mem_index_for_attr duration a attr = do
    pos ← bucket_of attr.attr_name a.parallelism
    global_art ← get_elem? a.root_art_array pos
    files ← get_elem? a.file_paths_list pos
    objects ← get_elem? a.object_paths_list pos
    let (leaf, art, held) = find_leaf global_art attr.attr_name (attr_type attr.attribute_value)
    (leaf', t) ←
        index_values pos attr.attribute_value attr.file_path_str attr.obj_path_str leaf
          (record { files = files; objects = objects })
    some (record a {
      root_art_array =
          set a.root_art_array pos (if held then art_insert art attr.attr_name leaf' else art);
      file_paths_list = set a.file_paths_list pos t.files;
      object_paths_list = set a.object_paths_list pos t.objects;
      us_to_index = a.us_to_index + duration;
    })

-- ===== src/Query.antt =====
-- src/miqs_querying.c: the exact search for an attribute by name and value. `none` is a fault.
pub mod Exact
pub mod Sharing
use miqs.Prelude.{
  ℕ, ◌+◌, Bool, true, false, Option, none, some, List, [], ◌∷◌, Bytes, length, get_elem?, ◌>>=◌,
  if◌then◌else◌,
}
use mathlib.Core.Option
use miqs.Containers.{Containers, KeyKind, int_keys, double_keys, TaggedValue}
use miqs.Index.State.{FileObjPair, ValueLeaf, AttrLeaf, Anchor}
use miqs.Index.Build.{bucket_of}

-- The value looked for with its type, `miqs_attr_value_type_t`.
pub data SearchValue : Type 0 where
  atv_unknown : SearchValue
  atv_integer atv_float : ℕ → SearchValue
  atv_string : Bytes → SearchValue

pub record SearchRstEntry : Type 0 where
  pub file_path : Bytes
  pub obj_path : Bytes

pub record PowerSearchRst : Type 0 where
  pub size : ℕ
  pub rst_arr : List SearchRstEntry

abbrev same_keys : KeyKind → KeyKind → Bool
same_keys int_keys int_keys = true
same_keys double_keys double_keys = true
same_keys _ _ = false

module _ ⦃c : Containers⦄ where
  open c use {Lst, list_count, list_pick, list_items, art_search, Rbt, rbt_find, rbt_keys}

  -- A tree whose keys are of another type compares the key as what it is not.
  unfoldable pub find_number : KeyKind → Rbt ValueLeaf → ℕ → Option (Option ValueLeaf)
  find_number kind rbt key = if same_keys (rbt_keys rbt) kind then some (rbt_find rbt key) else none

  unfoldable pub search_leaf : AttrLeaf → Rbt ValueLeaf → SearchValue → Option (Option ValueLeaf)
  unfolding find_number
  search_leaf leaf rbt (atv_string s) = do art ← leaf.art; some (art_search art s)
  search_leaf leaf rbt (atv_integer v) = find_number int_keys rbt v
  search_leaf leaf rbt (atv_float v) = find_number double_keys rbt v
  search_leaf leaf rbt atv_unknown = some none

  -- `leaf_cnt == NULL || leaf_cnt->rbt == NULL`
  unfoldable pub search_in_leaf : Option AttrLeaf → SearchValue → Option (Option ValueLeaf)
  unfolding search_leaf
  search_in_leaf none value = some none
  search_in_leaf (some leaf) value = elim leaf.rbt [
    | none ↦ some none
    | some rbt ↦ search_leaf leaf rbt value
  ]

  -- The leaf of the value, or a null pointer.
  unfoldable pub attribute_value_search : Anchor → Bytes → SearchValue → Option (Option ValueLeaf)
  unfolding search_in_leaf
  attribute_value_search a attr_name value = do
    pos ← bucket_of attr_name a.parallelism
    tree ← get_elem? a.root_art_array pos
    search_in_leaf (art_search tree attr_name) value

  unfoldable pub path_at : List (Lst TaggedValue) → ℕ → ℕ → Option Bytes
  path_at lists pos i = do list ← get_elem? lists pos; tv ← list_pick list i; some tv.tag

  unfoldable pub collect_result_from_list : Anchor → FileObjPair → Option SearchRstEntry
  unfolding path_at
  collect_result_from_list a p = do
    file_path ← path_at a.file_paths_list p.parallel_index_pos p.file_list_pos
    obj_path ← path_at a.object_paths_list p.parallel_index_pos p.obj_list_pos
    some (record { file_path = file_path; obj_path = obj_path })

  unfoldable pub collect_results : Anchor → List FileObjPair → Option (List SearchRstEntry)
  unfolding collect_result_from_list
  collect_results a [] = some []
  collect_results a (p ∷ ps) = do
    entry ← collect_result_from_list a p
    entries ← collect_results a ps
    some (entry ∷ entries)

  -- A null leaf is read for its list all the same.
  unfoldable pub exact_metadata_search : Anchor → Bytes → SearchValue → Option PowerSearchRst
  unfolding collect_results
  exact_metadata_search a attr_name value = do
    rst_node ← attribute_value_search a attr_name value
    leaf ← rst_node
    entries ← collect_results a (list_items leaf.file_obj_pair_list)
    some (record { size = list_count leaf.file_obj_pair_list; rst_arr = entries })

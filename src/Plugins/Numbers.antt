-- ===== src/Plugins/Numbers.antt =====
-- src/index/spi/spi.c and tsearch_number_index.c: the number index, of the kind that the environment
-- names. An outer `none` is a fault: the index is not of that kind. An index that is `none` is a null
-- pointer.
use miqs.Prelude.{ℕ, Option, none, some, List, [], ◌∷◌, Bytes, str_eq, if◌then◌else◌, ◌>>=◌}
use mathlib.Core.Option
use miqs.Plugins.{ℤ, pos, negsuc}
use miqs.Plugins.NumberStores.{
  Element, NumberStores, create_sparse_array_index, create_rbtree_number_index,
  create_skiplist_index, insert_number_to_sparse_array, insert_number_to_rbtree,
  insert_number_to_skiplist, search_number_from_sparse_array, search_number_from_rbtree,
  search_number_from_skiplist, search_numeric_range_from_sparse_array,
  search_numeric_range_from_rbtree, search_numeric_range_from_skiplist,
}

-- The data structure that the variable MIQS_NUM_IDX_IMPL names.
pub data NumberImpl : Type 0 where
  sparse_array sbst skiplist tree_search : NumberImpl

-- "SPARSEARRAY", "SBST" and "SKIPLIST"
unfoldable pub number_impl : Option Bytes → NumberImpl
number_impl none = tree_search
number_impl (some s) =
    if str_eq s (83 ∷ 80 ∷ 65 ∷ 82 ∷ 83 ∷ 69 ∷ 65 ∷ 82 ∷ 82 ∷ 65 ∷ 89 ∷ [])
    then sparse_array
    else if str_eq s (83 ∷ 66 ∷ 83 ∷ 84 ∷ [])
    then sbst
    else if str_eq s (83 ∷ 75 ∷ 73 ∷ 80 ∷ 76 ∷ 73 ∷ 83 ∷ 84 ∷ [])
    then skiplist
    else tree_search

module _ {V : Type 0} (s : NumberStores V) where
  -- No operation makes an index of `tsearch`.
  pub data NumberIndex : Type 0 where
    array_index : s.SparseArray → NumberIndex
    rbt_index : s.rbt.Store → NumberIndex
    skiplist_index : s.skiplists.Store → NumberIndex

  -- The index seen as one kind. A null pointer is one of any kind.
  abbrev as_array : Option NumberIndex → Option (Option s.SparseArray)
  as_array none = some none
  as_array (some (array_index t)) = some (some t)
  as_array (some _) = none

  abbrev as_rbt : Option NumberIndex → Option (Option s.rbt.Store)
  as_rbt none = some none
  as_rbt (some (rbt_index t)) = some (some t)
  as_rbt (some _) = none

  abbrev as_skiplist : Option NumberIndex → Option (Option s.skiplists.Store)
  as_skiplist none = some none
  as_skiplist (some (skiplist_index t)) = some (some t)
  as_skiplist (some _) = none

  -- The pointer to the index stays what it was.
  unfoldable pub create_tsearch_index : Option NumberIndex → ℤ × Option NumberIndex
  create_tsearch_index index = (pos 0, index)

  unfoldable pub create_number_index : Option Bytes → Option NumberIndex → ℤ × Option NumberIndex
  unfolding number_impl create_sparse_array_index create_rbtree_number_index create_skiplist_index
      create_tsearch_index
  create_number_index env index = elim (number_impl env) [
    | sparse_array ↦ let (rst, t) = create_sparse_array_index s in (rst, some (array_index t))
    | sbst ↦ let (rst, t) = create_rbtree_number_index s in (rst, some (rbt_index t))
    | skiplist ↦ let (rst, t) = create_skiplist_index s in (rst, some (skiplist_index t))
    | tree_search ↦ create_tsearch_index index
  ]

  unfoldable pub insert_number_to_tsearch_index :
      Option NumberIndex → Option (ℤ × Option NumberIndex)
  insert_number_to_tsearch_index none = some (negsuc 0, none)
  insert_number_to_tsearch_index (some t) = none

  unfoldable pub insert_number :
      Option Bytes → Option NumberIndex → ℕ → V → Option (ℤ × Option NumberIndex)
  unfolding number_impl insert_number_to_sparse_array insert_number_to_rbtree
      insert_number_to_skiplist insert_number_to_tsearch_index
  insert_number env index key value = elim (number_impl env) [
    | sparse_array ↦ (do
      t ← as_array index
      let (rst, t') = insert_number_to_sparse_array s t key value
      some (rst, Option.map array_index t'))
    | sbst ↦ (do
      t ← as_rbt index
      let (rst, t') = insert_number_to_rbtree s t key value
      some (rst, Option.map rbt_index t'))
    | skiplist ↦ (do
      t ← as_skiplist index
      let (rst, t') = insert_number_to_skiplist s t key value
      some (rst, Option.map skiplist_index t'))
    | tree_search ↦ insert_number_to_tsearch_index index
  ]

  unfoldable pub search_number_from_tsearch_index :
      Option NumberIndex → Option (Element V) → Option (ℤ × Option (Element V))
  search_number_from_tsearch_index none out = some (negsuc 0, out)
  search_number_from_tsearch_index (some t) out = none

  unfoldable pub search_number :
      Option Bytes → Option NumberIndex → ℕ → Option (Element V) → Option (ℤ × Option (Element V))
  unfolding number_impl search_number_from_sparse_array search_number_from_rbtree
      search_number_from_skiplist search_number_from_tsearch_index
  search_number env index key out = elim (number_impl env) [
    | sparse_array ↦ Option.map (λ t. search_number_from_sparse_array s t key out) (as_array index)
    | sbst ↦ Option.map (λ t. search_number_from_rbtree s t key out) (as_rbt index)
    | skiplist ↦ Option.map (λ t. search_number_from_skiplist s t key out) (as_skiplist index)
    | tree_search ↦ search_number_from_tsearch_index index out
  ]

  unfoldable pub search_numeric_range_from_tsearch_index :
      Option NumberIndex → Option (Option (List (Element V)))
  search_numeric_range_from_tsearch_index none = some none
  search_numeric_range_from_tsearch_index (some t) = none

  unfoldable pub search_numeric_range :
      Option Bytes → Option NumberIndex → ℕ → ℕ → Option (Option (List (Element V)))
  unfolding number_impl search_numeric_range_from_sparse_array search_numeric_range_from_rbtree
      search_numeric_range_from_skiplist search_numeric_range_from_tsearch_index
  search_numeric_range env index begin_key end_key = elim (number_impl env) [
    | sparse_array ↦
        Option.map (λ t. search_numeric_range_from_sparse_array s t begin_key end_key)
          (as_array index)
    | sbst ↦ Option.map (λ t. search_numeric_range_from_rbtree s t begin_key end_key) (as_rbt index)
    | skiplist ↦
        Option.map (λ t. search_numeric_range_from_skiplist s t begin_key end_key)
          (as_skiplist index)
    | tree_search ↦ search_numeric_range_from_tsearch_index index
  ]

-- ===== src/Plugins/NumberStores.antt =====
-- src/index/spi: the number back ends, one for each data structure. A key is the pattern of a number.
-- `none` is a null pointer. Creating never runs out of memory.
use miqs.Prelude.{ℕ, Option, none, some, List, ◌==◌, map, true}
use mathlib.Core.Option
use miqs.Plugins.{ℤ, pos, negsuc, KeyedStore}

-- What a search writes: a pointer that was inserted, or the list that a sparse array keeps at a
-- position.
pub data Element (V : Type 0) : Type 0 where
  inserted : V → Element V
  kept_list : List V → Element V

-- The stores, with what their searches of a range visit, in order. Nothing is asked of the sparse
-- array.
pub record NumberStores (V : Type 0) : Type 1 where
  pub SparseArray : Type 0
  pub create_sparse_array : SparseArray
  pub set_element : SparseArray → ℕ → V → ℤ × SparseArray
  pub get_element : SparseArray → ℕ → Option (List V)
  pub foreach_elements : SparseArray → ℕ → ℕ → List (List V)
  pub rbt : KeyedStore ℕ ◌==◌ (λ key. true) V
  pub rbt_range_walk : rbt.Store → ℕ → ℕ → List V
  pub skiplists : KeyedStore ℕ ◌==◌ (λ key. true) V
  pub range_search : skiplists.Store → ℕ → ℕ → List V

module _ {V : Type 0} (s : NumberStores V) where
  unfoldable pub create_sparse_array_index : ℤ × s.SparseArray
  create_sparse_array_index = (pos 0, s.create_sparse_array)

  unfoldable pub create_rbtree_number_index : ℤ × s.rbt.Store
  create_rbtree_number_index = (pos 0, s.rbt.empty)

  unfoldable pub create_skiplist_index : ℤ × s.skiplists.Store
  create_skiplist_index = (pos 0, s.skiplists.empty)

  unfoldable pub insert_number_to_sparse_array :
      Option s.SparseArray → ℕ → V → ℤ × Option s.SparseArray
  insert_number_to_sparse_array none key value = (negsuc 0, none)
  insert_number_to_sparse_array (some t) key value =
      let (rst, t') = s.set_element t key value in (rst, some t')

  unfoldable pub insert_number_to_rbtree : Option s.rbt.Store → ℕ → V → ℤ × Option s.rbt.Store
  insert_number_to_rbtree none key value = (negsuc 0, none)
  insert_number_to_rbtree (some t) key value =
      let (rst, t') = s.rbt.insert t key value in (rst, some t')

  unfoldable pub insert_number_to_skiplist :
      Option s.skiplists.Store → ℕ → V → ℤ × Option s.skiplists.Store
  insert_number_to_skiplist none key value = (negsuc 0, none)
  insert_number_to_skiplist (some t) key value =
      let (rst, t') = s.skiplists.insert t key value in (rst, some t')

  -- The searches write the result through `out`, which holds what is given.
  unfoldable pub search_number_from_sparse_array :
      Option s.SparseArray → ℕ → Option (Element V) → ℤ × Option (Element V)
  search_number_from_sparse_array none key out = (negsuc 0, out)
  search_number_from_sparse_array (some t) key out =
      (pos 0, Option.map kept_list (s.get_element t key))

  -- `rbt_find` returns 0 with the value, or -1 and leaves the result as it is.
  abbrev found_in_tree : Option (Element V) → Option V → ℤ × Option (Element V)
  found_in_tree out none = (negsuc 0, out)
  found_in_tree out (some v) = (pos 0, some (inserted v))

  unfoldable pub search_number_from_rbtree :
      Option s.rbt.Store → ℕ → Option (Element V) → ℤ × Option (Element V)
  search_number_from_rbtree none key out = (negsuc 0, out)
  search_number_from_rbtree (some t) key out = found_in_tree out (s.rbt.find t key)

  unfoldable pub search_number_from_skiplist :
      Option s.skiplists.Store → ℕ → Option (Element V) → ℤ × Option (Element V)
  search_number_from_skiplist none key out = (negsuc 0, out)
  search_number_from_skiplist (some t) key out =
      (pos 0, Option.map inserted (s.skiplists.find t key))

  unfoldable pub search_numeric_range_from_sparse_array :
      Option s.SparseArray → ℕ → ℕ → Option (List (Element V))
  search_numeric_range_from_sparse_array none begin_key end_key = none
  search_numeric_range_from_sparse_array (some t) begin_key end_key =
      some (map kept_list (s.foreach_elements t begin_key end_key))

  unfoldable pub search_numeric_range_from_rbtree :
      Option s.rbt.Store → ℕ → ℕ → Option (List (Element V))
  search_numeric_range_from_rbtree none begin_key end_key = none
  search_numeric_range_from_rbtree (some t) begin_key end_key =
      some (map inserted (s.rbt_range_walk t begin_key end_key))

  unfoldable pub search_numeric_range_from_skiplist :
      Option s.skiplists.Store → ℕ → ℕ → Option (List (Element V))
  search_numeric_range_from_skiplist none begin_key end_key = none
  search_numeric_range_from_skiplist (some t) begin_key end_key =
      some (map inserted (s.range_search t begin_key end_key))

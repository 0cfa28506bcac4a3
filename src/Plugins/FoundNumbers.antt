-- ===== src/Plugins/FoundNumbers.antt =====
-- Insertion in the number indices, and what a search then finds.
use miqs.Plugins.NumberStores.{NumberStores}
use miqs.Plugins.Numbers.{
  NumberImpl, sparse_array, sbst, skiplist, NumberIndex, array_index, rbt_index, skiplist_index,
}

module _ {V : Type 0} (s : NumberStores V) where
  abbrev pub kind_of_number : NumberIndex s → NumberImpl
  kind_of_number (array_index t) = sparse_array
  kind_of_number (rbt_index t) = sbst
  kind_of_number (skiplist_index t) = skiplist

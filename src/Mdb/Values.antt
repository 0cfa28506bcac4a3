-- ===== src/Mdb/Values.antt =====
-- The value tree of an integer attribute, dumped and read back.
use miqs.Prelude.{
  ℕ, ◌+◌, ◌^◌, ◌<◌, ◌≡◌, refl, ◌∙◌, none, some, List, [], ◌∷◌, ◌++◌, Bytes, ◌==◌, ==_iff, length,
  map, All, AreDistinct, find_item, CopiedIn, CopiedIn-cons, arith, append_assoc,
}
use miqs.Containers.{Containers, int_keys}
use miqs.Metadata.{at_integer, get_miqs_type_from_int}
use miqs.Storage.Words.{le_bytes}
use miqs.Storage.Fields.{miqs_append_type}
use miqs.Storage.RoundTrip.{
  field, append_int-field, append_uint64-field, read_int-field, read_uint64-field,
}
use miqs.Index.State.{ValueLeaf, AttrLeaf}
use miqs.Mdb.Dump.{append_int_value_node, append_numeric_nodes, append_numeric_value_tree}
use miqs.Mdb.Load.{
  follow, add_number, read_number_leaf, read_attr_value_node, read_value_nodes, leaf_of_type,
  read_attr_values,
}
use miqs.Mdb.Paths.{count_field}
use miqs.Mdb.PairLists.{
  unbucketed, SizedPairs, pair_list_bytes, append_pair_list-bytes, read_pair_list-bytes,
}

abbrev int_field : ℕ → Bytes
int_field n = field 1 1 (le_bytes 4 n)

module _ ⦃c : Containers⦄ where
  open c use {
    Lst, list_items, Rbt, rbt_create, rbt_find, rbt_add, rbt_keys, rbt_items, keys-create, keys-add,
    find-create, find-add, find-items, numbers-AreDistinct,
  }

  -- A value and its list fit the fields of the file.
  abbrev pub StorableNode : ℕ → ValueLeaf → Type 0
  StorableNode key leaf =
      (key < 2 ^ 32)
      × SizedPairs (list_items leaf.file_obj_pair_list)
      × (length (list_items leaf.file_obj_pair_list) < 2 ^ 64)

  nodes_bytes : List (ℕ × ValueLeaf) → Bytes → Bytes
  nodes_bytes [] rest = rest
  nodes_bytes ((key, leaf) ∷ nodes) rest =
      int_field key
      ++ (pair_list_bytes (list_items leaf.file_obj_pair_list) ++ nodes_bytes nodes rest)

  append_nodes-bytes :
      (nodes : List (ℕ × ValueLeaf)) (s rest : Bytes)
      → append_numeric_nodes 0 nodes s ++ rest ≡ s ++ nodes_bytes nodes rest
  unfolding append_numeric_nodes append_int_value_node nodes_bytes
  append_nodes-bytes [] s rest = refl
  append_nodes-bytes ((key, leaf) ∷ nodes) s rest =
      append_nodes-bytes nodes _ rest
      ∙ simp (append_pair_list-bytes, append_int-field, append_assoc)

  -- A leaf with the pairs that another one has, all in bucket 0.
  abbrev pub SamePairs : ValueLeaf → ValueLeaf → Type 0
  SamePairs v w = list_items w.file_obj_pair_list ≡ map unbucketed (list_items v.file_obj_pair_list)

  read_nodes-bytes :
      (nodes : List (ℕ × ValueLeaf)) (node : AttrLeaf) (t : Rbt ValueLeaf) (count : ℕ)
      (rest : Bytes)
      → rbt_keys t ≡ int_keys
      → AreDistinct ◌==◌ nodes
      → All (λ n. StorableNode n.0 n.1) nodes
      → (t' : Rbt ValueLeaf) × (count' : ℕ) × (read_value_nodes
            (length nodes)
            at_integer
            (record node { rbt = some t }, count)
            (nodes_bytes nodes rest)
          ≡ some ((record node { rbt = some t' }, count'), rest))
        × (rbt_keys t' ≡ int_keys)
        × ((k : ℕ) → CopiedIn SamePairs (rbt_find t k) (find_item ◌==◌ k nodes) (rbt_find t' k))
  unfolding read_value_nodes read_attr_value_node read_number_leaf add_number nodes_bytes
  read_nodes-bytes [] node t count rest keys d h = (t, count, refl, keys, λ k. refl)
  read_nodes-bytes ((key, v) ∷ nodes) node t count rest keys (once, d) ((fits, sized, len), h) =
      let (w, read, same) =
        read_pair_list-bytes (list_items v.file_obj_pair_list) (nodes_bytes nodes rest) sized len in
      let (t', count', reads, keys', found) =
        read_nodes-bytes nodes node (rbt_add t key w) (count + 1) rest (keys-add t key w ∙ keys) d
          h in
      (
        t',
        count',
        rw (read_int-field key _ fits, read) reads,
        keys',
        λ k.
            CopiedIn-cons ◌==◌ ==_iff SamePairs key k v w nodes _ _ _ same (find-add t key k w keys)
              once (found k),
      )

  pub tree_bytes : Rbt ValueLeaf → Bytes → Bytes
  tree_bytes t rest =
      int_field 1 ++ (count_field (length (rbt_items t)) ++ nodes_bytes (rbt_items t) rest)

  pub append_tree-bytes :
      (t : Rbt ValueLeaf) (s rest : Bytes)
      → append_numeric_value_tree t 0 s ++ rest ≡ s ++ tree_bytes t rest
  unfolding append_numeric_value_tree miqs_append_type tree_bytes
  append_tree-bytes t s rest =
      append_nodes-bytes (rbt_items t) _ rest
      ∙ simp (append_uint64-field, append_int-field, append_assoc)

  -- The values that a leaf of integers has fit the file.
  abbrev pub StorableTree : Rbt ValueLeaf → Type 0
  StorableTree t = (length (rbt_items t) < 2 ^ 64) × All (λ n. StorableNode n.0 n.1) (rbt_items t)

  -- What is dumped of a tree of integers is read back as one with the same lists under the same
  -- integers.
  pub read_tree-bytes :
      (t : Rbt ValueLeaf) (count : ℕ) (rest : Bytes)
      → rbt_keys t ≡ int_keys
      → StorableTree t
      → (t' : Rbt ValueLeaf) × (count' : ℕ) × (read_attr_values count (tree_bytes t rest)
          ≡ some ((record (leaf_of_type at_integer) { rbt = some t' }, count'), rest))
        × (rbt_keys t' ≡ int_keys)
        × ((k : ℕ) → CopiedIn SamePairs none (rbt_find t k) (rbt_find t' k))
  unfolding read_attr_values leaf_of_type follow tree_bytes get_miqs_type_from_int
  read_tree-bytes t count rest keys (len, h) =
      let (t', count', read, keys', found) =
        read_nodes-bytes (rbt_items t) (leaf_of_type at_integer) (rbt_create int_keys) count rest
          (keys-create int_keys) (numbers-AreDistinct t keys) h in
      (
        t',
        count',
        rw (read_int-field 1 _ (omega arith), read_uint64-field (length (rbt_items t)) _ len) read,
        keys',
        λ k. rw (find-items t k keys, ← find-create {V = ValueLeaf} int_keys k) (found k),
      )

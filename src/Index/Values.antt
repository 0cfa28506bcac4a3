-- ===== src/Index/Values.antt =====
-- src/index/in_mem_index.c: indexing the values of one attribute. `none` is a fault: a pointer that is
-- null or was never set is read, or a value is read as another type. A path that nothing has set is
-- `none`, and so is a null path, which is not followed: the code puts it in an empty table as a tag
-- that is null. What the code changes through a pointer that a container has returned is written back
-- under its key.
use miqs.Prelude.{ℕ, Option, none, some, List, [], ◌∷◌, Bytes, ◌>>=◌, ◌==◌, if◌then◌else◌}
use miqs.Containers.{Containers, TaggedValue}
use miqs.Index.State.{FileObjPair, ValueLeaf, AttrLeaf, Tables}

module _ ⦃c : Containers⦄ where
  open c use {
    Lst, list_create, list_push_value, list_insert, list_count, list_get_tagged_value, Art,
    art_tree_init, art_search, art_insert, Rbt, rbt_create, rbt_find, rbt_add,
  }

  -- The position of the tag in the table, and the table, which has the tag from then on.
  unfoldable pub insert_tagged_value : Lst TaggedValue → Bytes → ℕ × Lst TaggedValue
  insert_tagged_value list tag = elim (list_get_tagged_value list tag) [
    | some tgv ↦ (tgv.value, list)
    | none ↦
        let last_pos = list_count list in
        (last_pos, list_insert list (record { tag = tag; value = last_pos }) last_pos)
  ]

  -- The pair of positions of the two paths is pushed on the list of a value.
  unfoldable pub push_pair : ℕ → Bytes → Bytes → ValueLeaf → Tables → ValueLeaf × Tables
  push_pair pos file_path obj_path entry t =
      let (file_pos, files) = insert_tagged_value t.files file_path in
      let (obj_pos, objects) = insert_tagged_value t.objects obj_path in
      let pair : FileObjPair = record {
        parallel_index_pos = pos;
        file_list_pos = file_pos;
        obj_list_pos = obj_pos;
      } in
      (
        record { file_obj_pair_list = list_push_value entry.file_obj_pair_list pair },
        record { files = files; objects = objects },
      )

  unfoldable pub new_value_leaf : ValueLeaf
  new_value_leaf = record { file_obj_pair_list = list_create }

  -- The entry of the key, found or added.
  unfoldable pub numeric_entry : Rbt ValueLeaf → ℕ → ValueLeaf × Rbt ValueLeaf
  unfolding new_value_leaf
  numeric_entry rbt key = elim (rbt_find rbt key) [
    | some entry ↦ (entry, rbt)
    | none ↦ (new_value_leaf, rbt_add rbt key new_value_leaf)
  ]

  -- One round of `indexing_numeric`: the list of the entry is extended.
  unfoldable pub numeric_round :
      ℕ → Bytes → Bytes → ℕ → Rbt ValueLeaf → Tables → Rbt ValueLeaf × Tables
  numeric_round pos file_path obj_path key rbt t =
      let (entry, rbt') = numeric_entry rbt key in
      let (entry', t') = push_pair pos file_path obj_path entry t in (rbt_add rbt' key entry', t')

  unfoldable pub numeric_loop :
      ℕ → Bytes → Bytes → List ℕ → Rbt ValueLeaf → Tables → Rbt ValueLeaf × Tables
  unfolding numeric_round
  numeric_loop pos file_path obj_path [] rbt t = (rbt, t)
  numeric_loop pos file_path obj_path (v ∷ vs) rbt t =
      let (rbt', t') = numeric_round pos file_path obj_path v rbt t in
      numeric_loop pos file_path obj_path vs rbt' t'

  -- The flag says of which type the values are, 1 for double; the leaf says as which they are read.
  unfoldable pub indexing_numeric :
      ℕ → ℕ → List ℕ → Option Bytes → Option Bytes → AttrLeaf → Tables → Option (AttrLeaf × Tables)
  indexing_numeric pos float [] file_path obj_path leaf t = some (leaf, t)
  indexing_numeric pos float (v ∷ vs) file_path obj_path leaf t =
      if float == leaf.is_float
      then (do
        rbt ← leaf.rbt
        file ← file_path
        object ← obj_path
        let (rbt', t') = numeric_loop pos file object (v ∷ vs) rbt t
        some (record leaf { rbt = some rbt' }, t'))
      else none

  unfoldable pub string_entry : Art ValueLeaf → Bytes → ValueLeaf × Art ValueLeaf
  unfolding new_value_leaf
  string_entry art key = elim (art_search art key) [
    | some entry ↦ (entry, art)
    | none ↦ (new_value_leaf, art_insert art key new_value_leaf)
  ]

  unfoldable pub string_round :
      ℕ → Bytes → Bytes → Bytes → Art ValueLeaf → Tables → Art ValueLeaf × Tables
  string_round pos file_path obj_path key art t =
      let (entry, art') = string_entry art key in
      let (entry', t') = push_pair pos file_path obj_path entry t in
      (art_insert art' key entry', t')

  unfoldable pub string_loop :
      ℕ → Bytes → Bytes → List Bytes → Art ValueLeaf → Tables → Art ValueLeaf × Tables
  unfolding string_round
  string_loop pos file_path obj_path [] art t = (art, t)
  string_loop pos file_path obj_path (v ∷ vs) art t =
      let (art', t') = string_round pos file_path obj_path v art t in
      string_loop pos file_path obj_path vs art' t'

  -- The tree of the leaf, made if it has none.
  unfoldable pub string_tree : Option (Art ValueLeaf) → Art ValueLeaf
  string_tree none = art_tree_init
  string_tree (some art) = art

  unfoldable pub indexing_string :
      ℕ → List Bytes → Option Bytes → Option Bytes → AttrLeaf → Tables → Option (AttrLeaf × Tables)
  unfolding string_tree
  indexing_string pos [] file_path obj_path leaf t =
      some (record leaf { is_numeric = 0; is_float = 0; art = some (string_tree leaf.art) }, t)
  indexing_string pos (v ∷ vs) file_path obj_path leaf t = do
    file ← file_path
    object ← obj_path
    let (art', t') = string_loop pos file object (v ∷ vs) (string_tree leaf.art) t
    some (record leaf { is_numeric = 0; is_float = 0; art = some art' }, t')

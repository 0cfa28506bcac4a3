-- ===== src/Plugins/Strings.antt =====
-- src/index/spi/spi.c: the string index, of the kind that the environment names. An outer `none` is a
-- fault: the index is not of that kind, or a key is read behind its end. An index that is `none` is a
-- null pointer.
use miqs.Prelude.{ℕ, Option, none, some, List, [], ◌∷◌, Bytes, str_eq, ◌>>=◌, if◌then◌else◌}
use mathlib.Core.Option
use miqs.Plugins.{ℤ, negsuc, either}
use miqs.Plugins.Reverse.{reverse_str}
use miqs.Strings.{PatternType}
use miqs.Plugins.StringStores.{
  Pointer, StringStores, create_hashtable, create_rbtree, create_trie, create_art,
  insert_string_to_hashtable, insert_string_to_rbtree, insert_string_to_trie, insert_string_to_art,
  search_string_in_hashtable, search_string_in_rbtree, search_string_in_trie, search_string_in_art,
  search_affix_in_hashtable, search_affix_in_rbtree, search_affix_in_trie, search_affix_in_art,
}

-- The data structure that the variable MIQS_STR_IDX_IMPL names.
pub data StringImpl : Type 0 where
  hashtable sbst trie art : StringImpl

-- "HASHTABLE", "SBST" and "TRIE"
unfoldable pub string_impl : Option Bytes → StringImpl
string_impl none = art
string_impl (some s) =
    if str_eq s (72 ∷ 65 ∷ 83 ∷ 72 ∷ 84 ∷ 65 ∷ 66 ∷ 76 ∷ 69 ∷ [])
    then hashtable
    else if str_eq s (83 ∷ 66 ∷ 83 ∷ 84 ∷ [])
    then sbst
    else if str_eq s (84 ∷ 82 ∷ 73 ∷ 69 ∷ [])
    then trie
    else art

module _ {V : Type 0} (s : StringStores V) where
  pub data StringIndex : Type 0 where
    hashtable_index : s.ht.Store → StringIndex
    sbst_index : s.rbt.Store → StringIndex
    trie_index : s.tries.Store → StringIndex
    art_index : s.arts.Store → StringIndex

  -- The index seen as one kind. A null pointer is one of any kind.
  abbrev as_hashtable : Option StringIndex → Option (Option s.ht.Store)
  as_hashtable none = some none
  as_hashtable (some (hashtable_index t)) = some (some t)
  as_hashtable (some _) = none

  abbrev as_sbst : Option StringIndex → Option (Option s.rbt.Store)
  as_sbst none = some none
  as_sbst (some (sbst_index t)) = some (some t)
  as_sbst (some _) = none

  abbrev as_trie : Option StringIndex → Option (Option s.tries.Store)
  as_trie none = some none
  as_trie (some (trie_index t)) = some (some t)
  as_trie (some _) = none

  abbrev as_art : Option StringIndex → Option (Option s.arts.Store)
  as_art none = some none
  as_art (some (art_index t)) = some (some t)
  as_art (some _) = none

  unfoldable pub create_string_index : Option Bytes → ℤ × StringIndex
  unfolding string_impl create_hashtable create_rbtree create_trie create_art
  create_string_index env = elim (string_impl env) [
    | hashtable ↦ let (rst, t) = create_hashtable s in (rst, hashtable_index t)
    | sbst ↦ let (rst, t) = create_rbtree s in (rst, sbst_index t)
    | trie ↦ let (rst, t) = create_trie s in (rst, trie_index t)
    | art ↦ let (rst, t) = create_art s in (rst, art_index t)
  ]

  -- In the trie and the radix tree the reversed string is inserted too.
  unfoldable pub insert_string :
      Option Bytes → Option StringIndex → Bytes → V → Option (ℤ × Option StringIndex)
  unfolding string_impl reverse_str either insert_string_to_hashtable insert_string_to_rbtree
      insert_string_to_trie insert_string_to_art
  insert_string env index key value = elim (string_impl env) [
    | hashtable ↦ (do
      t ← as_hashtable index
      let (rst, t') = insert_string_to_hashtable s t key value
      some (rst, Option.map hashtable_index t'))
    | sbst ↦ (do
      t ← as_sbst index
      let (rst, t') = insert_string_to_rbtree s t key value
      some (rst, Option.map sbst_index t'))
    | trie ↦ (do
      t ← as_trie index
      let (rst, t1) = insert_string_to_trie s t key value
      let (rst', t2) = insert_string_to_trie s t1 (reverse_str key) value
      some (either rst rst', Option.map trie_index t2))
    | art ↦ (do
      t ← as_art index
      let (rst, t1) = insert_string_to_art s t key value
      let (rst', t2) = insert_string_to_art s t1 (reverse_str key) value
      some (either rst rst', Option.map art_index t2))
  ]

  unfoldable pub search_string :
      Option Bytes
      → Option StringIndex
      → Bytes
      → ℕ
      → Option (Pointer V)
      → Option (ℤ × Option (Pointer V))
  unfolding string_impl search_string_in_hashtable search_string_in_rbtree search_string_in_trie
      search_string_in_art
  search_string env index key len out = elim (string_impl env) [
    | hashtable ↦ (do
      t ← as_hashtable index
      out' ← search_string_in_hashtable s t key len out
      some (negsuc 0, out'))
    | sbst ↦ (do t ← as_sbst index; some (negsuc 0, search_string_in_rbtree s t key out))
    | trie ↦ (do t ← as_trie index; some (negsuc 0, search_string_in_trie s t key out))
    | art ↦ (do t ← as_art index; some (negsuc 0, search_string_in_art s t key out))
  ]

  unfoldable pub search_affix :
      Option Bytes
      → Option StringIndex
      → PatternType
      → Bytes
      → Option (Option (List (Option (Pointer V))))
  unfolding string_impl search_affix_in_hashtable search_affix_in_rbtree search_affix_in_trie
      search_affix_in_art
  search_affix env index type affix = elim (string_impl env) [
    | hashtable ↦ Option.map (λ t. search_affix_in_hashtable s t type affix) (as_hashtable index)
    | sbst ↦ Option.map (λ t. search_affix_in_rbtree s t type affix) (as_sbst index)
    | trie ↦ Option.map (λ t. search_affix_in_trie s t type affix) (as_trie index)
    | art ↦ Option.map (λ t. search_affix_in_art s t type affix) (as_art index)
  ]

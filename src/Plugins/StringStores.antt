-- ===== src/Plugins/StringStores.antt =====
-- src/index/spi: the string back ends, one for each data structure. `none` is a null pointer. Creating
-- never runs out of memory. The counters of the data structures are left out.
use miqs.Prelude.{
  ℕ, ◌+◌, Bool, true, false, Option, none, some, List, [], ◌∷◌, ◌++◌, Bytes, length, map, take, ltb,
  str_eq, if◌then◌else◌,
}
use mathlib.Core.Option
use miqs.Plugins.{ℤ, pos, negsuc, KeyedStore, KeyedCalls}
use miqs.Plugins.Reverse.{reverse_str}
use miqs.Strings.{
  PatternType, pattern_exact, pattern_prefix, pattern_suffix, pattern_middle, is_prefix,
  starts_with, ends_with, contains, text_at,
}

-- A pointer in an index: one handed in, or the address of a parameter of a call that has ended.
pub data Pointer (V : Type 0) : Type 0 where
  to : V → Pointer V
  to_ended : Pointer V

-- `ht_set` refuses a key of no bytes.
abbrev pub is_filled : Bytes → Bool
is_filled [] = false
is_filled (b ∷ key) = true

-- `ht_create`, `ht_set`, `ht_get` and `ht_foreach_pair`; `rbt_create`, `rbt_add`, `rbt_find` and
-- `rbt_walk`; `trie_create`, `trie_insert`, `trie_find` and `trie_iter_all`; `art_tree_init`,
-- `art_insert`, `art_search` and `art_iter`. The hash table and the red-black tree keep the bytes of a
-- key with no terminator; `behind` is what memory holds behind them. The tree compares its keys with
-- `strcmp`, which reads on there, so that nothing is known of what it finds.
pub record StringStores (V : Type 0) : Type 1 where
  pub ht : KeyedStore Bytes str_eq is_filled V
  pub rbt : KeyedCalls Bytes V
  pub tries : KeyedStore Bytes str_eq (λ key. true) (Pointer V)
  pub arts : KeyedStore Bytes str_eq (λ key. true) V
  pub behind : Bytes → Bytes

-- `affix_t`
pub record AffixInfo : Type 0 where
  pub body : Bytes
  pub type : PatternType

unfoldable pub create_affix_info : Bytes → PatternType → AffixInfo
create_affix_info body type = record { body = body; type = type }

unfoldable pub is_matching_given_affix : Bytes → AffixInfo → Bool
is_matching_given_affix str affix_info = elim affix_info.type [
  | pattern_prefix ↦ starts_with str affix_info.body
  | pattern_suffix ↦ ends_with str affix_info.body
  | pattern_middle ↦ contains str affix_info.body
  | pattern_exact ↦ false
]

-- The values of the items whose key passes the test, in order.
abbrev pub collect {ℓ} : {V : Type ℓ} → (Bytes → Bool) → List (Bytes × V) → List V
collect test [] = []
collect test ((key, value) ∷ items) =
    if test key then value ∷ collect test items else collect test items

-- The iteration over the trie or the tree by prefix.
abbrev pub by_prefix {ℓ} : {V : Type ℓ} → Bytes → List (Bytes × V) → List V
by_prefix affix items = collect (is_prefix affix) items

module _ {V : Type 0} (s : StringStores V) where
  unfoldable pub create_hashtable : ℤ × s.ht.Store
  create_hashtable = (pos 0, s.ht.empty)

  unfoldable pub create_rbtree : ℤ × s.rbt.Store
  create_rbtree = (pos 0, s.rbt.empty)

  unfoldable pub create_trie : ℤ × s.tries.Store
  create_trie = (pos 0, s.tries.empty)

  unfoldable pub create_art : ℤ × s.arts.Store
  create_art = (pos 0, s.arts.empty)

  unfoldable pub insert_string_to_hashtable : Option s.ht.Store → Bytes → V → ℤ × Option s.ht.Store
  insert_string_to_hashtable none key value = (pos 0, none)
  insert_string_to_hashtable (some t) key value =
      let (rst, t') = s.ht.insert t key value in (rst, some t')

  unfoldable pub insert_string_to_rbtree : Option s.rbt.Store → Bytes → V → ℤ × Option s.rbt.Store
  insert_string_to_rbtree none key value = (negsuc 0, none)
  insert_string_to_rbtree (some t) key value =
      let (rst, t') = s.rbt.insert t key value in (rst, some t')

  -- The address of the parameter `data` goes under the key, and `data` under the reversed key.
  unfoldable pub insert_string_to_trie : Option s.tries.Store → Bytes → V → ℤ × Option s.tries.Store
  unfolding reverse_str
  insert_string_to_trie none key value = (negsuc 0, none)
  insert_string_to_trie (some t) key value =
      let t1 = (s.tries.insert t key to_ended).1 in
      let (rst, t2) = s.tries.insert t1 (reverse_str key) (to value) in (rst, some t2)

  unfoldable pub insert_string_to_art : Option s.arts.Store → Bytes → V → ℤ × Option s.arts.Store
  insert_string_to_art none key value = (negsuc 0, none)
  insert_string_to_art (some t) key value = (pos 0, some (s.arts.insert t key value).1)

  -- The searches write the result through `out`, which holds what is given. What they return is
  -- dropped. `ht_get` reads `len` bytes of the key, its terminator included.
  unfoldable pub search_string_in_hashtable :
      Option s.ht.Store → Bytes → ℕ → Option (Pointer V) → Option (Option (Pointer V))
  search_string_in_hashtable none key len out = some out
  search_string_in_hashtable (some t) key len out =
      if ltb (length key + 1) len
      then none
      else some (Option.map to (s.ht.find t (take len (key ++ 0 ∷ []))))

  -- `rbt_find` leaves the result as it is where it finds nothing.
  abbrev kept : Option (Pointer V) → Option V → Option (Pointer V)
  kept out none = out
  kept out (some v) = some (to v)

  unfoldable pub search_string_in_rbtree :
      Option s.rbt.Store → Bytes → Option (Pointer V) → Option (Pointer V)
  search_string_in_rbtree none key out = out
  search_string_in_rbtree (some t) key out = kept out (s.rbt.find t key)

  unfoldable pub search_string_in_trie :
      Option s.tries.Store → Bytes → Option (Pointer V) → Option (Pointer V)
  search_string_in_trie none key out = out
  search_string_in_trie (some t) key out = s.tries.find t key

  unfoldable pub search_string_in_art :
      Option s.arts.Store → Bytes → Option (Pointer V) → Option (Pointer V)
  search_string_in_art none key out = out
  search_string_in_art (some t) key out = Option.map to (s.arts.find t key)

  -- The lists hold pointers, null where `art_search` or `trie_find` found nothing.
  abbrev pub pushed : List V → List (Option (Pointer V))
  pushed = map (λ v. some (to v))

  unfoldable pub search_affix_in_hashtable :
      Option s.ht.Store → PatternType → Bytes → Option (List (Option (Pointer V)))
  unfolding create_affix_info is_matching_given_affix
  search_affix_in_hashtable none type affix = none
  search_affix_in_hashtable (some t) type affix =
      let info = create_affix_info affix type in
      some
        (pushed (collect (λ k. is_matching_given_affix (text_at s.behind k) info) (s.ht.items t)))

  unfoldable pub search_affix_in_rbtree :
      Option s.rbt.Store → PatternType → Bytes → Option (List (Option (Pointer V)))
  unfolding create_affix_info is_matching_given_affix
  search_affix_in_rbtree none type affix = none
  search_affix_in_rbtree (some t) type affix =
      let info = create_affix_info affix type in
      some
        (pushed (collect (λ k. is_matching_given_affix (text_at s.behind k) info) (s.rbt.items t)))

  unfoldable pub search_affix_in_trie :
      Option s.tries.Store → PatternType → Bytes → Option (List (Option (Pointer V)))
  unfolding reverse_str contains
  search_affix_in_trie none type affix = none
  search_affix_in_trie (some t) pattern_middle affix =
      some (map some (collect (λ key. contains key affix) (s.tries.items t)))
  search_affix_in_trie (some t) pattern_prefix affix =
      some (map some (by_prefix affix (s.tries.items t)))
  search_affix_in_trie (some t) pattern_suffix affix =
      some (map some (by_prefix (reverse_str affix) (s.tries.items t)))
  search_affix_in_trie (some t) pattern_exact affix = some (s.tries.find t affix ∷ [])

  -- The argument for the infix is never filled in, so that no key passes.
  unfoldable pub search_affix_in_art :
      Option s.arts.Store → PatternType → Bytes → Option (List (Option (Pointer V)))
  search_affix_in_art none type affix = none
  search_affix_in_art (some t) pattern_middle affix = some []
  search_affix_in_art (some t) pattern_prefix affix =
      some (pushed (by_prefix affix (s.arts.items t)))
  search_affix_in_art (some t) pattern_suffix affix =
      some (pushed (by_prefix affix (s.arts.items t)))
  search_affix_in_art (some t) pattern_exact affix = some (Option.map to (s.arts.find t affix) ∷ [])

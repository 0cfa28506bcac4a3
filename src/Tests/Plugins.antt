-- ===== src/Tests/Plugins.antt =====
-- Runs of the index plug-ins.
use miqs.Prelude.{
  ◌&&◌, true, if◌then◌else◌, ℕ, ◌≡◌, ◌≢◌, refl, ◌∙◌, ◌↔◌, none, some, List, [], ◌∷◌, Bytes, map,
  ◌==◌, ==_iff, str_eq, str_eq_iff,
}
use mathlib.Core.List.{Memᴰ}
use miqs.Plugins.{ℤ, pos, negsuc, KeyedStore, KeyedCalls}
use miqs.Plugins.Assoc.{assoc_store}
use miqs.Plugins.Reverse.{reverse_str}
use miqs.Plugins.StringStores.{is_filled, StringStores, Pointer, to, to_ended}
use miqs.Plugins.Strings.{
  hashtable, hashtable_index, StringIndex, string_impl, trie_index, art_index, trie, art,
  insert_string, search_string, search_affix,
}
use miqs.Plugins.Found.{kind_of, search-insert, insert-reversed, search-reversed}
use miqs.Plugins.Affixes.{HasAffix, search_affix-HasAffix}
use miqs.Plugins.NumberStores.{NumberStores}
use miqs.Strings.{pattern_prefix, text_at}
use miqs.Tests.{codes}

abbrev string_store : (V : Type 0) → KeyedStore Bytes str_eq (λ key. true) V
string_store V =
    assoc_store str_eq (λ k. (str_eq_iff k k).1 refl)
      (λ a b c e f. (str_eq_iff a c).1 ((str_eq_iff a b).0 e ∙ (str_eq_iff b c).0 f))

abbrev number_store : (V : Type 0) → KeyedStore ℕ ◌==◌ (λ key. true) V
number_store V =
    assoc_store ◌==◌ (λ k. (==_iff k k).1 refl)
      (λ a b c e f. (==_iff a c).1 ((==_iff a b).0 e ∙ (==_iff b c).0 f))

-- A table that refuses the empty key.
abbrev insert_filled : List (Bytes × ℕ) → Bytes → ℕ → ℤ × List (Bytes × ℕ)
insert_filled t [] v = (negsuc 0, t)
insert_filled t (b ∷ key) v = (pos 0, (b ∷ key, v) ∷ t)

find-insert_filled :
    (t : List (Bytes × ℕ)) (k j : Bytes) (v : ℕ)
    → (string_store ℕ).find (insert_filled t k v).1 j
      ≡ (if is_filled k && str_eq k j then some v else (string_store ℕ).find t j)
find-insert_filled t [] j v = refl
find-insert_filled t (b ∷ key) j v = refl

abbrev filled_store : KeyedStore Bytes str_eq is_filled ℕ
filled_store = record {
  Store = List (Bytes × ℕ);
  empty = [];
  insert = insert_filled;
  find = (string_store ℕ).find;
  items = (string_store ℕ).items;
  find-insert = find-insert_filled;
  items-found = (string_store ℕ).items-found;
  found-items = (string_store ℕ).found-items;
}

abbrev calls : KeyedCalls Bytes ℕ
calls = record {
  Store = List (Bytes × ℕ);
  empty = [];
  insert = λ t k v. (pos 0, (k, v) ∷ t);
  find = (string_store ℕ).find;
  items = (string_store ℕ).items;
}

-- Pointers are numbers.
abbrev stores : StringStores ℕ
stores = record {
  ht = filled_store;
  rbt = calls;
  tries = string_store (Pointer ℕ);
  arts = string_store ℕ;
  behind = λ key. [];
}

abbrev number_stores : NumberStores ℕ
number_stores = record {
  SparseArray = Unit {0};
  create_sparse_array = tt;
  set_element = λ t k v. (negsuc 0, t);
  get_element = λ t k. none;
  foreach_elements = λ t a b. [];
  rbt = number_store ℕ;
  rbt_range_walk = λ t a b. [];
  skiplists = number_store ℕ;
  range_search = λ t a b. [];
}

abbrev empty_art : StringIndex stores
empty_art = art_index stores.arts.empty

no_env-art : string_impl none ≡ art
unfolding string_impl
no_env-art = refl

search-insert_example :
    (r : ℤ) × (index' : StringIndex stores) × (insert_string stores none
        (some empty_art)
        (codes "ab")
        7
      ≡ some (r, some index'))
    × (string_impl none ≡ kind_of stores index')
    × (search_string stores none (some index') (codes "ab") 2 none ≡ some (negsuc 0, some (to 7)))
search-insert_example =
    search-insert stores none empty_art (codes "ab") 7 none no_env-art (λ e. cc e) (λ e. cc e)

insert-reversed_example :
    (r : ℤ) × (i1 : StringIndex stores) × (r' : ℤ) × (i2 : StringIndex stores) × (insert_string
        stores none
        (some empty_art)
        (codes "ab")
        7
      ≡ some (r, some i1))
    × (insert_string stores none (some i1) (reverse_str (codes "ab")) 8 ≡ some (r', some i2))
    × (search_string stores none (some i2) (codes "ab") 2 none ≡ some (negsuc 0, some (to 8)))
insert-reversed_example =
    insert-reversed stores none stores.arts.empty (codes "ab") 7 8 none no_env-art

trie_env : string_impl (some (codes "TRIE")) ≡ trie
unfolding string_impl
trie_env = refl

not_palindrome : reverse_str (codes "ab") ≢ codes "ab"
unfolding reverse_str
not_palindrome e = cc ((str_eq_iff (codes "ba") (codes "ab")).1 e)

search-reversed_example :
    (r : ℤ) × (index' : StringIndex stores) × (insert_string stores
        (some (codes "TRIE"))
        (some (trie_index stores.tries.empty))
        (codes "ab")
        7
      ≡ some (r, some index'))
    × (search_string stores (some (codes "TRIE")) (some index') (reverse_str (codes "ab")) 2 none
        ≡ some (negsuc 0, some to_ended))
search-reversed_example =
    search-reversed stores (some (codes "TRIE")) stores.tries.empty (codes "ab") 7 none trie_env
      not_palindrome

hashtable_env : string_impl (some (codes "HASHTABLE")) ≡ hashtable
unfolding string_impl
hashtable_env = refl

-- A table with two strings.
abbrev two_strings : List (Bytes × ℕ)
two_strings = ((codes "plate", 1) ∷ (codes "plug", 2) ∷ [])

search_affix-HasAffix_example :
    (vs : List ℕ) × (search_affix stores
        (some (codes "HASHTABLE"))
        (some (hashtable_index two_strings))
        pattern_prefix
        (codes "pl")
      ≡ some (some (map (λ v. some (to v)) vs)))
    × ((v : ℕ)
        → Memᴰ v vs ↔ (
            (key : Bytes) × (stores.ht.find two_strings key ≡ some v)
            × HasAffix pattern_prefix (codes "pl") (text_at stores.behind key)))
search_affix-HasAffix_example =
    search_affix-HasAffix stores (some (codes "HASHTABLE")) two_strings pattern_prefix (codes "pl")
      hashtable_env

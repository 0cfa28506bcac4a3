-- ===== src/Plugins/Found.antt =====
-- Insertion in the string indices, and what a search then finds.
use miqs.Prelude.{
  ℕ, ◌+◌, ◌≡◌, ◌≢◌, refl, sym, ap, ◌∙◌, Bool, true, false, Option, some, [], ◌∷◌, Bytes, length,
  take-append_left, ltb, str_eq, str_eq_iff, if◌then◌else◌, arith, Bool-cases, inl, inr,
}
use mathlib.Core.Option
use miqs.Plugins.{ℤ, pos, negsuc, either}
use miqs.Plugins.Reverse.{reverse_str, reverse-reverse}
use miqs.Plugins.StringStores.{
  is_filled, Pointer, to, to_ended, StringStores, insert_string_to_hashtable,
  insert_string_to_rbtree, insert_string_to_trie, insert_string_to_art, search_string_in_hashtable,
  search_string_in_rbtree, search_string_in_trie, search_string_in_art,
}
use miqs.Plugins.Strings.{
  StringImpl, hashtable, sbst, trie, art, string_impl, StringIndex, hashtable_index, sbst_index,
  trie_index, art_index, insert_string, search_string,
}

str_eq_refl : (a : Bytes) → str_eq a a ≡ true
str_eq_refl a = (str_eq_iff a a).1 refl

filled_key : (key : Bytes) → key ≢ [] → is_filled key ≡ true
filled_key [] h = absurd (h refl)
filled_key (b ∷ key) h = refl

-- The length of a key and one more is what the key may be read to.
readable : (n : ℕ) → ltb (n + 1) n ≡ false
readable n = ground arith

module _ {V : Type 0} (s : StringStores V) where
  abbrev pub kind_of : StringIndex s → StringImpl
  kind_of (hashtable_index t) = hashtable
  kind_of (sbst_index t) = sbst
  kind_of (trie_index t) = trie
  kind_of (art_index t) = art

  if_same :
      (b : Bool) {v : V}
      → Path
          (Option (ℤ × Option (Pointer V)))
          (some (negsuc 0, Option.map to (if b then some v else some v)))
          (some (negsuc 0, some (to v)))
  if_same true = refl
  if_same false = refl

  -- The two insertions of `insert_string_to_trie`.
  abbrev with_reversed : s.tries.Store → Bytes → V → ℤ × s.tries.Store
  with_reversed t key v = s.tries.insert (s.tries.insert t key to_ended).1 (reverse_str key) (to v)

  find-insert_to_trie :
      (t : s.tries.Store) (key : Bytes) (v : V)
      → s.tries.find (with_reversed t key v).1 (reverse_str key) ≡ some (to v)
  find-insert_to_trie t key v =
      s.tries.find-insert _ (reverse_str key) (reverse_str key) (to v)
      ∙ rw (str_eq_refl (reverse_str key)) refl

  -- In a hash table, a trie or a radix tree, the kind that the environment names, the search for a
  -- string that was just inserted writes the pointer inserted with it, and returns -1; in the hash table
  -- the string is not empty. The index stays of its kind.
  pub search-insert :
      (env : Option Bytes) (index : StringIndex s) (key : Bytes) (v : V) (out : Option (Pointer V))
      → string_impl env ≡ kind_of index
      → kind_of index ≢ sbst
      → (kind_of index ≡ hashtable → key ≢ [])
      → (r : ℤ) × (index' : StringIndex s) × (insert_string s env (some index) key v
          ≡ some (r, some index'))
        × (string_impl env ≡ kind_of index')
        × (search_string s env (some index') key (length key) out ≡ some (negsuc 0, some (to v)))
  unfolding insert_string search_string insert_string_to_hashtable insert_string_to_rbtree
      insert_string_to_trie insert_string_to_art search_string_in_hashtable search_string_in_rbtree
      search_string_in_trie search_string_in_art
  search-insert env (hashtable_index t) key v out e other filled = (
    (s.ht.insert t key v).0,
    hashtable_index (s.ht.insert t key v).1,
    rw (e, insert_string) refl,
    e,
    rw
        (
          e,
          search_string,
          readable (length key),
          take-append_left (length key) key (0 ∷ []) refl,
          s.ht.find-insert t key key v,
          filled_key key (filled refl),
          str_eq_refl key,
        )
        refl,
  )
  search-insert env (sbst_index t) key v out e other filled = absurd (other refl)
  search-insert env (trie_index t) key v out e other filled =
      let t' : s.tries.Store = (with_reversed t key v).1 in
      let t'' : s.tries.Store = (with_reversed t' (reverse_str key) v).1 in
      (
        either (with_reversed t key v).0 (with_reversed t' (reverse_str key) v).0,
        trie_index t'',
        rw (e, insert_string) refl,
        e,
        rw
            (
              e,
              search_string,
              ap (s.tries.find t'') (sym (reverse-reverse key))
                  ∙ find-insert_to_trie t' (reverse_str key) v,
            )
            refl,
      )
  search-insert env (art_index t) key v out e other filled =
      let t' : s.arts.Store = (s.arts.insert t key v).1 in
      (
        either (pos 0) (pos 0),
        art_index (s.arts.insert t' (reverse_str key) v).1,
        rw (e, insert_string) refl,
        e,
        rw
            (
              e,
              search_string,
              s.arts.find-insert t' (reverse_str key) key v,
              s.arts.find-insert t key key v,
              str_eq_refl key,
            )
            (if_same (str_eq (reverse_str key) key)),
      )

  -- In an index of the radix tree, inserting a string writes over the pointer of the reversed string.
  pub insert-reversed :
      (env : Option Bytes) (t : s.arts.Store) (key : Bytes) (v w : V) (out : Option (Pointer V))
      → string_impl env ≡ art
      → (r : ℤ) × (i1 : StringIndex s) × (r' : ℤ) × (i2 : StringIndex s) × (insert_string s env
            (some (art_index t))
            key
            v
          ≡ some (r, some i1))
        × (insert_string s env (some i1) (reverse_str key) w ≡ some (r', some i2))
        × (search_string s env (some i2) key (length key) out ≡ some (negsuc 0, some (to w)))
  unfolding insert_string search_string insert_string_to_art search_string_in_art
  insert-reversed env t key v w out e =
      let rev : Bytes = reverse_str key in
      let t1 : s.arts.Store = (s.arts.insert t key v).1 in
      let t2 : s.arts.Store = (s.arts.insert t1 rev v).1 in
      let t3 : s.arts.Store = (s.arts.insert t2 rev w).1 in
      let t4 : s.arts.Store = (s.arts.insert t3 (reverse_str rev) w).1 in
      let found : s.arts.find t4 key ≡ some w =
        ap (s.arts.find t4) (sym (reverse-reverse key))
        ∙ s.arts.find-insert t3 (reverse_str rev) (reverse_str rev) w
        ∙ rw (str_eq_refl (reverse_str rev)) refl in
      (
        either (pos 0) (pos 0),
        art_index t2,
        either (pos 0) (pos 0),
        art_index t4,
        rw (e, insert_string) refl,
        rw (e, insert_string) refl,
        rw (e, search_string, found) refl,
      )

  -- In a trie, where a string that is no palindrome was inserted, the search for the reversed string
  -- writes the address of a parameter of a call that has ended.
  pub search-reversed :
      (env : Option Bytes) (t : s.tries.Store) (key : Bytes) (v : V) (out : Option (Pointer V))
      → string_impl env ≡ trie
      → reverse_str key ≢ key
      → (r : ℤ) × (index' : StringIndex s) × (insert_string s env (some (trie_index t)) key v
          ≡ some (r, some index'))
        × (search_string s env (some index') (reverse_str key) (length key) out
            ≡ some (negsuc 0, some to_ended))
  unfolding insert_string search_string insert_string_to_trie search_string_in_trie
  search-reversed env t key v out e ne =
      let rev : Bytes = reverse_str key in
      let t1 : s.tries.Store = (with_reversed t key v).1 in
      let t2 : s.tries.Store = (with_reversed t1 rev v).1 in
      let other : str_eq (reverse_str rev) rev ≡ false =
        elim (Bool-cases (str_eq (reverse_str rev) rev)) [
          | inr f ↦ f
          | inl f ↦ absurd (ne (sym ((str_eq_iff (reverse_str rev) rev).0 f) ∙ reverse-reverse key))
        ] in
      let found : s.tries.find t2 rev ≡ some to_ended =
        s.tries.find-insert (s.tries.insert t1 rev to_ended).1 (reverse_str rev) rev (to v)
        ∙ rw (other, s.tries.find-insert t1 rev rev to_ended, str_eq_refl rev) refl in
      (
        either (with_reversed t key v).0 (with_reversed t1 rev v).0,
        trie_index t2,
        rw (e, insert_string) refl,
        rw (e, search_string, found) refl,
      )

-- ===== src/Index/Numeric.antt =====
-- What the value tree of an integer attribute holds, before and after `indexing_numeric`.
use miqs.Prelude.{
  ℕ, ◌≡◌, refl, sym, ◌∙◌, false, Option, none, some, List, [], ◌∷◌, ◌++◌, Bytes, ◌==◌, ==_iff, inl,
  inr, if◌then◌else◌, append-nil, append_assoc, Bool-cases, Option-cases,
}
use mathlib.Core.Path.{subst}
use mathlib.Core.List.{concat-ne-nil}
use miqs.Containers.{Containers, int_keys}
use miqs.Index.State.{FileObjPair, ValueLeaf, Tables}
use miqs.Index.Values.{push_pair, new_value_leaf, numeric_entry, numeric_round, numeric_loop}
use miqs.Index.Pairs.{
  entry, AreTables, TablesExtend, TablesExtend-refl, TablesExtend-trans, ResolvesAll,
  ResolvesAll-Extend, push_pair-ResolvesAll,
}
use miqs.Query.{SearchRstEntry}

-- The entries that indexing the values `vs` adds at the value `v`: one for each occurrence.
abbrev pub occurrences : List ℕ → SearchRstEntry → ℕ → List SearchRstEntry
occurrences [] e v = []
occurrences (u ∷ us) e v = (if u == v then e ∷ [] else []) ++ occurrences us e v

module _ ⦃c : Containers⦄ where
  open c use {
    Lst, list_items, list_create, items-create, Rbt, rbt_find, rbt_add, rbt_keys, keys-add,
    find-add,
  }

  abbrev pub pairs_of : Option ValueLeaf → List FileObjPair
  pairs_of none = []
  pairs_of (some leaf) = list_items leaf.file_obj_pair_list

  -- The tree is one of integers, its list at each value stands for the entries given, and it has no
  -- leaf where there is none.
  pub record Holds (t : Tables) (pos : ℕ) (rbt : Rbt ValueLeaf) (ent : ℕ → List SearchRstEntry)
      : Type 0 where
    pub int_tree : rbt_keys rbt ≡ int_keys
    pub at_value : (v : ℕ) → ResolvesAll t pos (pairs_of (rbt_find rbt v)) (ent v)
    pub no_empty : (v : ℕ) → ent v ≡ [] → rbt_find rbt v ≡ none

  -- The leaf that a round extends.
  abbrev pub leaf_at : Option ValueLeaf → ValueLeaf
  leaf_at none = new_value_leaf
  leaf_at (some leaf) = leaf

  pairs_of-leaf_at : (o : Option ValueLeaf) → list_items (leaf_at o).file_obj_pair_list ≡ pairs_of o
  unfolding new_value_leaf
  pairs_of-leaf_at none = items-create
  pairs_of-leaf_at (some leaf) = refl

  entry_find :
      (rbt : Rbt ValueLeaf) (key : ℕ)
      → rbt_keys rbt ≡ int_keys
      → ((numeric_entry rbt key).0 ≡ leaf_at (rbt_find rbt key))
        × (rbt_keys (numeric_entry rbt key).1 ≡ int_keys)
        × ((v : ℕ) → (key == v) ≡ false → rbt_find (numeric_entry rbt key).1 v ≡ rbt_find rbt v)
  unfolding numeric_entry
  entry_find rbt key ik = elim (Option-cases (rbt_find rbt key)) [
    | inr (leaf, e) ↦ rw (e, numeric_entry) (refl, ik, λ v ne. refl)
    | inl e ↦
        rw (e, numeric_entry)
          (refl, keys-add rbt key _ ∙ ik, λ v ne. find-add rbt key v new_value_leaf ik ∙ rw ne)
  ]

  -- A round adds one entry at its value, and leaves all others as they were.
  round-Holds :
      (pos : ℕ) (file object : Bytes) (key : ℕ) (rbt : Rbt ValueLeaf) (t : Tables)
      (ent : ℕ → List SearchRstEntry)
      → AreTables t
      → Holds t pos rbt ent
      → let r : Rbt ValueLeaf × Tables = numeric_round pos file object key rbt t in
        AreTables r.1
        × TablesExtend t r.1
        × Holds r.1 pos r.0 (λ v. ent v ++ (if key == v then entry file object ∷ [] else []))
  unfolding numeric_round
  round-Holds pos file object key rbt t ent h r =
      let (leaf_eq, keys, others) = entry_find rbt key r.int_tree in
      let leaf : ValueLeaf = (numeric_entry rbt key).0 in
      let out : ValueLeaf × Tables = push_pair pos file object leaf t in
      let old : ResolvesAll t pos (list_items leaf.file_obj_pair_list) (ent key) =
        rw (leaf_eq, pairs_of-leaf_at (rbt_find rbt key)) (r.at_value key) in
      let (good, ext, pushed) = push_pair-ResolvesAll pos file object leaf t (ent key) h old in
      (
        good,
        ext,
        record {
          int_tree = keys-add _ key _ ∙ keys;
          at_value = λ v. elim (Bool-cases (key == v)) [
            | inl same ↦
                rw (find-add (numeric_entry rbt key).1 key v _ keys, same)
                  (subst
                    (λ u.
                      ResolvesAll out.1 pos (list_items out.0.file_obj_pair_list)
                        (ent u ++ entry file object ∷ []))
                    ((==_iff key v).0 same) pushed)
            | inr other ↦
                rw
                  (
                    find-add (numeric_entry rbt key).1 key v _ keys,
                    other,
                    append-nil,
                    others v other,
                  )
                  (ResolvesAll-Extend t out.1 pos _ (ent v) ext (r.at_value v))
          ];
          no_empty = λ v. elim (Bool-cases (key == v)) [
            | inl same ↦ rw same (λ e. absurd (concat-ne-nil (entry file object) (ent v) e))
            | inr other ↦
                rw
                  (
                    find-add (numeric_entry rbt key).1 key v _ keys,
                    other,
                    append-nil,
                    others v other,
                  )
                  (r.no_empty v)
          ];
        },
      )

  pub Holds-Extend :
      (t t' : Tables) (pos : ℕ) (rbt : Rbt ValueLeaf) (ent : ℕ → List SearchRstEntry)
      → TablesExtend t t'
      → Holds t pos rbt ent
      → Holds t' pos rbt ent
  Holds-Extend t t' pos rbt ent ext h = record {
    int_tree = h.int_tree;
    at_value = λ v. ResolvesAll-Extend t t' pos _ (ent v) ext (h.at_value v);
    no_empty = h.no_empty;
  }

  pub Holds-eq :
      (t : Tables) (pos : ℕ) (rbt : Rbt ValueLeaf) (f g : ℕ → List SearchRstEntry)
      → ((v : ℕ) → f v ≡ g v)
      → Holds t pos rbt f
      → Holds t pos rbt g
  Holds-eq t pos rbt f g e h = record {
    int_tree = h.int_tree;
    at_value = λ v. subst (ResolvesAll t pos (pairs_of (rbt_find rbt v))) (e v) (h.at_value v);
    no_empty = λ v none_v. h.no_empty v (e v ∙ none_v);
  }

  -- The loop adds one entry for each occurrence of a value.
  pub loop-Holds :
      (vs : List ℕ) (pos : ℕ) (file object : Bytes) (rbt : Rbt ValueLeaf) (t : Tables)
      (ent : ℕ → List SearchRstEntry)
      → AreTables t
      → Holds t pos rbt ent
      → let r : Rbt ValueLeaf × Tables = numeric_loop pos file object vs rbt t in
        AreTables r.1
        × TablesExtend t r.1
        × Holds r.1 pos r.0 (λ v. ent v ++ occurrences vs (entry file object) v)
  unfolding numeric_loop
  loop-Holds [] pos file object rbt t ent h r =
      (h, TablesExtend-refl t, Holds-eq t pos rbt ent _ (λ v. sym (append-nil (ent v))) r)
  loop-Holds (u ∷ us) pos file object rbt t ent h r =
      let (h1, ext1, r1) = round-Holds pos file object u rbt t ent h r in
      let (h2, ext2, r2) = loop-Holds us pos file object _ _ _ h1 r1 in
      (h2, TablesExtend-trans ext1 ext2, Holds-eq _ pos _ _ _ (λ v. append_assoc (ent v) _ _) r2)

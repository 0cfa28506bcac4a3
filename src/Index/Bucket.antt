-- ===== src/Index/Bucket.antt =====
-- One bucket of the index against the log, before and after an integer attribute is indexed in it.
use miqs.Prelude.{
  ℕ, ◌%◌, ◌≡◌, refl, sym, ◌∙◌, Bool, true, false, none, some, List, [], ◌∷◌, ◌++◌, Bytes, str_eq,
  str_eq_iff, arith, inl, inr, append-nil, Bool-cases, Option-cases,
}
use mathlib.Core.Path.{subst}
use mathlib.Core.Option.{some-injective}
use miqs.Metadata.{at_integer}
use miqs.Hashing.{djb2_hash}
use miqs.Containers.{Containers, int_keys}
use miqs.Index.State.{ValueLeaf, AttrLeaf, Tables, int_values}
use miqs.Index.Values.{numeric_loop, indexing_numeric}
use miqs.Index.Build.{find_leaf, new_leaf, index_values}
use miqs.Index.Pairs.{entry, AreTables, TablesExtend}
use miqs.Index.Numeric.{occurrences, Holds, Holds-eq, Holds-Extend, loop-Holds}
use miqs.Index.Log.{
  Fact, matching, facts_of, matching-append, matching-facts_same, matching-facts_other,
}
use miqs.Query.{SearchRstEntry}

module _ ⦃c : Containers⦄ where
  open c use {Art, art_search, art_insert, search-insert, Rbt, rbt_create, keys-create, find-create}

  -- The leaf is one of an integer attribute, and stands for the entries given.
  pub record LeafHolds (t : Tables) (pos : ℕ) (leaf : AttrLeaf) (ent : ℕ → List SearchRstEntry)
      : Type 0 where
    pub tree : Rbt ValueLeaf
    pub has_tree : leaf.rbt ≡ some tree
    pub numeric : leaf.is_numeric ≡ 1
    pub not_float : leaf.is_float ≡ 0
    pub holds : Holds t pos tree ent

  -- The bucket at `pos` of `width` holds the facts of the names that hash to it.
  pub record BucketHolds (width : ℕ) (art : Art AttrLeaf) (t : Tables) (pos : ℕ) (log : List Fact)
      : Type 0 where
    pub tables : AreTables t
    pub at_name :
        (name : Bytes) (leaf : AttrLeaf)
        → djb2_hash name % width ≡ pos
        → art_search art name ≡ some leaf
        → LeafHolds t pos leaf (λ v. matching name v log)
    pub at_no_name :
        (name : Bytes)
        → djb2_hash name % width ≡ pos
        → art_search art name ≡ none
        → (v : ℕ) → matching name v log ≡ []

  new-LeafHolds :
      (t : Tables) (pos : ℕ) (ent : ℕ → List SearchRstEntry)
      → ((v : ℕ) → ent v ≡ [])
      → LeafHolds t pos (new_leaf at_integer).0 ent
  unfolding new_leaf
  new-LeafHolds t pos ent e = record {
    tree = rbt_create int_keys;
    has_tree = refl;
    numeric = refl;
    not_float = refl;
    holds = record {
      int_tree = keys-create int_keys;
      at_value = λ v. rw (find-create int_keys v, e v) tt;
      no_empty = λ v _. find-create int_keys v;
    };
  }

  -- The leaf that an attribute goes to, in a tree that holds it.
  find_leaf-LeafHolds :
      (width : ℕ) (art : Art AttrLeaf) (t : Tables) (pos : ℕ) (log : List Fact) (name : Bytes)
      → BucketHolds width art t pos log
      → djb2_hash name % width ≡ pos
      → let r : AttrLeaf × Art AttrLeaf × Bool = find_leaf art name at_integer in
        LeafHolds t pos r.0 (λ v. matching name v log)
        × ((n : Bytes) → str_eq name n ≡ false → art_search r.1 n ≡ art_search art n)
        × (r.2 ≡ true)
  unfolding find_leaf
  find_leaf-LeafHolds width art t pos log name h e = elim (Option-cases (art_search art name)) [
    | inr (leaf, found) ↦ rw (found, find_leaf) (h.at_name name leaf e found, λ n ne. refl, refl)
    | inl new ↦
        rw (new, find_leaf)
          (
            new-LeafHolds t pos _ (h.at_no_name name e new),
            (λ n ne. search-insert art name n _ ∙ rw ne),
            refl,
          )
  ]

  index_int :
      (pos : ℕ) (vs : List ℕ) (file object : Bytes) (leaf : AttrLeaf) (t : Tables)
      (tree : Rbt ValueLeaf)
      → leaf.rbt ≡ some tree
      → leaf.is_float ≡ 0
      → index_values pos (int_values vs) (some file) (some object) leaf t
        ≡ some (
          record leaf { rbt = some (numeric_loop pos file object vs tree t).0 },
          (numeric_loop pos file object vs tree t).1,
        )
  unfolding index_values indexing_numeric
  index_int pos [] file object leaf t tree h f = unfold numeric_loop in ground arith
  index_int pos (v ∷ vs) file object leaf t tree h f = ground arith

  matching-facts :
      (name n : Bytes) (v : ℕ) (vs : List ℕ) (file object : Bytes) (log : List Fact)
      → str_eq name n ≡ true
      → matching n v log ++ occurrences vs (entry file object) v
        ≡ matching n v (log ++ facts_of name vs file object)
  matching-facts name n v vs file object log h =
      rw (matching-append n v log _, matching-facts_same name v n vs file object h)

  pub matching-facts_ne :
      (name n : Bytes) (v : ℕ) (vs : List ℕ) (file object : Bytes) (log : List Fact)
      → str_eq name n ≡ false
      → matching n v log ≡ matching n v (log ++ facts_of name vs file object)
  matching-facts_ne name n v vs file object log h =
      rw (matching-append n v log _, matching-facts_other name v n vs file object h, append-nil)

  pub LeafHolds-eq :
      (t t' : Tables) (pos : ℕ) (leaf : AttrLeaf) (f g : ℕ → List SearchRstEntry)
      → TablesExtend t t'
      → ((v : ℕ) → f v ≡ g v)
      → LeafHolds t pos leaf f
      → LeafHolds t' pos leaf g
  LeafHolds-eq t t' pos leaf f g ext e h = record {
    tree = h.tree;
    has_tree = h.has_tree;
    numeric = h.numeric;
    not_float = h.not_float;
    holds = Holds-eq t' pos h.tree f g e (Holds-Extend t t' pos h.tree f ext h.holds);
  }

  module _ (width : ℕ) (art art1 : Art AttrLeaf) (t t' : Tables) (pos : ℕ) (log : List Fact)
      (name : Bytes) (vs : List ℕ) (file object : Bytes) (leaf' : AttrLeaf)
      (h : BucketHolds width art t pos log)
      (others : (n : Bytes) → str_eq name n ≡ false → art_search art1 n ≡ art_search art n) where
    abbrev log' : List Fact
    log' = log ++ facts_of name vs file object

    found_same :
        (n : Bytes) → str_eq name n ≡ true → art_search (art_insert art1 name leaf') n ≡ some leaf'
    found_same n same = search-insert art1 name n leaf' ∙ rw same

    found_other :
        (n : Bytes)
        → str_eq name n ≡ false
        → art_search (art_insert art1 name leaf') n ≡ art_search art n
    found_other n other = search-insert art1 name n leaf' ∙ rw other (others n other)

    insert-BucketHolds :
        AreTables t'
        → TablesExtend t t'
        → LeafHolds t' pos leaf' (λ v. matching name v log')
        → BucketHolds width (art_insert art1 name leaf') t' pos log'
    insert-BucketHolds good ext new = record {
      tables = good;
      at_name = λ n leaf en found. elim (Bool-cases (str_eq name n)) [
        | inl same ↦
            subst (λ l. LeafHolds t' pos l (λ v. matching n v log'))
              (some-injective leaf' leaf (sym (found_same n same) ∙ found))
              (subst (λ m. LeafHolds t' pos leaf' (λ v. matching m v log'))
                ((str_eq_iff name n).0 same) new)
        | inr other ↦
            LeafHolds-eq t t' pos leaf _ _ ext
              (λ v. matching-facts_ne name n v vs file object log other)
              (h.at_name n leaf en (sym (found_other n other) ∙ found))
      ];
      at_no_name = λ n en missing v. elim (Bool-cases (str_eq name n)) [
        | inl same ↦ cc (found_same n same)
        | inr other ↦
            sym (matching-facts_ne name n v vs file object log other)
            ∙ h.at_no_name n en (sym (found_other n other) ∙ missing) v
      ];
    }

  -- Indexing an integer attribute in its bucket succeeds, and the bucket then holds the facts of the
  -- attribute behind the others.
  pub index-BucketHolds :
      (width : ℕ) (art : Art AttrLeaf) (t : Tables) (pos : ℕ) (log : List Fact) (name : Bytes)
      (vs : List ℕ) (file object : Bytes)
      → BucketHolds width art t pos log
      → djb2_hash name % width ≡ pos
      → let r : AttrLeaf × Art AttrLeaf × Bool = find_leaf art name at_integer in
        (leaf' : AttrLeaf) × (t' : Tables) × (index_values pos
            (int_values vs)
            (some file)
            (some object)
            r.0
            t
          ≡ some (leaf', t'))
        × (r.2 ≡ true)
        × BucketHolds width (art_insert r.1 name leaf') t' pos (log ++ facts_of name vs file object)
  index-BucketHolds width art t pos log name vs file object h e =
      let (lh, others, held) = find_leaf-LeafHolds width art t pos log name h e in
      let (good, ext, after) = loop-Holds vs pos file object lh.tree t _ h.tables lh.holds in
      (
        _,
        _,
        index_int pos vs file object _ t lh.tree lh.has_tree lh.not_float,
        held,
        insert-BucketHolds width art _ t _ pos log name vs file object _ h others good ext (record {
          tree = _;
          has_tree = refl;
          numeric = lh.numeric;
          not_float = lh.not_float;
          holds =
              Holds-eq _ pos _ _ _
                (λ v. matching-facts name name v vs file object log ((str_eq_iff name name).1 refl))
                after;
        }),
      )

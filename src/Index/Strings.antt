-- ===== src/Index/Strings.antt =====
-- What becomes of an attribute with string values.
use mathlib.Core.Path.{subst}
use miqs.Containers.{Containers, TaggedValue}
use miqs.Hashing.{djb2_hash}
use miqs.Index.Bucket.{BucketHolds, LeafHolds-eq}
use miqs.Index.Build.{find_leaf, new_leaf, index_values, bucket_of, create_in_mem_index_for_attr}
use miqs.Index.Log.{Fact, facts_of}
use miqs.Index.Pairs.{AreTables, TablesExtend, TablesExtend-refl, TablesExtend-trans}
use miqs.Index.Paths.{insert_tagged_value-HasTag}
use miqs.Index.Refines.{Represents, tables, stored, stored-Represents, bucket_of-pos}
use miqs.Index.State.{ValueLeaf, AttrLeaf, Tables, Anchor, Attribute, string_values}
use miqs.Index.Values.{push_pair, string_round, string_loop, indexing_string}
use miqs.Metadata.{at_string}
use miqs.Prelude.{
  ℕ, ◌%◌, ◌<◌, ◌≡◌, refl, ◌∙◌, sym, false, none, some, List, [], ◌∷◌, Bytes, get_elem?, set,
  get_elem?-lt, get_elem?-set_self, append-nil, arith,
}
use miqs.Query.{atv_string, exact_metadata_search, attribute_value_search, search_in_leaf}
use native.Mathlib.Nat.{mod-lt}

-- An attribute with string values, on its way from an object of a file.
abbrev pub string_attribute : Bytes → List Bytes → Bytes → Bytes → Attribute
string_attribute name vs file object = record {
  attr_name = name;
  attribute_value = string_values vs;
  file_path_str = some file;
  obj_path_str = some object;
}

module _ ⦃c : Containers⦄ where
  open c use {Lst, Art, art_search, art_tree_init}

  push_pair-Tables :
      (pos : ℕ) (file object : Bytes) (leaf : ValueLeaf) (t : Tables)
      → AreTables t
      → AreTables (push_pair pos file object leaf t).1
        × TablesExtend t (push_pair pos file object leaf t).1
  unfolding push_pair
  push_pair-Tables pos file object leaf t h =
      let (ft, fe, fh) = insert_tagged_value-HasTag t.files file h.files_table in
      let (ot, oe, oh) = insert_tagged_value-HasTag t.objects object h.objects_table in
      (
        record { files_table = ft; objects_table = ot },
        record { files_kept = fe; objects_kept = oe },
      )

  string_loop-Tables :
      (pos : ℕ) (file object : Bytes) (vs : List Bytes) (art : Art ValueLeaf) (t : Tables)
      → AreTables t
      → AreTables (string_loop pos file object vs art t).1
        × TablesExtend t (string_loop pos file object vs art t).1
  unfolding string_loop string_round
  string_loop-Tables pos file object [] art t h = (h, TablesExtend-refl t)
  string_loop-Tables pos file object (v ∷ vs) art t h =
      let (good, ext) = push_pair-Tables pos file object _ t h in
      let (good', ext') = string_loop-Tables pos file object vs _ _ good in
      (good', TablesExtend-trans ext ext')

  index_string :
      (pos : ℕ) (file object : Bytes) (vs : List Bytes) (leaf : AttrLeaf) (t : Tables)
      → AreTables t
      → (leaf' : AttrLeaf) × (t' : Tables) × (index_values pos
            (string_values vs)
            (some file)
            (some object)
            leaf
            t
          ≡ some (leaf', t'))
        × AreTables t'
        × TablesExtend t t'
  unfolding index_values indexing_string
  index_string pos file object [] leaf t h = (_, t, refl, h, TablesExtend-refl t)
  index_string pos file object (v ∷ vs) leaf t h =
      let (good, ext) = string_loop-Tables pos file object (v ∷ vs) _ t h in (_, _, refl, good, ext)

  -- A bucket whose tables have grown.
  extend-BucketHolds :
      (width : ℕ) (art : Art AttrLeaf) (t t' : Tables) (pos : ℕ) (log : List Fact)
      → AreTables t'
      → TablesExtend t t'
      → BucketHolds width art t pos log
      → BucketHolds width art t' pos log
  extend-BucketHolds width art t t' pos log good ext h = record {
    tables = good;
    at_name = λ name leaf e found.
        LeafHolds-eq t t' pos leaf _ _ ext (λ v. refl) (h.at_name name leaf e found);
    at_no_name = h.at_no_name;
  }

  find_leaf_new :
      (art : Art AttrLeaf) (name : Bytes)
      → art_search art name ≡ none
      → find_leaf art name at_string ≡ ((new_leaf at_string).0, art, false)
  unfolding find_leaf new_leaf
  find_leaf_new art name missing = rw (missing, find_leaf)

  create_eq :
      (a : Anchor) (duration : ℕ) (name : Bytes) (vs : List Bytes) (file object : Bytes) (pos : ℕ)
      (art : Art AttrLeaf) (f o : Lst TaggedValue) (leaf' : AttrLeaf) (t' : Tables)
      → bucket_of name a.parallelism ≡ some pos
      → get_elem? a.root_art_array pos ≡ some art
      → get_elem? a.file_paths_list pos ≡ some f
      → get_elem? a.object_paths_list pos ≡ some o
      → art_search art name ≡ none
      → index_values pos
          (string_values vs)
          (some file)
          (some object)
          (new_leaf at_string).0
          (tables f o)
        ≡ some (leaf', t')
      → create_in_mem_index_for_attr duration a (string_attribute name vs file object)
        ≡ some (stored a duration pos art t')
  unfolding create_in_mem_index_for_attr
  create_eq a duration name vs file object pos art f o leaf' t' eb ea ef eo missing ei =
      rw (eb, ea, ef, eo, find_leaf_new art name missing, ei)

  search_nothing :
      (a : Anchor) (name s : Bytes) (pos : ℕ) (art : Art AttrLeaf)
      → bucket_of name a.parallelism ≡ some pos
      → get_elem? a.root_art_array pos ≡ some art
      → art_search art name ≡ none
      → exact_metadata_search a name (atv_string s) ≡ none
  unfolding exact_metadata_search attribute_value_search search_in_leaf
  search_nothing a name s pos art eb ea missing = rw (eb, ea, missing) refl

  -- The index has no leaf under the name.
  abbrev pub IsNewName : Anchor → Bytes → Type 0
  IsNewName a name =
      (art : Art AttrLeaf)
      → get_elem? a.root_art_array (djb2_hash name % a.parallelism) ≡ some art
      → art_search art name ≡ none

  -- Indexing an attribute of string values under a name that is new to an index that stands for a log
  -- succeeds, but the leaf is not put into the index: it stands for the same log as before, the name
  -- is still new, and the search for any string under the name faults.
  pub create-IsNewName :
      (a : Anchor) (log : List Fact) (duration : ℕ) (name : Bytes) (vs : List Bytes)
      (file object : Bytes)
      → Represents a log
      → IsNewName a name
      → (a' : Anchor) × (create_in_mem_index_for_attr duration a
            (string_attribute name vs file object)
          ≡ some a')
        × Represents a' log
        × IsNewName a' name
        × ((s : Bytes) → exact_metadata_search a' name (atv_string s) ≡ none)
  unfolding facts_of
  create-IsNewName a log duration name vs file object r new =
      let pos : ℕ = djb2_hash name % a.parallelism in
      let below : pos < a.parallelism = mod-lt (djb2_hash name) r.positive in
      let (art, ea) = get_elem?-lt a.root_art_array pos (omega (arith, r.arts)) in
      let (f, ef) = get_elem?-lt a.file_paths_list pos (omega (arith, r.files)) in
      let (o, eo) = get_elem?-lt a.object_paths_list pos (omega (arith, r.objects)) in
      let bucket : BucketHolds a.parallelism art (tables f o) pos log =
        r.buckets pos art f o ea ef eo in
      let (leaf', t', indexed, good, ext) =
        index_string pos file object vs (new_leaf at_string).0 (tables f o) bucket.tables in
      let after : BucketHolds a.parallelism art t' pos log =
        extend-BucketHolds a.parallelism art (tables f o) t' pos log good ext bucket in
      let kept : get_elem? (set a.root_art_array pos art) pos ≡ some art =
        get_elem?-set_self a.root_art_array pos art (omega (arith, r.arts)) in
      let here = bucket_of-pos name a.parallelism r.positive in
      (
        stored a duration pos art t',
        create_eq a duration name vs file object pos art f o leaf' t' here ea ef eo (new art ea)
            indexed,
        subst (Represents (stored a duration pos art t')) (append-nil log) (
            stored-Represents a log duration name [] file object art t' r
              (subst (BucketHolds a.parallelism art t' pos) (sym (append-nil log)) after)),
        λ x e. new x (ea ∙ (sym kept ∙ e)),
        λ s. search_nothing (stored a duration pos art t') name s pos art here kept (new art ea),
      )

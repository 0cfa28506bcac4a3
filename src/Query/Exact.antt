-- ===== src/Query/Exact.antt =====
-- The exact search for an integer value on an index that stands for a log of facts.
use mathlib.Core.Path.{subst}
use miqs.Containers.{Containers, TaggedValue, int_keys}
use miqs.Hashing.{djb2_hash}
use miqs.Index.Bucket.{BucketHolds, LeafHolds}
use miqs.Index.Build.{bucket_of}
use miqs.Index.Log.{Fact, matching}
use miqs.Index.Numeric.{pairs_of}
use miqs.Index.Pairs.{Resolves, ResolvesAll}
use miqs.Index.Paths.{HasTag}
use miqs.Index.Refines.{Represents, tables, bucket_of-pos}
use miqs.Index.State.{FileObjPair, ValueLeaf, AttrLeaf, Tables, Anchor}
use miqs.Prelude.{
  suc, ℕ, ◌%◌, ◌<◌, ◌≡◌, ◌≢◌, refl, ap, ◌∙◌, Option, none, some, List, [], ◌∷◌, Bytes, length,
  get_elem?, get_elem?-lt, arith, Option-cases, inl, inr,
}
use miqs.Query.{
  SearchRstEntry, atv_integer, find_number, search_leaf, search_in_leaf, attribute_value_search,
  path_at, collect_result_from_list, collect_results, exact_metadata_search,
}
use native.Mathlib.Nat.{mod-lt}

module _ ⦃c : Containers⦄ where
  open c use {
    Lst, list_items, list_count, list_pick, pick-items, count-items, Art, art_search, Rbt, rbt_find,
    rbt_keys,
  }

  path_at-HasTag :
      (lists : List (Lst TaggedValue)) (pos i : ℕ) (l : Lst TaggedValue) (tag : Bytes)
      → get_elem? lists pos ≡ some l
      → HasTag (list_items l) i tag
      → path_at lists pos i ≡ some tag
  unfolding path_at
  path_at-HasTag lists pos i l tag e (tv, at, eq) = rw (e, pick-items l i, at, eq)

  collect-Resolves :
      (a : Anchor) (pos : ℕ) (f o : Lst TaggedValue) (p : FileObjPair) (e : SearchRstEntry)
      → get_elem? a.file_paths_list pos ≡ some f
      → get_elem? a.object_paths_list pos ≡ some o
      → Resolves (tables f o) pos p e
      → collect_result_from_list a p ≡ some e
  unfolding collect_result_from_list
  collect-Resolves a pos f o p e ef eo r =
      let file : path_at a.file_paths_list p.parallel_index_pos p.file_list_pos ≡ some e.file_path =
        ap (λ k. path_at a.file_paths_list k p.file_list_pos) r.at_bucket
        ∙ path_at-HasTag a.file_paths_list pos p.file_list_pos f e.file_path ef r.at_file in
      let object : path_at a.object_paths_list p.parallel_index_pos p.obj_list_pos
          ≡ some e.obj_path =
        ap (λ k. path_at a.object_paths_list k p.obj_list_pos) r.at_bucket
        ∙ path_at-HasTag a.object_paths_list pos p.obj_list_pos o e.obj_path eo r.at_object in
      rw (file, object)

  -- The pairs of a list are collected as the entries that they stand for.
  collect-ResolvesAll :
      (a : Anchor) (pos : ℕ) (f o : Lst TaggedValue) (ps : List FileObjPair)
      (es : List SearchRstEntry)
      → get_elem? a.file_paths_list pos ≡ some f
      → get_elem? a.object_paths_list pos ≡ some o
      → ResolvesAll (tables f o) pos ps es
      → collect_results a ps ≡ some es
  unfolding collect_results
  collect-ResolvesAll a pos f o [] [] ef eo r = refl
  collect-ResolvesAll a pos f o [] (e ∷ es) ef eo r = elim r [ ]
  collect-ResolvesAll a pos f o (p ∷ ps) [] ef eo r = elim r [ ]
  collect-ResolvesAll a pos f o (p ∷ ps) (e ∷ es) ef eo (r, rs) =
      rw (collect-Resolves a pos f o p e ef eo r, collect-ResolvesAll a pos f o ps es ef eo rs)

  length-ResolvesAll :
      (t : Tables) (pos : ℕ) (ps : List FileObjPair) (es : List SearchRstEntry)
      → ResolvesAll t pos ps es
      → length ps ≡ length es
  length-ResolvesAll t pos [] [] r = refl
  length-ResolvesAll t pos [] (e ∷ es) r = elim r [ ]
  length-ResolvesAll t pos (p ∷ ps) [] r = elim r [ ]
  length-ResolvesAll t pos (p ∷ ps) (e ∷ es) (r, rs) = ap suc (length-ResolvesAll t pos ps es rs)

  pub search_eq :
      (a : Anchor) (pos : ℕ) (art : Art AttrLeaf) (name : Bytes) (v : ℕ)
      → bucket_of name a.parallelism ≡ some pos
      → get_elem? a.root_art_array pos ≡ some art
      → attribute_value_search a name (atv_integer v)
        ≡ search_in_leaf (art_search art name) (atv_integer v)
  unfolding attribute_value_search
  search_eq a pos art name v eb ea = rw (eb, ea)

  search_in_some :
      (leaf : AttrLeaf) (tree : Rbt ValueLeaf) (v : ℕ)
      → leaf.rbt ≡ some tree
      → rbt_keys tree ≡ int_keys
      → search_in_leaf (some leaf) (atv_integer v) ≡ some (rbt_find tree v)
  unfolding search_in_leaf search_leaf find_number
  search_in_some leaf tree v e k = rw (e, k)

  search_in_none : (v : ℕ) → search_in_leaf none (atv_integer v) ≡ some none
  unfolding search_in_leaf
  search_in_none v = refl

  -- What a search for an integer value finds: the leaf of the value, whose pairs stand for the
  -- matching facts.
  pub record SearchFound (a : Anchor) (log : List Fact) (name : Bytes) (v : ℕ) : Type 0 where
    pub f : Lst TaggedValue
    pub o : Lst TaggedValue
    pub found : Option ValueLeaf
    files : get_elem? a.file_paths_list (djb2_hash name % a.parallelism) ≡ some f
    objects : get_elem? a.object_paths_list (djb2_hash name % a.parallelism) ≡ some o
    pub search : attribute_value_search a name (atv_integer v) ≡ some found
    pub pairs :
        ResolvesAll
          (tables f o)
          (djb2_hash name % a.parallelism)
          (pairs_of found)
          (matching name v log)
    missing : matching name v log ≡ [] → found ≡ none

  pub attribute_value_search-SearchFound :
      (a : Anchor) (log : List Fact) (name : Bytes) (v : ℕ)
      → Represents a log
      → SearchFound a log name v
  attribute_value_search-SearchFound a log name v r =
      let pos : ℕ = djb2_hash name % a.parallelism in
      let below : pos < a.parallelism = mod-lt (djb2_hash name) r.positive in
      let (art, ea) = get_elem?-lt a.root_art_array pos (omega (arith, r.arts)) in
      let (f, ef) = get_elem?-lt a.file_paths_list pos (omega (arith, r.files)) in
      let (o, eo) = get_elem?-lt a.object_paths_list pos (omega (arith, r.objects)) in
      let b : BucketHolds a.parallelism art (tables f o) pos log = r.buckets pos art f o ea ef eo in
      let at_tree = search_eq a pos art name v (bucket_of-pos name _ r.positive) ea in
      elim (Option-cases (art_search art name)) [
        | inl e ↦
            let nothing : matching name v log ≡ [] = b.at_no_name name refl e v in
            record {
              f = f;
              o = o;
              found = none;
              files = ef;
              objects = eo;
              search = at_tree ∙ ap (λ l. search_in_leaf l (atv_integer v)) e ∙ search_in_none v;
              pairs = rw nothing tt;
              missing = λ _. refl;
            }
        | inr (leaf, e) ↦
            let lh : LeafHolds (tables f o) pos leaf (λ u. matching name u log) =
              b.at_name name leaf refl e in
            record {
              f = f;
              o = o;
              found = rbt_find lh.tree v;
              files = ef;
              objects = eo;
              search =
                  at_tree
                  ∙ ap (λ l. search_in_leaf l (atv_integer v)) e
                  ∙ search_in_some leaf lh.tree v lh.has_tree lh.holds.int_tree;
              pairs = lh.holds.at_value v;
              missing = lh.holds.no_empty v;
            }
      ]

  no_pairs :
      (t : Tables) (pos : ℕ) (es : List SearchRstEntry) {found : Option ValueLeaf}
      → found ≡ none
      → ResolvesAll t pos (pairs_of found) es
      → es ≡ []
  no_pairs t pos [] e r = refl
  no_pairs t pos (x ∷ xs) e r = elim (subst (λ l. ResolvesAll t pos (pairs_of l) (x ∷ xs)) e r) [ ]

  found_pairs :
      (a : Anchor) (log : List Fact) (name : Bytes) (v : ℕ) {leaf : ValueLeaf}
      → (s : SearchFound a log name v) → s.found ≡ some leaf
      → (collect_results a (list_items leaf.file_obj_pair_list) ≡ some (matching name v log))
        × (list_count leaf.file_obj_pair_list ≡ length (matching name v log))
  found_pairs a log name v {leaf} s e =
      let pos : ℕ = djb2_hash name % a.parallelism in
      let r : ResolvesAll (tables s.f s.o) pos (list_items leaf.file_obj_pair_list)
          (matching name v log) =
        subst (λ l. ResolvesAll (tables s.f s.o) pos (pairs_of l) (matching name v log)) e
          s.pairs in
      (
        collect-ResolvesAll a pos s.f s.o _ _ s.files s.objects r,
        count-items leaf.file_obj_pair_list ∙ length-ResolvesAll (tables s.f s.o) pos _ _ r,
      )

  -- On an index that stands for a log, where the log has a fact with the name and the integer, the
  -- search returns the entries of these facts in the order they were indexed, and their number.
  pub search-Represents :
      (a : Anchor) (log : List Fact) (name : Bytes) (v : ℕ)
      → Represents a log
      → matching name v log ≢ []
      → exact_metadata_search a name (atv_integer v)
        ≡ some (record { size = length (matching name v log); rst_arr = matching name v log })
  unfolding exact_metadata_search
  search-Represents a log name v r some_fact =
      let s = attribute_value_search-SearchFound a log name v r in
      elim (Option-cases s.found) [
        | inl e ↦ absurd (some_fact (no_pairs (tables s.f s.o) _ _ e s.pairs))
        | inr (leaf, e) ↦
            let (entries, size) = found_pairs a log name v s e in rw (s.search, e, entries, size)
      ]

  -- On an index that stands for a log, where no fact of the log has the name and the integer, the
  -- search reads through the null leaf, a fault.
  pub search_miss :
      (a : Anchor) (log : List Fact) (name : Bytes) (v : ℕ)
      → Represents a log
      → matching name v log ≡ []
      → exact_metadata_search a name (atv_integer v) ≡ none
  unfolding exact_metadata_search
  search_miss a log name v r no_fact =
      let s = attribute_value_search-SearchFound a log name v r in rw (s.search, s.missing no_fact)

-- ===== src/Query/Sharing/Whole.antt =====
-- What a search reads bit by bit is what it would read at once, while its bucket stays the same.
use mathlib.Core.Path.{subst}
use mathlib.Core.Option.{some-injective}
use mathlib.Core.List.{Memᴰ}
use miqs.Containers.{Containers}
use miqs.Prelude.{
  ℕ, ◌%◌, ◌≡◌, refl, sym, ap, ◌∙◌, some, List, [], ◌∷◌, All, get_elem?, bind-eq-some,
}
use miqs.Index.State.{FileObjPair, ValueLeaf, Anchor, Tables}
use miqs.Hashing.{djb2_hash}
use miqs.Index.Buckets.{Bucket, read_bucket}
use miqs.Index.Log.{Fact}
use miqs.Index.Numeric.{pairs_of}
use miqs.Index.Pairs.{ResolvesAll}
use miqs.Index.Refines.{Represents, bucket_of-pos}
use miqs.Query.{
  atv_integer, SearchRstEntry, PowerSearchRst, path_at, collect_result_from_list, collect_results,
  exact_metadata_search, attribute_value_search,
}
use miqs.Query.Exact.{attribute_value_search-SearchFound, search_eq}
use miqs.Query.Sharing.{Search, ReadPairs, ReadAnswer}
use miqs.Query.Sharing.Kept.{IsUnchanged}

All-Mem {ℓ κ} : {A : Type ℓ} (P : A → Type κ) (xs : List A) {x : A} → All P xs → Memᴰ x xs → P x
All-Mem P [] h m = elim m [ ]
All-Mem P (y ∷ xs) h (Memᴰ.head e) = subst P (sym e) h.0
All-Mem P (y ∷ xs) h (Memᴰ.tail m) = All-Mem P xs h.1 m

abbrev pub IsIntSearch : Search → Type 0
IsIntSearch search = (v : ℕ) × (search.attribute_value ≡ atv_integer v)

abbrev AtBucket : ℕ → List FileObjPair → Type 0
AtBucket pos = All (λ p. p.parallel_index_pos ≡ pos)

module _ ⦃c : Containers⦄ where
  open c use {Lst, Art, art_search, list_items, list_count}

  module _ (pos : ℕ) (b : Bucket) (search : Search) where
    bucket_art :
        (x : Anchor) → IsUnchanged pos b search x → get_elem? x.root_art_array pos ≡ some b.art
    unfolding read_bucket
    bucket_art x h =
        let (art, ea, e1) = bind-eq-some (get_elem? x.root_art_array pos) _ h.read in
        let (f, ef, e2) = bind-eq-some (get_elem? x.file_paths_list pos) _ e1 in
        let (o, eo, e3) = bind-eq-some (get_elem? x.object_paths_list pos) _ e2 in
        ea ∙ ap some (ap (λ b. b.art) (some-injective _ b e3))

    bucket_files :
        (x : Anchor)
        → IsUnchanged pos b search x
        → get_elem? x.file_paths_list pos ≡ some b.tables.files
    unfolding read_bucket
    bucket_files x h =
        let (art, ea, e1) = bind-eq-some (get_elem? x.root_art_array pos) _ h.read in
        let (f, ef, e2) = bind-eq-some (get_elem? x.file_paths_list pos) _ e1 in
        let (o, eo, e3) = bind-eq-some (get_elem? x.object_paths_list pos) _ e2 in
        ef ∙ ap some (ap (λ b. b.tables.files) (some-injective _ b e3))

    bucket_objects :
        (x : Anchor)
        → IsUnchanged pos b search x
        → get_elem? x.object_paths_list pos ≡ some b.tables.objects
    unfolding read_bucket
    bucket_objects x h =
        let (art, ea, e1) = bind-eq-some (get_elem? x.root_art_array pos) _ h.read in
        let (f, ef, e2) = bind-eq-some (get_elem? x.file_paths_list pos) _ e1 in
        let (o, eo, e3) = bind-eq-some (get_elem? x.object_paths_list pos) _ e2 in
        eo ∙ ap some (ap (λ b. b.tables.objects) (some-injective _ b e3))

    module _ (x y : Anchor) (hx : IsUnchanged pos b search x)
        (hy : IsUnchanged pos b search y) where
      -- Two indices with the same bucket find the same leaf.
      same_leaf :
          (v : ℕ)
          → attribute_value_search x search.attr_name (atv_integer v)
            ≡ attribute_value_search y search.attr_name (atv_integer v)
      same_leaf v =
          search_eq x pos b.art search.attr_name v hx.place (bucket_art x hx)
          ∙ sym (search_eq y pos b.art search.attr_name v hy.place (bucket_art y hy))

      -- And they have the same paths for a pair of the bucket.
      same_paths :
          (p : FileObjPair)
          → p.parallel_index_pos ≡ pos
          → collect_result_from_list x p ≡ collect_result_from_list y p
      unfolding collect_result_from_list path_at
      same_paths p e =
          rw (e, bucket_files x hx, bucket_objects x hx, bucket_files y hy, bucket_objects y hy)

    module _ (moments : List Anchor) (y : Anchor) (hs : All (IsUnchanged pos b search) moments)
        (hy : IsUnchanged pos b search y) where
      collect-ReadPairs :
          (ps : List FileObjPair) (es : List SearchRstEntry)
          → AtBucket pos ps
          → ReadPairs moments ps es
          → collect_results y ps ≡ some es
      unfolding collect_results
      collect-ReadPairs [] [] at r = refl
      collect-ReadPairs [] (e ∷ es) at r = elim r [ ]
      collect-ReadPairs (p ∷ ps) [] at r = elim r [ ]
      collect-ReadPairs (p ∷ ps) (e ∷ es) (q, at) ((x, m, read), more) =
          let hx = All-Mem (IsUnchanged pos b search) moments hs m in
          rw (sym (same_paths x y hx hy p q) ∙ read, collect-ReadPairs ps es at more)

  ResolvesAll-AtBucket :
      (t : Tables) (pos : ℕ) (ps : List FileObjPair) (es : List SearchRstEntry)
      → ResolvesAll t pos ps es
      → AtBucket pos ps
  ResolvesAll-AtBucket t pos [] es r = tt
  ResolvesAll-AtBucket t pos (p ∷ ps) [] r = elim r [ ]
  ResolvesAll-AtBucket t pos (p ∷ ps) (e ∷ es) (r, rs) =
      (r.at_bucket, ResolvesAll-AtBucket t pos ps es rs)

  -- The pairs that a search finds are pairs of its bucket.
  found-AtBucket :
      (y : Anchor) (log : List Fact) (pos : ℕ) (b : Bucket) (search : Search) (v : ℕ)
      (leaf : ValueLeaf)
      → Represents y log
      → IsUnchanged pos b search y
      → attribute_value_search y search.attr_name (atv_integer v) ≡ some (some leaf)
      → AtBucket pos (list_items leaf.file_obj_pair_list)
  found-AtBucket y log pos b search v leaf r hy found =
      let f = attribute_value_search-SearchFound y log search.attr_name v r in
      let here =
        some-injective _ pos
          (sym (bucket_of-pos search.attr_name y.parallelism r.positive) ∙ hy.place) in
      let hashed : ℕ = djb2_hash search.attr_name % y.parallelism in
      let same = some-injective f.found (some leaf) (sym f.search ∙ found) in
      subst (λ q. AtBucket q (list_items leaf.file_obj_pair_list)) here
        (subst (λ l. AtBucket hashed (pairs_of l)) same (ResolvesAll-AtBucket _ hashed _ _ f.pairs))

  -- What a search reads at several moments is what it would read at one, if its bucket is the same.
  pub read-whole :
      (y : Anchor) (log : List Fact) (pos : ℕ) (b : Bucket) (moments : List Anchor)
      (search : Search) (rst : PowerSearchRst)
      → IsIntSearch search
      → Represents y log
      → IsUnchanged pos b search y
      → All (IsUnchanged pos b search) moments
      → ReadAnswer moments search rst
      → exact_metadata_search y search.attr_name search.attribute_value ≡ some rst
  unfolding exact_metadata_search
  read-whole y log pos b moments search rst (v, int) r hy hs read =
      let hx = All-Mem (IsUnchanged pos b search) moments hs read.at_moment in
      let x : Anchor = read.moment in
      let was : attribute_value_search x search.attr_name (atv_integer v) ≡ some (some read.leaf) =
        ap (attribute_value_search x search.attr_name) (sym int) ∙ read.found in
      let found : attribute_value_search y search.attr_name (atv_integer v)
          ≡ some (some read.leaf) =
        sym (same_leaf pos b search x y hx hy v) ∙ was in
      let at = found-AtBucket y log pos b search v read.leaf r hy found in
      let collected = collect-ReadPairs pos b search moments y hs hy _ rst.rst_arr at read.pairs in
      rw (int, found, collected)
        (ap (λ n. some (record { size = n; rst_arr = rst.rst_arr })) (sym read.size))

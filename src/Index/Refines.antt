-- ===== src/Index/Refines.antt =====
-- The whole index against the log.
use mathlib.Core.Path.{subst, subst₃}
use miqs.Containers.{Containers, TaggedValue}
use miqs.Hashing.{djb2_hash}
use miqs.Index.Bucket.{BucketHolds, index-BucketHolds, matching-facts_ne, LeafHolds-eq}
use miqs.Index.Build.{
  find_leaf, index_values, bucket_of, create_in_mem_index_for_attr, init_in_mem_index,
}
use miqs.Index.Log.{Fact, matching, facts_of}
use miqs.Index.Pairs.{TablesExtend-refl}
use miqs.Index.State.{AttrLeaf, Tables, Anchor, Attribute, int_values}
use miqs.Metadata.{at_integer}
use miqs.Prelude.{
  ℕ, ◌+◌, ◌%◌, ◌<◌, ◌≡◌, ◌≢◌, refl, sym, ap, ◌∙◌, true, false, some, List, [], ◌++◌, Bytes, length,
  get_elem?, set, get_elem?-set_ne, get_elem?-set_eq, ==_iff, length-set, length-replicate,
  get_elem?-lt, get_elem?-replicate, ◌==◌, str_eq, str_eq_iff, arith, inl, inr, Bool-cases,
}
use native.Mathlib.Nat.{mod-lt}

-- An attribute with integer values, on its way from an object of a file.
abbrev pub int_attribute : Bytes → List ℕ → Bytes → Bytes → Attribute
int_attribute name vs file object = record {
  attr_name = name;
  attribute_value = int_values vs;
  file_path_str = some file;
  obj_path_str = some object;
}

set_eq_at {ℓ} :
    {A : Type ℓ} (xs : List A) {i j : ℕ} {v y : A}
    → i ≡ j
    → get_elem? (set xs i v) j ≡ some y
    → v ≡ y
set_eq_at xs {i} {j} {v} {y} e h =
    get_elem?-set_eq xs j v (subst (λ k. get_elem? (set xs k v) j ≡ some y) e h)

module _ ⦃c : Containers⦄ where
  open c use {
    Lst, list_create, list_items, items-create, Art, art_tree_init, search-init, art_search,
    art_insert,
  }

  abbrev pub tables : Lst TaggedValue → Lst TaggedValue → Tables
  tables f o = record { files = f; objects = o }

  -- The index stands for the log: every bucket holds the facts of the names that hash to it.
  pub record Represents (a : Anchor) (log : List Fact) : Type 0 where
    pub positive : 0 < a.parallelism
    pub arts : length a.root_art_array ≡ a.parallelism
    pub files : length a.file_paths_list ≡ a.parallelism
    pub objects : length a.object_paths_list ≡ a.parallelism
    pub buckets :
        (pos : ℕ) (art : Art AttrLeaf) (f o : Lst TaggedValue)
        → get_elem? a.root_art_array pos ≡ some art
        → get_elem? a.file_paths_list pos ≡ some f
        → get_elem? a.object_paths_list pos ≡ some o
        → BucketHolds a.parallelism art (tables f o) pos log

  -- A bucket that the attribute's name does not hash to.
  keep-BucketHolds :
      (width : ℕ) (art : Art AttrLeaf) (t : Tables) (pos : ℕ) (log : List Fact) (name : Bytes)
      (vs : List ℕ) (file object : Bytes)
      → BucketHolds width art t pos log
      → djb2_hash name % width ≢ pos
      → BucketHolds width art t pos (log ++ facts_of name vs file object)
  keep-BucketHolds width art t pos log name vs file object h ne = record {
    tables = h.tables;
    at_name = λ n leaf en found.
        LeafHolds-eq t t pos leaf _ _ (TablesExtend-refl t)
          (λ v. matching-facts_ne name n v vs file object log (differs n en))
          (h.at_name n leaf en found);
    at_no_name = λ n en missing v.
        sym (matching-facts_ne name n v vs file object log (differs n en))
        ∙ h.at_no_name n en missing v;
  }
    where
      differs : (n : Bytes) → djb2_hash n % width ≡ pos → str_eq name n ≡ false
      differs n en = elim (Bool-cases (str_eq name n)) [
        | inr other ↦ other
        | inl same ↦ absurd (ne (ap (λ m. djb2_hash m % width) ((str_eq_iff name n).0 same) ∙ en))
      ]

  empty-BucketHolds :
      (width pos : ℕ) → BucketHolds width art_tree_init (tables list_create list_create) pos []
  unfolding matching
  empty-BucketHolds width pos = record {
    tables = record {
      files_table = rw items-create (λ i tv e. cc);
      objects_table = rw items-create (λ i tv e. cc);
    };
    at_name = λ n leaf en found. cc (search-init {V = AttrLeaf} n);
    at_no_name = λ n en missing v. refl;
  }

  -- The new index stands for the empty log.
  pub init-Represents :
      (parallelism : ℕ) → 0 < parallelism → Represents (init_in_mem_index parallelism) []
  unfolding init_in_mem_index
  init-Represents parallelism h = record {
    positive = h;
    arts = length-replicate parallelism _;
    files = length-replicate parallelism _;
    objects = length-replicate parallelism _;
    buckets = λ pos art f o ea ef eo.
        subst₃ (λ x y z. BucketHolds parallelism x (tables y z) pos [])
          (get_elem?-replicate parallelism art_tree_init pos ea)
          (get_elem?-replicate parallelism list_create pos ef)
          (get_elem?-replicate parallelism list_create pos eo) (empty-BucketHolds parallelism pos);
  }

  pub bucket_of-pos :
      (name : Bytes) (width : ℕ) → 0 < width → bucket_of name width ≡ some (djb2_hash name % width)
  unfolding bucket_of
  bucket_of-pos name width h = ground arith

  -- The state that `create_in_mem_index_for_attr` leaves, from what its steps return.
  abbrev pub stored : Anchor → ℕ → ℕ → Art AttrLeaf → Tables → Anchor
  stored a duration pos art t = record a {
    root_art_array = set a.root_art_array pos art;
    file_paths_list = set a.file_paths_list pos t.files;
    object_paths_list = set a.object_paths_list pos t.objects;
    us_to_index = a.us_to_index + duration;
  }

  create_eq :
      (a : Anchor) (duration : ℕ) (name : Bytes) (vs : List ℕ) (file object : Bytes) (pos : ℕ)
      (art : Art AttrLeaf) (f o : Lst TaggedValue) (leaf' : AttrLeaf) (t' : Tables)
      → bucket_of name a.parallelism ≡ some pos
      → get_elem? a.root_art_array pos ≡ some art
      → get_elem? a.file_paths_list pos ≡ some f
      → get_elem? a.object_paths_list pos ≡ some o
      → index_values pos
          (int_values vs)
          (some file)
          (some object)
          (find_leaf art name at_integer).0
          (tables f o)
        ≡ some (leaf', t')
      → (find_leaf art name at_integer).2 ≡ true
      → create_in_mem_index_for_attr duration a (int_attribute name vs file object)
        ≡ some (stored a duration pos (art_insert (find_leaf art name at_integer).1 name leaf') t')
  unfolding create_in_mem_index_for_attr
  create_eq a duration name vs file object pos art f o leaf' t' eb ea ef eo ei held =
      rw (eb, ea, ef, eo, ei, held)

  stored_buckets :
      (a : Anchor) (log : List Fact) (duration : ℕ) (name : Bytes) (vs : List ℕ)
      (file object : Bytes) (art' : Art AttrLeaf) (t' : Tables)
      → let q : ℕ = djb2_hash name % a.parallelism in
        let log' : List Fact = log ++ facts_of name vs file object in
        Represents a log
        → BucketHolds a.parallelism art' t' q log'
        → (pos : ℕ) (art : Art AttrLeaf) (f o : Lst TaggedValue)
        → get_elem? (set a.root_art_array q art') pos ≡ some art
        → get_elem? (set a.file_paths_list q t'.files) pos ≡ some f
        → get_elem? (set a.object_paths_list q t'.objects) pos ≡ some o
        → BucketHolds a.parallelism art (tables f o) pos log'
  stored_buckets a log duration name vs file object art' t' r b pos art f o ea ef eo =
      let q : ℕ = djb2_hash name % a.parallelism in
      let log' : List Fact = log ++ facts_of name vs file object in
      elim (Bool-cases (q == pos)) [
        | inl same ↦
            let at : q ≡ pos = (==_iff q pos).0 same in
            subst₃ (λ x y z. BucketHolds a.parallelism x (tables y z) pos log')
              (set_eq_at a.root_art_array at ea) (set_eq_at a.file_paths_list at ef)
              (set_eq_at a.object_paths_list at eo)
              (subst (λ p. BucketHolds a.parallelism art' t' p log') at b)
        | inr other ↦
            let ne : q ≢ pos = λ e. cc ((==_iff q pos).1 e) in
            keep-BucketHolds a.parallelism art (tables f o) pos log name vs file object
              (r.buckets pos art f o (sym (get_elem?-set_ne a.root_art_array q pos art' ne) ∙ ea)
                (sym (get_elem?-set_ne a.file_paths_list q pos t'.files ne) ∙ ef)
                (sym (get_elem?-set_ne a.object_paths_list q pos t'.objects ne) ∙ eo))
              ne
      ]

  pub stored-Represents :
      (a : Anchor) (log : List Fact) (duration : ℕ) (name : Bytes) (vs : List ℕ)
      (file object : Bytes) (art' : Art AttrLeaf) (t' : Tables)
      → Represents a log
      → BucketHolds a.parallelism art' t'
          (djb2_hash name % a.parallelism)
          (log ++ facts_of name vs file object)
      → Represents
          (stored a duration (djb2_hash name % a.parallelism) art' t')
          (log ++ facts_of name vs file object)
  stored-Represents a log duration name vs file object art' t' r b = record {
    positive = r.positive;
    arts = length-set a.root_art_array _ art' ∙ r.arts;
    files = length-set a.file_paths_list _ t'.files ∙ r.files;
    objects = length-set a.object_paths_list _ t'.objects ∙ r.objects;
    buckets = stored_buckets a log duration name vs file object art' t' r b;
  }

  -- The step with the state that it leaves written out.
  pub create-stored :
      (a : Anchor) (log : List Fact) (duration : ℕ) (name : Bytes) (vs : List ℕ)
      (file object : Bytes)
      → Represents a log
      → (pos : ℕ) × (art : Art AttrLeaf) × (t : Tables) × (create_in_mem_index_for_attr duration a
            (int_attribute name vs file object)
          ≡ some (stored a duration pos art t))
        × Represents (stored a duration pos art t) (log ++ facts_of name vs file object)
  create-stored a log duration name vs file object r =
      let pos : ℕ = djb2_hash name % a.parallelism in
      let below : pos < a.parallelism = mod-lt (djb2_hash name) r.positive in
      let (art, ea) = get_elem?-lt a.root_art_array pos (omega (arith, r.arts)) in
      let (f, ef) = get_elem?-lt a.file_paths_list pos (omega (arith, r.files)) in
      let (o, eo) = get_elem?-lt a.object_paths_list pos (omega (arith, r.objects)) in
      let (leaf', t', indexed, held, b) =
        index-BucketHolds a.parallelism art (tables f o) pos log name vs file object
          (r.buckets pos art f o ea ef eo) refl in
      (
        pos,
        _,
        t',
        create_eq a duration name vs file object pos art f o leaf' t'
            (bucket_of-pos name _ r.positive) ea ef eo indexed held,
        stored-Represents a log duration name vs file object _ t' r b,
      )

  -- Indexing an integer attribute never fails on an index that stands for a log, and the new index
  -- stands for the log with the facts of the attribute behind it.
  pub create-Represents :
      (a : Anchor) (log : List Fact) (duration : ℕ) (name : Bytes) (vs : List ℕ)
      (file object : Bytes)
      → Represents a log
      → (a' : Anchor) × (create_in_mem_index_for_attr duration a (int_attribute name vs file object)
          ≡ some a')
        × Represents a' (log ++ facts_of name vs file object)
  create-Represents a log duration name vs file object r =
      let (pos, art, t, eq, h) = create-stored a log duration name vs file object r in
      (stored a duration pos art t, eq, h)

  pub same-Represents :
      (a b : Anchor) (log : List Fact)
      → b.parallelism ≡ a.parallelism
      → b.root_art_array ≡ a.root_art_array
      → b.file_paths_list ≡ a.file_paths_list
      → b.object_paths_list ≡ a.object_paths_list
      → Represents a log
      → Represents b log
  same-Represents a b log ep er ef eo r = record {
    positive = rw ep r.positive;
    arts = rw (ep, er) r.arts;
    files = rw (ep, ef) r.files;
    objects = rw (ep, eo) r.objects;
    buckets = rw (ep, er, ef, eo) r.buckets;
  }

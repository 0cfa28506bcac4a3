-- ===== src/Mdb/Restart.antt =====
-- A dump of an index of one bucket, loaded by a new run.
use miqs.Prelude.{
  ℕ, zero, suc, ◌+◌, ◌^◌, ◌<◌, ◌≡◌, ◌≢◌, refl, sym, ap, ◌∙◌, Option, none, some, List, [], ◌∷◌,
  ◌++◌, Bytes, length, All, get_elem?, All-find_item, str_eq, str_eq_iff, arith, append_assoc,
  append-nil,
}
use mathlib.Core.Path.{subst, subst₃}
use miqs.Containers.{Containers, TaggedValue}
use miqs.Storage.Words.{le_bytes}
use miqs.Storage.Fields.{miqs_read_size_t}
use miqs.Storage.RoundTrip.{IsText, append_size_t-field, read_size_t-field}
use miqs.Index.State.{ValueLeaf, AttrLeaf, Anchor, Tables}
use miqs.Index.Build.{init_in_mem_index}
use miqs.Index.Log.{Fact, matching}
use miqs.Index.Bucket.{LeafHolds, BucketHolds}
use miqs.Index.Refines.{Represents, tables}
use miqs.Query.{exact_metadata_search, atv_integer}
use miqs.Query.Exact.{search-Represents}
use miqs.Mdb.Dump.{append_all_trees, append_buckets, dump_mdb_index_to_disk}
use miqs.Mdb.Load.{follow, load_bucket, load_buckets, anchor_to_load, load_mdb_file_to_index}
use miqs.Mdb.Paths.{size_field, TextTags, table_bytes, append_path_list-bytes, read_path_list-bytes}
use miqs.Mdb.Values.{StorableTree}
use miqs.Mdb.Names.{IsNode, AreNodes, root_bytes, append_root_tree-bytes, read_root_tree-bytes}
use miqs.Mdb.Copied.{copied-BucketHolds}

All-both {ℓ} :
    {A : Type ℓ} (P Q R : A → Type 0) (l : List A)
    → ((x : A) → P x → Q x → R x)
    → All P l
    → All Q l
    → All R l
All-both P Q R [] f p q = tt
All-both P Q R (x ∷ l) f (p, ps) (q, qs) = (f x p q, All-both P Q R l f ps qs)

single {ℓ} : {A : Type ℓ} (xs : List A) → length xs ≡ 1 → (x : A) × (xs ≡ x ∷ [])
single [] h = absurd (omega arith)
single (x ∷ []) h = (x, refl)
single (x ∷ y ∷ xs) h = absurd (omega arith)

at_single {ℓ} :
    {A : Type ℓ} (x : A) (i : ℕ) {y : A} → get_elem? (x ∷ []) i ≡ some y → (0 ≡ i) × (x ≡ y)
at_single x zero h = (refl, ground arith)
at_single x (suc i) h = cc

module _ ⦃c : Containers⦄ where
  open c use {
    Lst, list_create, list_items, list_count, Rbt, Art, art_tree_init, art_search, art_items,
    search-items, items-AreDistinct,
  }

  abbrev StorableLeaf : Option (Rbt ValueLeaf) → Type 0
  StorableLeaf none = Unit {0}
  StorableLeaf (some t) = StorableTree t

  abbrev StorableTable : Lst TaggedValue → Type 0
  StorableTable l = TextTags (list_items l) × (length (list_items l) < 2 ^ 64)

  abbrev StorableNames : Art AttrLeaf → Type 0
  StorableNames art =
      (length (art_items art) < 2 ^ 64)
      × All (λ n. IsText n.0 × StorableLeaf n.1.rbt) (art_items art)

  -- All names and paths are C strings, and all numbers fit the fields of the file.
  pub record IsStorable (a : Anchor) : Type 0 where
    pub files : All StorableTable a.file_paths_list
    pub objects : All StorableTable a.object_paths_list
    pub names : All StorableNames a.root_art_array

  bucket-AreNodes :
      (art : Art AttrLeaf) (t : Tables) (log : List Fact)
      → StorableNames art
      → BucketHolds 1 art t 0 log
      → AreNodes (art_items art)
  bucket-AreNodes art t log (fits, h) b =
      All-both (λ n. LeafHolds t 0 n.1 (λ v. matching n.0 v log))
        (λ n. IsText n.0 × StorableLeaf n.1.rbt) (λ n. IsNode n.0 n.1) (art_items art)
        (λ n l s. node n.0 n.1 l s)
        (All-find_item str_eq str_eq_iff
          (λ name leaf. LeafHolds t 0 leaf (λ v. matching name v log)) (art_items art)
          (items-AreDistinct art)
          (λ name leaf e. b.at_name name leaf (omega arith) (search-items art name ∙ e)))
        h
    where
      node :
          (name : Bytes) (leaf : AttrLeaf)
          → LeafHolds t 0 leaf (λ v. matching name v log)
          → IsText name × StorableLeaf leaf.rbt
          → IsNode name leaf
      node name leaf l (text, s) = record {
        tree = l.tree;
        int_leaf = record {
          has_tree = l.has_tree;
          numeric = l.numeric;
          not_float = l.not_float;
          int_tree = l.holds.int_tree;
        };
        text = text;
        storable = subst StorableLeaf l.has_tree s;
      }

  bucket_bytes : Lst TaggedValue → Lst TaggedValue → Art AttrLeaf → Bytes
  bucket_bytes f o art =
      table_bytes (list_items f) ++ (table_bytes (list_items o) ++ root_bytes art [])

  append_bucket-bytes :
      (art : Art AttrLeaf) (f o : Lst TaggedValue) (s : Bytes)
      → AreNodes (art_items art)
      → append_buckets (art ∷ []) (f ∷ []) (o ∷ []) s ≡ some (s ++ bucket_bytes f o art)
  unfolding append_buckets append_all_trees bucket_bytes
  append_bucket-bytes art f o s h =
      let (b, appended, eq) =
        append_root_tree-bytes art ((s ++ table_bytes (list_items f)) ++ table_bytes (list_items o))
          h in
      rw (append_path_list-bytes f s, append_path_list-bytes o, appended)
        (ap some (sym (append-nil b) ∙ eq [] ∙ simp append_assoc))

  -- What is loaded of the bucket.
  abbrev restored : Art AttrLeaf → Lst TaggedValue → Lst TaggedValue → Anchor
  restored art f o = record (init_in_mem_index 1) {
    file_paths_list = f ∷ [];
    object_paths_list = o ∷ [];
    root_art_array = art ∷ [];
    total_num_files = 0 + list_count f;
    total_num_objects = 0 + list_count o;
  }

  load_bucket-bytes :
      (art : Art AttrLeaf) (f o : Lst TaggedValue) (log : List Fact)
      → BucketHolds 1 art (tables f o) 0 log
      → StorableTable f
      → StorableTable o
      → StorableNames art
      → (art' : Art AttrLeaf) × (f' o' : Lst TaggedValue) × (count : ℕ) × (load_buckets 1 0
            (init_in_mem_index 1, 0)
            (bucket_bytes f o art)
          ≡ some ((restored art' f' o', count), []))
        × BucketHolds 1 art' (tables f' o') 0 log
  unfolding load_buckets load_bucket init_in_mem_index bucket_bytes
  load_bucket-bytes art f o log b (ft, fl) (ot, ol) names =
      let (f', files, fe) =
        read_path_list-bytes (list_items f) (table_bytes (list_items o) ++ root_bytes art [])
          b.tables.files_table ft fl in
      let (o', objects, oe) =
        read_path_list-bytes (list_items o) (root_bytes art []) b.tables.objects_table ot ol in
      let (art', count, trees, copied) =
        read_root_tree-bytes art [] names.0 (bucket-AreNodes art _ log names b) in
      (
        art',
        f',
        o',
        count,
        rw (files, objects, trees) refl,
        copied-BucketHolds 1 art art' _ _ log (record { files = fe; objects = oe }) copied b,
      )

  -- The counters that the loader adds to last.
  abbrev counted : ℕ → ℕ → Anchor → Anchor
  counted address count a = record a {
    total_num_kv_pairs = a.total_num_kv_pairs + count;
    total_num_attrs = a.total_num_attrs + address;
  }

  load_eq :
      (address : ℕ) (s rest : Bytes) (art : Art AttrLeaf) (f o : Lst TaggedValue) (count : ℕ)
      → 0 < length s
      → miqs_read_size_t s ≡ (some 1, rest)
      → load_buckets 1 0 (init_in_mem_index 1, 0) rest ≡ some ((restored art f o, count), [])
      → load_mdb_file_to_index address (some s) none
        ≡ some (some (counted address count (restored art f o)))
  unfolding load_mdb_file_to_index anchor_to_load follow init_in_mem_index
  load_eq address [] rest art f o count h read loaded = absurd (omega arith)
  load_eq address (b ∷ bs) rest art f o count h read loaded = rw (read, loaded) refl

  counted-Represents :
      (address count : ℕ) (art : Art AttrLeaf) (f o : Lst TaggedValue) (log : List Fact)
      → BucketHolds 1 art (tables f o) 0 log
      → Represents (counted address count (restored art f o)) log
  unfolding init_in_mem_index
  counted-Represents address count art f o log h = record {
    positive = omega arith;
    arts = refl;
    files = refl;
    objects = refl;
    buckets = λ pos x y z ea ef eo.
        let (at, same) = at_single art pos ea in
        subst (λ p. BucketHolds 1 x (tables y z) p log) at
          (subst₃ (λ u v w. BucketHolds 1 u (tables v w) 0 log) same (at_single f pos ef).1
            (at_single o pos eo).1 h);
  }

  dump-bytes :
      (a : Anchor) (art : Art AttrLeaf) (f o : Lst TaggedValue)
      → a.parallelism ≡ 1
      → a.root_art_array ≡ art ∷ []
      → a.file_paths_list ≡ f ∷ []
      → a.object_paths_list ≡ o ∷ []
      → AreNodes (art_items art)
      → dump_mdb_index_to_disk a ≡ some (size_field 1 ++ bucket_bytes f o art)
  unfolding dump_mdb_index_to_disk
  dump-bytes a art f o one ea ef eo h =
      rw (one, ea, ef, eo, append_size_t-field 1 []) (append_bucket-bytes art f o (size_field 1) h)

  -- An index of one bucket that stands for a log of facts, and whose names, paths and numbers fit the
  -- file, is dumped, and loading the dump in a new run gives an index that stands for the same log. On
  -- it the search for a name and an integer of the log returns what it returned before.
  pub load-dump-Represents :
      (address : ℕ) (a : Anchor) (log : List Fact)
      → Represents a log
      → a.parallelism ≡ 1
      → IsStorable a
      → (bytes : Bytes) × (b : Anchor) × (dump_mdb_index_to_disk a ≡ some bytes)
        × (load_mdb_file_to_index address (some bytes) none ≡ some (some b))
        × Represents b log
        × ((name : Bytes) (v : ℕ)
            → matching name v log ≢ []
            → exact_metadata_search b name (atv_integer v)
              ≡ exact_metadata_search a name (atv_integer v))
  load-dump-Represents address a log r one s =
      let (art, ea) = single a.root_art_array (r.arts ∙ one) in
      let (f, ef) = single a.file_paths_list (r.files ∙ one) in
      let (o, eo) = single a.object_paths_list (r.objects ∙ one) in
      let names : All StorableNames (art ∷ []) = subst (All StorableNames) ea s.names in
      let files : All StorableTable (f ∷ []) = subst (All StorableTable) ef s.files in
      let objects : All StorableTable (o ∷ []) = subst (All StorableTable) eo s.objects in
      let bucket : BucketHolds 1 art (tables f o) 0 log =
        subst (λ p. BucketHolds p art (tables f o) 0 log) one
          (r.buckets 0 art f o (ap (λ l. get_elem? l 0) ea) (ap (λ l. get_elem? l 0) ef)
            (ap (λ l. get_elem? l 0) eo)) in
      let (art', f', o', count, loaded, held) =
        load_bucket-bytes art f o log bucket files.0 objects.0 names.0 in
      let after : Represents (counted address count (restored art' f' o')) log =
        counted-Represents address count art' f' o' log held in
      (
        size_field 1 ++ bucket_bytes f o art,
        counted address count (restored art' f' o'),
        dump-bytes a art f o one ea ef eo (bucket-AreNodes art _ log names.0 bucket),
        load_eq address _ _ art' f' o' count (unfold le_bytes in omega arith)
            (read_size_t-field 1 _ (omega arith)) loaded,
        after,
        λ name v some_fact.
            search-Represents _ log name v after some_fact
            ∙ sym (search-Represents a log name v r some_fact),
      )

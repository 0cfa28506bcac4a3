-- ===== src/Mdb/Regions.antt =====
-- The attribute regions of a dump of an index with several buckets.
use miqs.Prelude.{
  inl, inr, Option-cases, ℕ, zero, suc, ◌+◌, ◌%◌, ◌^◌, ◌<◌, ◌≡◌, refl, sym, ap, ◌∙◌, Option, none,
  some, List, [], ◌∷◌, ◌++◌, Bytes, length, replicate, get_elem?, set, arith, append_assoc,
  append-nil,
}
use miqs.Containers.{Containers, TaggedValue}
use miqs.Storage.Words.{le_bytes, length-le_bytes}
use miqs.Storage.Fields.{miqs_read_size_t, element_width}
use miqs.Storage.RoundTrip.{
  append_size_t-field, append_uint64-field, read_size_t-field, read_uint64-field,
}
use miqs.Storage.Misuse.{IsField, read_any_field}
use miqs.Index.State.{AttrLeaf, Anchor}
use miqs.Index.Build.{init_in_mem_index}
use miqs.Mdb.Dump.{
  append_paths, append_path_list, append_attr_nodes, append_attr_root_tree, append_all_trees,
  append_buckets, dump_mdb_index_to_disk,
}
use miqs.Mdb.Load.{
  follow, read_paths, read_into_path_list, read_name_nodes, read_into_attr_root_tree, load_bucket,
  load_buckets, anchor_to_load, load_mdb_file_to_index,
}
use miqs.Mdb.Paths.{size_field, count_field}

abbrev trees_bytes : ℕ → Bytes → Bytes
trees_bytes zero rest = rest
trees_bytes (suc n) rest = count_field 0 ++ trees_bytes n rest

abbrev buckets_bytes : ℕ → ℕ → Bytes
buckets_bytes zero n = []
buckets_bytes (suc k) n = size_field 0 ++ (size_field 0 ++ trees_bytes n (buckets_bytes k n))

count_bytes-IsField : (n : ℕ) → IsField 4 1 (le_bytes 8 n)
unfolding element_width
count_bytes-IsField n = record {
  known_low = omega arith;
  known_high = omega arith;
  sized = length-le_bytes 8 n;
  fits = omega (arith, length-le_bytes 8 n);
  counted = omega arith;
}

-- A reader of a size_t gets a null pointer at a count.
read_size_t-count_field :
    (n : ℕ) (rest : Bytes) → miqs_read_size_t (count_field n ++ rest) ≡ (none, rest)
read_size_t-count_field n rest = (read_any_field 4 1 (le_bytes 8 n) rest (count_bytes-IsField n)).3

module _ ⦃c : Containers⦄ where
  open c use {
    Lst, list_create, list_items, list_count, Art, art_tree_init, art_items, items-create,
    count-items, items-init, iter_size-items,
  }

  append_empty_tree :
      (s : Bytes)
      → append_attr_root_tree (art_tree_init {V = AttrLeaf}) s ≡ some (s ++ count_field 0)
  unfolding append_attr_root_tree append_attr_nodes
  append_empty_tree s =
      rw (iter_size-items (art_tree_init {V = AttrLeaf}), items-init {V = AttrLeaf})
        (ap some (append_uint64-field 0 s))

  append_empty_trees :
      (n : ℕ) (s : Bytes)
      → append_all_trees (replicate n (art_tree_init {V = AttrLeaf})) s
        ≡ some (s ++ trees_bytes n [])
  unfolding append_all_trees
  append_empty_trees zero s = ap some (sym (append-nil s))
  append_empty_trees (suc n) s =
      rw (append_empty_tree s, append_empty_trees n)
        (ap some (append_assoc s (count_field 0) (trees_bytes n [])))

  append_empty_list : (s : Bytes) → append_path_list list_create s ≡ s ++ size_field 0
  unfolding append_path_list append_paths
  append_empty_list s =
      rw (count-items (list_create {A = TaggedValue}), items-create {A = TaggedValue})
        (append_size_t-field 0 s)

  trees_bytes-append : (n : ℕ) (rest : Bytes) → trees_bytes n [] ++ rest ≡ trees_bytes n rest
  trees_bytes-append zero rest = refl
  trees_bytes-append (suc n) rest = simp (append_assoc, trees_bytes-append n rest)

  append_empty_buckets :
      (k n : ℕ) (s : Bytes)
      → append_buckets
          (replicate n art_tree_init)
          (replicate k list_create)
          (replicate k list_create)
          s
        ≡ some (s ++ buckets_bytes k n)
  unfolding append_buckets
  append_empty_buckets zero n s = ap some (sym (append-nil s))
  append_empty_buckets (suc k) n s =
      rw
        (
          append_empty_list s,
          append_empty_list (s ++ size_field 0),
          append_empty_trees n,
          append_empty_buckets k n,
        )
        (ap some (simp (append_assoc, trees_bytes-append)))

  pub dump_empty :
      (parallelism : ℕ)
      → dump_mdb_index_to_disk (init_in_mem_index parallelism)
        ≡ some (size_field parallelism ++ buckets_bytes parallelism parallelism)
  unfolding dump_mdb_index_to_disk init_in_mem_index
  dump_empty parallelism =
      rw (append_size_t-field parallelism [])
        (append_empty_buckets parallelism parallelism (size_field parallelism))

  read_no_paths :
      (rest : Bytes)
      → read_into_path_list list_create (size_field 0 ++ rest) ≡ some (list_create, rest)
  unfolding read_into_path_list read_paths follow
  read_no_paths rest = rw (read_size_t-field 0 rest (omega arith))

  read_no_names :
      (p : ℕ) (arts : List (Art AttrLeaf)) (rest : Bytes)
      → read_into_attr_root_tree p arts (count_field 0 ++ rest) ≡ some ((arts, 0), rest)
  unfolding read_into_attr_root_tree read_name_nodes follow
  read_no_names p arts rest = rw (read_uint64-field 0 rest (omega arith))

  -- A count where a bucket's table of file paths should be.
  load_bucket_fault :
      (a : Anchor) (i count n : ℕ) (rest : Bytes)
      → load_bucket i (a, count) (count_field n ++ rest) ≡ none
  unfolding load_bucket read_into_path_list follow
  load_bucket_fault a i count n rest = elim (Option-cases (get_elem? a.file_paths_list i)) [
    | inl e ↦ rw e
    | inr (l, e) ↦ rw (e, read_size_t-count_field n rest)
  ]

  -- What the loader makes of an empty index with its first bucket.
  abbrev first_loaded : Anchor → Anchor
  first_loaded a = record a {
    file_paths_list = set a.file_paths_list 0 list_create;
    object_paths_list = set a.object_paths_list 0 list_create;
    total_num_files = a.total_num_files + list_count (list_create {A = TaggedValue});
    total_num_objects = a.total_num_objects + list_count (list_create {A = TaggedValue});
  }

  load_empty_bucket :
      (q : ℕ) (rest : Bytes)
      → load_bucket 0
          (init_in_mem_index (suc q), 0)
          (size_field 0 ++ (size_field 0 ++ (count_field 0 ++ rest)))
        ≡ some ((first_loaded (init_in_mem_index (suc q)), 0), rest)
  unfolding load_bucket init_in_mem_index
  load_empty_bucket q rest = rw (read_no_paths, read_no_paths, read_no_names) refl

  load_buckets_fault :
      (q : ℕ) (rest : Bytes)
      → load_buckets
          (suc (suc q))
          0
          (init_in_mem_index (suc (suc q)), 0)
          (size_field 0 ++ (size_field 0 ++ (count_field 0 ++ (count_field 0 ++ rest))))
        ≡ none
  unfolding load_buckets
  load_buckets_fault q rest =
      rw (load_empty_bucket (suc q) (count_field 0 ++ rest), load_bucket_fault _ 1 0 0 rest) refl

  parallelism_of_init : (p : ℕ) → (init_in_mem_index p).parallelism ≡ p
  unfolding init_in_mem_index
  parallelism_of_init p = refl

  anchor_to_load_new : (p : ℕ) → p < 2 ^ 31 → anchor_to_load none p ≡ some (init_in_mem_index p)
  unfolding anchor_to_load
  anchor_to_load_new p h = let same : p % 2 ^ 32 ≡ p = omega arith in rw same (ground arith)

  load-fault :
      (address : ℕ) (s rest : Bytes) (given : Option Anchor) (p : ℕ) (a : Anchor)
      → 0 < length s
      → miqs_read_size_t s ≡ (some p, rest)
      → anchor_to_load given p ≡ some a
      → load_buckets a.parallelism 0 (a, 0) rest ≡ none
      → load_mdb_file_to_index address (some s) given ≡ none
  unfolding load_mdb_file_to_index follow
  load-fault address [] rest given p a h read anchor fault = absurd (omega arith)
  load-fault address (b ∷ bs) rest given p a h read anchor fault = rw (read, anchor, fault)

  -- A new index of two or more buckets, their number an int, is dumped to a file whose loading faults,
  -- into a new index and into an empty one of the same size: the dump has the trees of all buckets
  -- in every bucket's part of the file, where the loader expects one.
  pub load-dump_fault :
      (q address : ℕ)
      → suc (suc q) < 2 ^ 31
      → (bytes : Bytes) × (dump_mdb_index_to_disk (init_in_mem_index (suc (suc q))) ≡ some bytes)
        × (load_mdb_file_to_index address (some bytes) none ≡ none)
        × (load_mdb_file_to_index address (some bytes) (some (init_in_mem_index (suc (suc q))))
            ≡ none)
  unfolding anchor_to_load
  load-dump_fault q address h =
      let p : ℕ = suc (suc q) in
      let rest : Bytes = buckets_bytes p p in
      let nonempty : 0 < length (size_field p ++ rest) = unfold le_bytes in omega arith in
      let read : miqs_read_size_t (size_field p ++ rest) ≡ (some p, rest) =
        read_size_t-field p rest (omega arith) in
      let fault : load_buckets (init_in_mem_index p).parallelism 0 (init_in_mem_index p, 0) rest
          ≡ none =
        ap (λ n. load_buckets n 0 (init_in_mem_index p, 0) rest) (parallelism_of_init p)
        ∙ load_buckets_fault q _ in
      (
        size_field p ++ rest,
        dump_empty p,
        load-fault address _ rest none p (init_in_mem_index p) nonempty read
            (anchor_to_load_new p h) fault,
        load-fault address _ rest (some (init_in_mem_index p)) p (init_in_mem_index p) nonempty read
            refl fault,
      )

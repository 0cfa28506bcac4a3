-- ===== src/Driver/Nothing.antt =====
-- What `indexing_data_collection` indexes.
use miqs.Containers.{Containers}
use miqs.Prelude.{
  length, ap, ◌∙◌, ◌&&◌, List-cases, ◌∷◌, ◌%◌, ℕ, ◌<◌, ◌≡◌, refl, Bool, true, false, Option, none,
  some, [], ◌++◌, Bytes, ◌==◌, if◌then◌else◌, Bool-cases, inl, inr, arith,
}
use miqs.Walk.{Listing}
use miqs.Extract.{H5File}
use miqs.Extract.Collector.{scan_hdf5, init_metadata_collector}
use miqs.Extract.Indexing.{begin_file, anchor_of, parse_hdf5_file}
use miqs.Walk.{parse_single_hdf5_file}
use miqs.Index.Refines.{same-Represents}
use miqs.Index.State.{Anchor}
use miqs.Index.Build.{init_in_mem_index}
use miqs.Index.Refines.{Represents, init-Represents}
use miqs.Driver.{IndexingConfig, copy_path, index_file_name, mdb, aof}
use miqs.Driver.Names.{with_slash, resolve_file_name-index_file_name}
use miqs.Driver.Recovery.{aof_none}
use miqs.Driver.Collection.{
  IndexedCollection, parse_all, files_to_parse, open_aof, dump_mdb, load_other_files,
  indexing_data_collection, is_regular_file,
}

module _ ⦃c : Containers⦄ where
  begun-Represents : (a : Anchor) → Represents a [] → Represents (begin_file [] a) []
  unfolding begin_file
  begun-Represents a r = same-Represents a _ [] refl refl refl refl r

  parse_none :
      (pointer_text : Bytes → Bytes) (disk_duration duration : ℕ) (a : Anchor)
      → Represents a []
      → (b : Anchor) × (parse_hdf5_file pointer_text disk_duration duration none [] (some a)
          ≡ some (some b))
        × Represents b []
  unfolding parse_hdf5_file scan_hdf5 anchor_of init_metadata_collector
  parse_none pointer_text disk_duration duration a r = elim (List-cases a.root_art_array) [
    | inl e ↦ absurd (omega (arith, r.arts, r.positive, ap length e))
    | inr (art, arts, e) ↦ (begin_file [] a, simp e refl, begun-Represents a r)
  ]

module _ ⦃c : Containers⦄ (find_dir find_later : Bytes → Option Listing)
    (stat : Bytes → Option Bool) (unfilled : Bool) (can_write : Bytes → Bool)
    (open_h5 : Bytes → Option H5File) (pointer_text : Bytes → Bytes)
    (disk_duration duration : ℕ) where
  open_aof-Represents :
      (aof_file_name : Bytes) (config : IndexingConfig)
      → 0 < config.parallelism
      → can_write aof_file_name ≡ true
      → (a : Anchor) × (open_aof find_dir find_later stat unfilled can_write open_h5 pointer_text
            disk_duration duration aof_file_name config
            (init_in_mem_index config.parallelism)
          ≡ some a)
        × Represents a []
  unfolding open_aof
  open_aof-Represents aof_file_name config h writable =
      elim (Bool-cases (config.is_aof_enabled == 1)) [
        | inl e ↦
            rw (e, writable)
              (
                _,
                refl,
                same-Represents (init_in_mem_index config.parallelism) _ [] refl refl refl refl
                    (init-Represents config.parallelism h),
              )
        | inr e ↦ rw e (_, refl, init-Represents config.parallelism h)
      ]

  one_file :
      (path : Bytes) (a b : Anchor)
      → parse_hdf5_file pointer_text disk_duration duration (open_h5 path) path (some a)
        ≡ some (some b)
      → parse_all find_dir find_later stat unfilled can_write open_h5 pointer_text disk_duration
          duration
          (path ∷ [])
          a
        ≡ some b
  unfolding parse_all
  one_file path a b e = rw (e, parse_all) refl

  -- The file with the empty path, which cannot be opened, adds no fact.
  parse_empty :
      (a : Anchor)
      → Represents a []
      → open_h5 [] ≡ none
      → (b : Anchor) × (parse_all find_dir find_later stat unfilled can_write open_h5 pointer_text
            disk_duration duration
            ([] ∷ [])
            a
          ≡ some b)
        × Represents b []
  parse_empty a r no_file =
      let (b, e, r') = parse_none pointer_text disk_duration duration a r in
      (
        b,
        one_file [] a b (
            ap (λ f. parse_hdf5_file pointer_text disk_duration duration f [] (some a)) no_file
            ∙ e),
        r',
      )

  parsed_eq :
      (config : IndexingConfig)
      → stat [] ≡ none
      → find_dir [] ≡ none
      → (files_to_parse find_dir find_later stat unfilled can_write open_h5 pointer_text
          disk_duration duration config []).parsed
        ≡ (if unfilled && (1 % config.size == config.rank) then [] ∷ [] else [])
  unfolding files_to_parse is_regular_file parse_single_hdf5_file
  parsed_eq config no_stat no_dir = elim (Bool-cases unfilled) [
    | inr e ↦ rw (no_stat, files_to_parse, is_regular_file, e, no_dir) refl
    | inl e ↦ elim (Bool-cases (1 % config.size == config.rank)) [
      | inr f ↦ rw (no_stat, files_to_parse, is_regular_file, e, f) refl
      | inl f ↦ rw (no_stat, files_to_parse, is_regular_file, e, f) refl
    ]
  ]

  parse_few :
      (b : Bool) (a : Anchor)
      → Represents a []
      → open_h5 [] ≡ none
      → (a' : Anchor) × (parse_all find_dir find_later stat unfilled can_write open_h5 pointer_text
            disk_duration duration
            (if b then [] ∷ [] else [])
            a
          ≡ some a')
        × Represents a' []
  unfolding parse_all
  parse_few true a r no_file = parse_empty a r no_file
  parse_few false a r no_file = (a, refl, r)

  -- Whatever the buffer of `stat` holds, the files that are parsed add no fact.
  no_files :
      (config : IndexingConfig) (a : Anchor)
      → Represents a []
      → stat [] ≡ none
      → open_h5 [] ≡ none
      → find_dir [] ≡ none
      → (b : Anchor) × (parse_all find_dir find_later stat unfilled can_write open_h5 pointer_text
            disk_duration duration
            (files_to_parse find_dir find_later stat unfilled can_write open_h5 pointer_text
              disk_duration duration config []).parsed
            a
          ≡ some b)
        × Represents b []
  no_files config a r no_stat no_file no_dir =
      let (b, e, r') = parse_few (unfilled && (1 % config.size == config.rank)) a r no_file in
      (
        b,
        ap
              (λ l.
                parse_all find_dir find_later stat unfilled can_write open_h5 pointer_text
                  disk_duration duration l a)
              (parsed_eq config no_stat no_dir)
            ∙ e,
        r',
      )

  no_others :
      (config : IndexingConfig)
      → find_later [] ≡ none
      → (config.is_mdb_enabled == 1) ≡ false
      → load_other_files find_dir find_later stat unfilled can_write open_h5 pointer_text
          disk_duration duration [] config
        ≡ ((if config.is_aof_enabled == 1 then 1 else 0), record { loaded = []; overrun = false })
  unfolding load_other_files
  no_others config no_later no_mdb =
      let no_aof =
        aof_none find_later [] (record config { is_build_from_scratch = 1 })
          (record { loaded = []; overrun = false }) no_later in
      elim (Bool-cases (config.is_aof_enabled == 1)) [
        | inl e ↦ rw (no_mdb, e, no_aof) refl
        | inr e ↦ rw (no_mdb, e) refl
      ]

  -- Where the empty path is no directory, `stat` fails on it, it cannot be opened as an HDF5 file, no
  -- MDB file is written, and the append-only file of the root directory can be opened, whatever the
  -- buffer that `stat` has not filled looks like, `indexing_data_collection` ends without a fault. Its
  -- index stands for no fact at all, whatever the data set holds, and no file of another process is
  -- loaded. It returns 1 when the append-only file is enabled, and 0 otherwise.
  pub indexing_data_collection-Represents :
      (config : IndexingConfig)
      → 0 < config.parallelism
      → stat [] ≡ none
      → open_h5 [] ≡ none
      → find_dir [] ≡ none
      → find_later [] ≡ none
      → can_write (with_slash [] ++ index_file_name config.rank aof) ≡ true
      → (config.is_mdb_enabled == 1) ≡ false
      → (r : IndexedCollection) × (indexing_data_collection find_dir find_later stat unfilled
            can_write open_h5 pointer_text disk_duration duration config
          ≡ some r)
        × Represents r.anchor []
        × (r.others.loaded ≡ [])
        × (r.rst ≡ (if config.is_aof_enabled == 1 then 1 else 0))
  unfolding indexing_data_collection copy_path parse_all dump_mdb
  indexing_data_collection-Represents config h no_stat no_file no_dir no_later writable no_mdb =
      let (o, opened, represents) = open_aof-Represents _ config h writable in
      let (a, parsed, r) = no_files config o represents no_stat no_file no_dir in
      (
        record {
          rst = if config.is_aof_enabled == 1 then 1 else 0;
          anchor = a;
          aof_file_name = with_slash [] ++ index_file_name config.rank aof;
          mdb_file = none;
          others = record { loaded = []; overrun = false };
        },
        rw
            (
              resolve_file_name-index_file_name [] mdb config.rank (omega arith),
              resolve_file_name-index_file_name [] aof config.rank (omega arith),
              opened,
              parsed,
              no_mdb,
              no_others config no_later no_mdb,
            )
            refl,
        r,
        refl,
        refl,
      )

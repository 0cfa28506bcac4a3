-- ===== src/Driver/Collection.antt =====
-- src/miqs_indexing.c: `indexing_data_collection` of one process. `none` is a fault. Behind the
-- barrier, the files of other processes are those of a listing that is a parameter.
use mathlib.Core.Option
use miqs.Containers.{Containers}
use miqs.Prelude.{
  ℕ, Bool, false, Option, none, some, List, [], ◌∷◌, Bytes, ◌==◌, if◌then◌else◌, ◌>>=◌,
}
use miqs.Walk.{Listing, Driver, parse_single_hdf5_file, parse_files_in_dir}
use miqs.Extract.{H5File}
use miqs.Extract.Indexing.{parse_hdf5_file}
use miqs.Index.State.{Anchor, writing}
use miqs.Index.Build.{init_in_mem_index}
use miqs.Mdb.Dump.{dump_mdb_index_to_disk}
use miqs.Driver.{
  IndexingConfig, resolve_file_name, mdb, aof, copy_path, negated, Loads, load_mdb_files,
  load_aof_files,
}

module _ ⦃c : Containers⦄ where
  -- The result, the index as it is at the barrier, the MDB file with its name, and the files that are
  -- handed to `load_mdb` and `load_aof` behind it. The bytes of the append-only file are those of the
  -- anchor's stream, which is closed and not set back.
  pub record IndexedCollection : Type 0 where
    pub rst : ℕ
    pub anchor : Anchor
    pub aof_file_name : Bytes
    pub mdb_file : Option (Bytes × Bytes)
    pub others : Loads

  -- The directories before the barrier and behind it, what `stat` says of a path that it finds,
  -- whether a buffer that it has not filled looks like a regular file, the paths that can be opened
  -- for writing, the HDF5 files that can be opened, and the parameters of `indexing_attr`.
  module _ (find_dir find_later : Bytes → Option Listing) (stat : Bytes → Option Bool)
      (unfilled : Bool) (can_write : Bytes → Bool) (open_h5 : Bytes → Option H5File)
      (pointer_text : Bytes → Bytes) (disk_duration duration : ℕ) where
    -- The calls of `parse_hdf5_file` on the root anchor, in order.
    unfoldable pub parse_all : List Bytes → Anchor → Option Anchor
    unfolding parse_hdf5_file
    parse_all [] a = some a
    parse_all (path ∷ paths) a = do
      parsed ← parse_hdf5_file pointer_text disk_duration duration (open_h5 path) path (some a)
      b ← parsed
      parse_all paths b

    -- The result of `stat` is not looked at.
    unfoldable pub is_regular_file : Bytes → Bool
    is_regular_file path = elim (stat path) [ none ↦ unfilled | some regular ↦ regular ]

    -- The files that this process comes to, of which none was counted before.
    unfoldable pub files_to_parse : IndexingConfig → Bytes → Driver
    unfolding parse_single_hdf5_file parse_files_in_dir is_regular_file
    files_to_parse config data_path =
        let start : Driver = record { current_file_count = 0; parsed = []; overrun = false } in
        if is_regular_file data_path
        then parse_single_hdf5_file config.rank config.size data_path start
        else elim (find_dir data_path) [
          | none ↦ start
          | some listing ↦
              parse_files_in_dir config.rank config.size config.topk data_path listing start
        ]

    -- The append-only file is opened, where it is enabled. A stream that is NULL is a fault, since
    -- fclose is handed it.
    unfoldable pub open_aof : Bytes → IndexingConfig → Anchor → Option Anchor
    open_aof aof_file_name config a =
        if config.is_aof_enabled == 1
        then (if can_write aof_file_name
            then some (record a { on_disk_file_stream = writing []; is_readonly_index_file = 0 })
            else none)
        else some a

    -- The MDB file with its name, where it is enabled.
    unfoldable pub dump_mdb : Bytes → IndexingConfig → Anchor → Option (Option (Bytes × Bytes))
    unfolding dump_mdb_index_to_disk
    dump_mdb mdb_file_name config a =
        if config.is_mdb_enabled == 1
        then (if can_write mdb_file_name
            then Option.map (λ bytes. some (mdb_file_name, bytes)) (dump_mdb_index_to_disk a)
            else none)
        else some none

    -- What is loaded behind the barrier.
    unfoldable pub load_other_files : Bytes → IndexingConfig → ℕ × Loads
    unfolding load_mdb_files load_aof_files
    load_other_files index_dir_path config =
        let param = record config { is_build_from_scratch = 1 } in
        let start : Loads = record { loaded = []; overrun = false } in
        let first : ℕ × Loads =
          if param.is_mdb_enabled == 1
          then (let (found, t) = load_mdb_files find_later index_dir_path param start in
              (negated found, t))
          else (0, start) in
        if param.is_aof_enabled == 1
        then (let (found, t) = load_aof_files find_later index_dir_path param first.1 in
            (if first.0 == 0 then negated found else 1, t))
        else first

    unfoldable pub indexing_data_collection : IndexingConfig → Option IndexedCollection
    unfolding parse_all files_to_parse open_aof dump_mdb copy_path resolve_file_name
        init_in_mem_index
    indexing_data_collection config = do
      let index_dir_path = copy_path find_dir config.index_dir_path
      let data_path = copy_path find_dir config.dataset_path
      mdb_file_name ← resolve_file_name index_dir_path mdb config.rank
      aof_file_name ← resolve_file_name index_dir_path aof config.rank
      opened ← open_aof aof_file_name config (init_in_mem_index config.parallelism)
      let files = files_to_parse config data_path
      a ← parse_all files.parsed opened
      mdb_file ← dump_mdb mdb_file_name config a
      let loading = load_other_files index_dir_path config
      some (record {
        rst = loading.0;
        anchor = a;
        aof_file_name = aof_file_name;
        mdb_file = mdb_file;
        others = loading.1;
      })

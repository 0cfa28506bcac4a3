-- ===== src/Tests/Driver.antt =====
-- Runs of the indexing driver.
use miqs.Prelude.{
  ◌≡◌, refl, true, false, Option, none, some, [], ◌++◌, Bytes, str_eq, if◌then◌else◌, arith,
}
use miqs.Walk.{Listing, no_more, entry, file, visit_listing, collect_dir, is_mdb}
use miqs.Strings.{ends_with}
use miqs.Driver.{
  IndexingConfig, Loads, decimal, index_file_name, resolve_file_name, mdb, recovering_index,
  on_index_file, load_mdb_files,
}
use miqs.Driver.Names.{with_slash, resolve_file_name-index_file_name}
use miqs.Driver.Recovery.{recovering_index-loads}
use miqs.Driver.Collection.{IndexedCollection, indexing_data_collection}
use miqs.Driver.Nothing.{indexing_data_collection-Represents}
use miqs.Containers.Assoc.{assoc}
use miqs.Index.Refines.{Represents}
use miqs.Tests.{codes}

resolve_test : resolve_file_name (codes "/idx") mdb 12 ≡ some (codes "/idx/index_miqs_12.mdb")
unfolding resolve_file_name index_file_name decimal ends_with
resolve_test = refl

resolve_file_name-index_file_name_example :
    resolve_file_name (codes "/idx") mdb 12
    ≡ some (with_slash (codes "/idx") ++ index_file_name 12 mdb)
resolve_file_name-index_file_name_example =
    resolve_file_name-index_file_name (codes "/idx") mdb 12 (omega arith)

-- One directory with one index file.
abbrev index_dir : Listing
index_dir = entry (file (codes "index_miqs_0.mdb")) no_more

abbrev one_dir : Bytes → Option Listing
one_dir path = if str_eq path (codes "/idx") then some index_dir else none

abbrev config : IndexingConfig
config = record {
  parallelism = 1;
  rank = 0;
  size = 1;
  current_file_count = 0;
  topk = 0;
  is_build_from_scratch = 0;
  is_mdb_enabled = 1;
  is_aof_enabled = 0;
  dataset_path = codes "/data";
  index_dir_path = codes "/idx";
}

abbrev no_loads : Loads
no_loads = record { loaded = []; overrun = false }

-- The path of an index file overruns the buffer that it is printed into.
load_mdb_files_test : (load_mdb_files one_dir (codes "/idx") config no_loads).1.overrun ≡ true
unfolding load_mdb_files collect_dir visit_listing is_mdb ends_with on_index_file
load_mdb_files_test = refl

recovering_index-loads_example :
    recovering_index one_dir (λ files. false) config no_loads ≡ some (1, no_loads)
recovering_index-loads_example =
    recovering_index-loads one_dir (λ files. false) config no_loads refl

-- A data set of one HDF5 file, in a directory that exists.
abbrev data_or_none : Bytes → Option Listing
data_or_none path =
    if str_eq path (codes "/data") then some (entry (file (codes "a.h5")) no_more) else none

abbrev no_mdb_config : IndexingConfig
no_mdb_config = record config { is_mdb_enabled = 0; is_aof_enabled = 1 }

indexing_data_collection-Represents_example :
    (r : IndexedCollection) × (indexing_data_collection data_or_none data_or_none
        (λ path. none)
        true
        (λ path. true)
        (λ path. none)
        (λ s. s)
        5
        7
        no_mdb_config
      ≡ some r)
    × Represents r.anchor []
    × (r.others.loaded ≡ [])
    × (r.rst ≡ 1)
indexing_data_collection-Represents_example =
    indexing_data_collection-Represents data_or_none data_or_none (λ path. none) true (λ path. true)
      (λ path. none) (λ s. s) 5 7 no_mdb_config (omega arith) refl refl refl refl refl refl

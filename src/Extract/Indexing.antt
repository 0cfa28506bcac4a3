-- ===== src/Extract/Indexing.antt =====
-- src/h52index/hdf52index.c: a file is scanned, and each of its attributes indexed. `none` is a fault,
-- and an inner `none` a null anchor. What is printed is left out.
use miqs.Containers.{Containers}
use miqs.Prelude.{ℕ, ◌+◌, Option, none, some, [], ◌∷◌, Bytes, ◌>>=◌}
use miqs.Extract.{H5File}
use miqs.Extract.Collector.{DataObject, init_metadata_collector, Scan, refused, scanned, scan_hdf5}
use miqs.Index.State.{Attribute, Anchor}
use miqs.Index.Aof.{indexing_attr}

module _ ⦃c : Containers⦄ where
  unfoldable pub on_obj : Anchor → DataObject → Option Anchor
  on_obj a obj =
      some (record a { obj_path = some obj.obj_name; total_num_objects = a.total_num_objects + 1 })

  -- The paths come from the anchor. The parameters are those of `indexing_attr`.
  unfoldable pub on_attr :
      (Bytes → Bytes) → ℕ → ℕ → Anchor → Attribute → Option (Anchor × Attribute)
  on_attr pointer_text disk_duration duration a attr = do
    let placed = record attr { file_path_str = a.file_path; obj_path_str = a.obj_path }
    a' ← indexing_attr pointer_text disk_duration duration a placed
    some (a', placed)

  -- The anchor as it is handed to the collector.
  unfoldable pub begin_file : Bytes → Anchor → Anchor
  begin_file filepath a = record a {
    file_path = some filepath;
    us_to_index = 0;
    total_num_files = a.total_num_files + 1;
  }

  unfoldable pub anchor_of : Scan Anchor → Option Anchor
  anchor_of refused = none
  anchor_of (scanned coll) = some coll.opdata

  -- An array of buckets that was not made yet is the empty list.
  unfoldable pub parse_hdf5_file :
      (Bytes → Bytes) → ℕ → ℕ → Option H5File → Bytes → Option Anchor → Option (Option Anchor)
  unfolding on_obj on_attr begin_file anchor_of init_metadata_collector scan_hdf5
  parse_hdf5_file pointer_text disk_duration duration file filepath none = some none
  parse_hdf5_file pointer_text disk_duration duration file filepath (some a) =
      elim a.root_art_array [
        | [] ↦ some (some a)
        | art ∷ arts ↦ (do
          end ←
              scan_hdf5 file
                (some (
                  init_metadata_collector (begin_file filepath a) (some on_obj)
                    (some (on_attr pointer_text disk_duration duration))))
                0
          some (anchor_of end))
      ]

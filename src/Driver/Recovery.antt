-- ===== src/Driver/Recovery.antt =====
-- What `recovering_index` loads.
use miqs.Prelude.{
  ◌≡◌, refl, ◌||◌, Bool, List, Option, none, some, Bytes, [], ◌==◌, if◌then◌else◌, Bool-cases, inl,
  inr,
}
use miqs.Walk.{Listing}
use miqs.Driver.{IndexingConfig, Loads, load_mdb_files, load_aof_files, copy_path, recovering_index}

mdb_none :
    (find_dir : Bytes → Option Listing) (dir : Bytes) (param : IndexingConfig) (s : Loads)
    → find_dir dir ≡ none
    → load_mdb_files find_dir dir param s ≡ (0, s)
unfolding load_mdb_files
mdb_none find_dir dir param s h = rw (h, load_mdb_files) refl

pub aof_none :
    (find_dir : Bytes → Option Listing) (dir : Bytes) (param : IndexingConfig) (s : Loads)
    → find_dir dir ≡ none
    → load_aof_files find_dir dir param s ≡ (0, s)
unfolding load_aof_files
aof_none find_dir dir param s h = rw (h, load_aof_files) refl

-- Where no directory has the empty path, `recovering_index` loads no file, wherever the index files
-- are. It returns 1 when one of the two formats is enabled. When none is, it returns 0 if the root
-- anchor is set already, and otherwise reads a null anchor.
pub recovering_index-loads :
    (find_dir : Bytes → Option Listing) (has_root : List Bytes → Bool) (config : IndexingConfig)
    (s : Loads)
    → find_dir [] ≡ none
    → recovering_index find_dir has_root config s ≡ (
        if config.is_mdb_enabled == 1 || config.is_aof_enabled == 1
        then some (1, s)
        else if has_root s.loaded
        then some (0, s)
        else none)
unfolding recovering_index copy_path
recovering_index-loads find_dir has_root config s h =
    let no_mdb = mdb_none find_dir [] (record config { is_build_from_scratch = 0 }) s h in
    let no_aof = aof_none find_dir [] (record config { is_build_from_scratch = 0 }) s h in
    elim (Bool-cases (config.is_mdb_enabled == 1)) [
      | inl e ↦ elim (Bool-cases (config.is_aof_enabled == 1)) [
        | inl f ↦ rw (e, f, no_mdb, no_aof) refl
        | inr f ↦ rw (e, f, no_mdb) refl
      ]
      | inr e ↦ elim (Bool-cases (config.is_aof_enabled == 1)) [
        | inl f ↦ rw (e, f, no_aof) refl
        | inr f ↦ elim (Bool-cases (has_root s.loaded)) [
          | inl g ↦ rw (e, f, g) refl
          | inr g ↦ rw (e, f, g) refl
        ]
      ]
    ]

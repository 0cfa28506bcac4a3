-- ===== src/Driver.antt =====
-- src/miqs_indexing.c: the configuration, the names of the index files, and the loading of a directory
-- of them. `none` is a fault: a buffer is overrun. Ranks are not negative.
pub mod Names
pub mod Recovery
pub mod Collection
pub mod Nothing
use miqs.Prelude.{
  ℕ, zero, suc, ◌+◌, ◌/◌, ◌%◌, Bool, true, false, not, ◌&&◌, ◌||◌, Option, none, some, List, [],
  ◌∷◌, ◌++◌, Bytes, length, take, ◌==◌, ltb, leb, if◌then◌else◌, ◌>>=◌,
}
use miqs.Strings.{ends_with}
use miqs.Walk.{Node, Listing, name_of, joined, is_mdb, is_aof, collect_dir}

-- `indexing_config_t`
pub record IndexingConfig : Type 0 where
  pub parallelism : ℕ
  pub rank : ℕ
  pub size : ℕ
  pub current_file_count : ℕ
  pub topk : ℕ
  pub is_build_from_scratch : ℕ
  pub is_mdb_enabled : ℕ
  pub is_aof_enabled : ℕ
  pub dataset_path : Bytes
  pub index_dir_path : Bytes

-- `paralleled` is whether MIQS_PARALLELED_INDEX is defined.
unfoldable pub init_indexing_config : Bool → ℕ → ℕ → ℕ → ℕ → ℕ → ℕ → Bytes → Bytes → IndexingConfig
init_indexing_config paralleled parallelism rank size topk enable_mdb enable_aof dataset_path
      index_dir_path =
    record {
      parallelism = if paralleled then parallelism else 1;
      rank = rank;
      size = size;
      current_file_count = 0;
      topk = topk;
      is_build_from_scratch = 0;
      is_mdb_enabled = enable_mdb;
      is_aof_enabled = enable_aof;
      dataset_path = dataset_path;
      index_dir_path = index_dir_path;
    }

-- The digits of "%d", of which an `int` has 10 at most.
unfoldable pub decimal : ℕ → ℕ → Bytes
decimal zero n = []
decimal (suc digits) n =
    let rest = decimal digits (n / 10) in
    if n / 10 == 0 then (48 + n % 10) ∷ [] else rest ++ (48 + n % 10) ∷ []

-- "index_miqs_%d.%s"
unfoldable pub index_file_name : ℕ → Bytes → Bytes
unfolding decimal
index_file_name rank suffix =
    (105 ∷ 110 ∷ 100 ∷ 101 ∷ 120 ∷ 95 ∷ 109 ∷ 105 ∷ 113 ∷ 115 ∷ 95 ∷ [])
    ++ (decimal 10 rank ++ 46 ∷ suffix)

-- A string with its terminator, in a buffer of the size given.
abbrev pub fits : ℕ → Bytes → Option Bytes
fits size text = if ltb (length text) size then some text else none

unfoldable pub resolve_file_name : Bytes → Bytes → ℕ → Option Bytes
unfolding index_file_name ends_with
resolve_file_name index_dir_path suffix rank =
    let slash = 47 ∷ [] in
    let dir = if ends_with index_dir_path slash then index_dir_path else index_dir_path ++ slash in
    fits (16 + 16) (index_file_name rank suffix) >>= λ file_name.
    fits (length index_dir_path + 16 + 20) (dir ++ file_name)

-- What the callbacks change: the files handed to `load_mdb` or `load_aof`, in order, and whether a
-- path has overrun its buffer.
pub record Loads : Type 0 where
  pub loaded : List Bytes
  pub overrun : Bool

-- `on_mdb` and `on_aof`, by the suffix. A process that has built the index itself passes over its own
-- file.
unfoldable pub on_index_file : Bytes → IndexingConfig → Node → Bytes → Loads → Loads
unfolding index_file_name ends_with
on_index_file suffix param f_entry parent_path s =
    let filepath = joined parent_path (name_of f_entry) in
    let over = record s {
      overrun = s.overrun || leb (length parent_path + 11) (length filepath);
    } in
    if not (param.is_build_from_scratch == 0)
      && ends_with filepath (index_file_name param.rank suffix)
    then over
    else record over { loaded = s.loaded ++ filepath ∷ [] }

abbrev pub mdb : Bytes
mdb = 109 ∷ 100 ∷ 98 ∷ []

abbrev pub aof : Bytes
aof = 97 ∷ 111 ∷ 102 ∷ []

-- `!n`
abbrev pub negated : ℕ → ℕ
negated n = if n == 0 then 1 else 0

-- Directories that exist, by their paths.
module _ (find_dir : Bytes → Option Listing) where
  -- 1 where the directory exists, or else 0.
  unfoldable pub load_mdb_files : Bytes → IndexingConfig → Loads → ℕ × Loads
  unfolding on_index_file collect_dir is_mdb
  load_mdb_files index_dir param s = elim (find_dir index_dir) [
    | none ↦ (0, s)
    | some listing ↦ (
      1,
      collect_dir is_mdb 0 (on_index_file mdb param) (λ n p d. d) (λ d. d) (λ d. d) index_dir
          listing s,
    )
  ]

  unfoldable pub load_aof_files : Bytes → IndexingConfig → Loads → ℕ × Loads
  unfolding on_index_file collect_dir is_aof
  load_aof_files index_dir param s = elim (find_dir index_dir) [
    | none ↦ (0, s)
    | some listing ↦ (
      1,
      collect_dir is_aof 0 (on_index_file aof param) (λ n p d. d) (λ d. d) (λ d. d) index_dir
          listing s,
    )
  ]

  -- `strncpy(copy, path, strlen(copy))` into a zeroed buffer.
  unfoldable pub copy_path : Bytes → Bytes
  copy_path path = let copy : Bytes = [] in take (length copy) path

  -- The result with what was loaded. Where it is 0 the root anchor is read, a fault if it is null;
  -- `has_root` says whether it is set when these files have been loaded.
  unfoldable pub recovering_index :
      (List Bytes → Bool) → IndexingConfig → Loads → Option (ℕ × Loads)
  unfolding load_mdb_files load_aof_files copy_path
  recovering_index has_root config s =
      let param = record config { is_build_from_scratch = 0 } in
      let dir = copy_path param.index_dir_path in
      let first : ℕ × Loads =
        if param.is_mdb_enabled == 1
        then (let (found, t) = load_mdb_files dir param s in (negated found, t))
        else (0, s) in
      let end : ℕ × Loads =
        if param.is_aof_enabled == 1
        then (let (found, t) = load_aof_files dir param first.1 in (negated found, t))
        else first in
      if end.0 == 0 && not (has_root end.1.loaded) then none else some end

-- ===== src/Walk.antt =====
-- src/utils/fs/fs_ops.c, `collect_dir`, with the filters and callbacks of miqs_indexing.c and
-- on_disk_index.c that it is given. The file system is given as what `scandir` lists.
pub mod Mkpath
pub mod Visited
use miqs.Prelude.{
  ℕ, zero, suc, ◌+◌, ◌%◌, Bool, true, false, not, ◌&&◌, ◌||◌, List, [], ◌∷◌, ◌++◌, Bytes, length,
  take, ◌==◌, ltb, leb, str_eq, if◌then◌else◌,
}
use miqs.Strings.{ends_with}

-- An entry of a directory with its name; a directory that `scandir` cannot read is `unreadable`. The
-- entries of a directory are in the order of the comparison that `scandir` is given.
mutual
  pub data Node : Type 0 where
    file : Bytes → Node
    directory : Bytes → Listing → Node
    unreadable : Bytes → Node

  pub data Listing : Type 0 where
    no_more : Listing
    entry : Node → Listing → Listing

-- `d_name` and `d_type == DT_DIR`
abbrev pub name_of : Node → Bytes
name_of (file n) = n
name_of (directory n l) = n
name_of (unreadable n) = n

abbrev pub is_dir : Node → Bool
is_dir (file n) = false
is_dir (directory n l) = true
is_dir (unreadable n) = true

-- The names "." and "..".
abbrev is_dots : Bytes → Bool
is_dots n = str_eq n (46 ∷ []) || str_eq n (46 ∷ 46 ∷ [])

-- ".hdf5" and ".h5"
unfoldable pub is_hdf5 : Node → Bool
is_hdf5 node =
    if is_dots (name_of node)
    then false
    else is_dir node
      || (ends_with (name_of node) (46 ∷ 104 ∷ 100 ∷ 102 ∷ 53 ∷ [])
          || ends_with (name_of node) (46 ∷ 104 ∷ 53 ∷ []))

-- ".mdb"
unfoldable pub is_mdb : Node → Bool
is_mdb node =
    if is_dots (name_of node)
    then false
    else is_dir node || ends_with (name_of node) (46 ∷ 109 ∷ 100 ∷ 98 ∷ [])

-- ".aof"
unfoldable pub is_aof : Node → Bool
is_aof node =
    if is_dots (name_of node)
    then false
    else is_dir node || ends_with (name_of node) (46 ∷ 97 ∷ 111 ∷ 102 ∷ [])

-- "%s/%s"
abbrev pub joined : Bytes → Bytes → Bytes
joined parent name = parent ++ 47 ∷ name

-- The callbacks, on a state `S` that stands for `coll_args` and all else that they change; a null
-- callback leaves it as it is. `topk` is 0 for no limit. The order is ascending, as in every call.
module _ {S : Type 0} (filter : Node → Bool) (topk : ℕ) (on_file on_dir : Node → Bytes → S → S)
    (pre_op post_op : S → S) where
  unfoldable mutual
    -- One entry. `snprintf` keeps 1022 bytes of the path of a directory.
    pub visit_entry : Node → Bytes → S → S
    visit_entry (file n) parent s = post_op (on_file (file n) parent (pre_op s))
    visit_entry (unreadable n) parent s = post_op (on_dir (unreadable n) parent (pre_op s))
    visit_entry (directory n l) parent s =
        post_op (
          visit_listing 0 l (take 1022 (joined parent n))
            (on_dir (directory n l) parent (pre_op s)))

    -- The loop, after `count` entries.
    pub visit_listing : ℕ → Listing → Bytes → S → S
    visit_listing count no_more parent s = s
    visit_listing count (entry node rest) parent s =
        if filter node
        then (if topk == 0 || ltb count topk
            then visit_listing (count + 1) rest parent (visit_entry node parent s)
            else s)
        else visit_listing count rest parent s

  -- `collect_dir` on a directory that can be read.
  unfoldable pub collect_dir : Bytes → Listing → S → S
  unfolding visit_listing
  collect_dir dir_path listing s = visit_listing 0 listing dir_path s

-- What the driver changes: the count of files, the calls of `parse_hdf5_file` in order, and whether
-- a path has overrun its buffer of 512 bytes.
pub record Driver : Type 0 where
  pub current_file_count : ℕ
  pub parsed : List Bytes
  pub overrun : Bool

unfoldable pub parse_single_hdf5_file : ℕ → ℕ → Bytes → Driver → Driver
parse_single_hdf5_file rank size filepath s =
    let count = s.current_file_count + 1 in
    let counted = record s { current_file_count = count } in
    if count % size == rank then record counted { parsed = s.parsed ++ filepath ∷ [] } else counted

unfoldable pub on_file : ℕ → ℕ → Node → Bytes → Driver → Driver
unfolding parse_single_hdf5_file
on_file rank size f_entry parent_path s =
    let path = joined parent_path (name_of f_entry) in
    parse_single_hdf5_file rank size path
      (record s { overrun = s.overrun || leb 512 (length path) })

unfoldable pub parse_files_in_dir : ℕ → ℕ → ℕ → Bytes → Listing → Driver → Driver
unfolding collect_dir on_file
parse_files_in_dir rank size topk path listing s =
    collect_dir is_hdf5 topk (on_file rank size) (λ n p d. d) (λ d. d) (λ d. d) path listing s

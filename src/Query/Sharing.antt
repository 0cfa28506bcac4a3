-- ===== src/Query/Sharing.antt =====
-- src/miqs_querying.c, `exact_metadata_search`, and src/index/in_mem_index.c: threads that search beside
-- threads that index. A search takes the lock of its bucket for reading and releases it with its answer.
-- What it reads of the index it reads bit by bit in between, while other threads step: the leaf of the
-- value at one moment, and the paths of each pair at another. A lock is held for reading by the threads
-- that search in its bucket. A search that faults makes no step.
pub mod Answers
pub mod Kept
pub mod Now
pub mod Progress
pub mod Whole
use miqs.Containers.{Containers}
use miqs.Prelude.{
  length, drop, ℕ, ◌≡◌, false, some, List, [], ◌∷◌, ◌++◌, Bytes, map, get_elem?, set,
}
use mathlib.Core.List.{Memᴰ}
use miqs.Index.State.{FileObjPair, ValueLeaf, Anchor}
use miqs.Index.Build.{bucket_of}
use miqs.Index.Buckets.{Bucket, read_bucket}
use miqs.Index.Calls.{Call}
use miqs.Index.Locking.{System, Step, enter, leave, start_threads}
use miqs.Query.{
  SearchValue, SearchRstEntry, PowerSearchRst, attribute_value_search, collect_result_from_list,
}

-- The arguments of a search.
pub record Search : Type 0 where
  pub attr_name : Bytes
  pub attribute_value : SearchValue

module _ ⦃c : Containers⦄ where
  open c use {list_count, list_items}

  -- A thread with the searches that it has still to make, or in a search: its bucket, what was there
  -- when it took the lock, the search, those behind it, and how many steps of threads that index came
  -- before.
  pub data Searcher : Type 0 where
    idle : List Search → Searcher
    searching : ℕ → Bucket → Search → List Search → ℕ → Searcher

  -- An answer, with the calls that index that had returned before it.
  pub record Answer : Type 0 where
    pub before : List (ℕ × Call)
    pub search : Search
    pub rst : PowerSearchRst

  -- `past` are the indices before each step of a thread that indexes, in order.
  pub record Shared : Type 0 where
    pub indexing : System
    pub past : List Anchor
    pub searchers : List Searcher
    pub answers : List Answer

  -- The thread searches in the bucket.
  abbrev pub Reads : ℕ → Searcher → Type 0
  Reads pos (idle searches) = ⊥
  Reads pos (searching q b search rest since) = pos ≡ q

  -- The step takes the lock of the bucket for writing.
  abbrev pub Enters : {s t : System} → ℕ → Step s t → Type 0
  Enters p (enter i pos b call rest at place free read) = p ≡ pos
  Enters p (leave i pos us b b' call rest at changed) = ⊥

  -- The indices since a search took its lock.
  unfoldable pub indices_since : Shared → ℕ → List Anchor
  indices_since s since = drop since (s.past ++ s.indexing.index ∷ [])

  -- `collect_result_from_list` on each pair, each at a moment of its own.
  abbrev pub ReadPairs : List Anchor → List FileObjPair → List SearchRstEntry → Type 0
  ReadPairs moments [] [] = Unit {0}
  ReadPairs moments [] (e ∷ es) = ⊥
  ReadPairs moments (p ∷ ps) [] = ⊥
  ReadPairs moments (p ∷ ps) (e ∷ es) =
      ((x : Anchor) × Memᴰ x moments × (collect_result_from_list x p ≡ some e))
      × ReadPairs moments ps es

  -- What a search reads at these moments, and makes its answer of.
  pub record ReadAnswer (moments : List Anchor) (search : Search) (rst : PowerSearchRst)
      : Type 0 where
    pub moment : Anchor
    pub at_moment : Memᴰ moment moments
    pub leaf : ValueLeaf
    pub found :
        attribute_value_search moment search.attr_name search.attribute_value ≡ some (some leaf)
    pub size : rst.size ≡ list_count leaf.file_obj_pair_list
    pub pairs : ReadPairs moments (list_items leaf.file_obj_pair_list) rst.rst_arr

  pub data Act (s : Shared) : Shared → Type 0 where
    index_step :
        {t : System} (step : Step s.indexing t)
        → ((p k : ℕ) (u : Searcher)
            → Enters p step
            → get_elem? s.searchers k ≡ some u
            → ¬ Reads p u)
        → Act s (record s { indexing = t; past = s.past ++ s.indexing.index ∷ [] })
    lock :
        (i pos : ℕ) (b : Bucket) (search : Search) (rest : List Search)
        → get_elem? s.searchers i ≡ some (idle (search ∷ rest))
        → bucket_of search.attr_name s.indexing.index.parallelism ≡ some pos
        → get_elem? s.indexing.locks pos ≡ some false
        → read_bucket s.indexing.index pos ≡ some b
        → Act s (record s {
          searchers = set s.searchers i (searching pos b search rest (length s.past));
        })
    unlock :
        (i pos : ℕ) (b : Bucket) (search : Search) (rest : List Search) (since : ℕ)
        (rst : PowerSearchRst)
        → get_elem? s.searchers i ≡ some (searching pos b search rest since)
        → ReadAnswer (indices_since s since) search rst
        → Act s (record s {
          searchers = set s.searchers i (idle rest);
          answers =
              s.answers ++ record { before = s.indexing.finished; search = search; rst = rst } ∷ [];
        })

  pub data Acts (s : Shared) : Shared → Type 0 where
    stop : Acts s s
    then : {t u : Shared} → Acts s t → Act t u → Acts s u

  unfoldable pub start_shared : Anchor → List (List Call) → List (List Search) → Shared
  unfolding start_threads
  start_shared a todo searches = record {
    indexing = start_threads a todo;
    past = [];
    searchers = map idle searches;
    answers = [];
  }

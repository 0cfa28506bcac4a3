-- ===== src/Tests/Sharing.antt =====
-- A search beside a thread that indexes.
use miqs.Containers.Assoc.{assoc}
use miqs.Hashing.{djb2_loop, djb2_hash}
use mathlib.Core.Option.{some-injective}
use mathlib.Core.Path.{subst}
use miqs.Index.Build.{
  index_values, find_leaf, init_in_mem_index, create_in_mem_index_for_attr, bucket_of,
}
use miqs.Index.Buckets.{Bucket, read_bucket}
use miqs.Index.Calls.{Call}
use miqs.Index.Locking.{enter, start_threads}
use miqs.Index.Refines.{int_attribute}
use miqs.Index.State.{Attribute}
use miqs.Index.Values.{
  indexing_numeric, numeric_loop, numeric_entry, push_pair, insert_tagged_value,
}
use miqs.Prelude.{
  All, ◌⊎◌, ℕ, zero, suc, Option, ◌≡◌, refl, sym, none, some, List, [], ◌∷◌, get_elem?, arith,
}
use miqs.Query.{
  atv_integer, PowerSearchRst, exact_metadata_search, attribute_value_search, search_in_leaf,
  search_leaf, find_number, collect_results,
}
use miqs.Query.Sharing.{
  Act, Search, Searcher, Shared, Reads, searching, Acts, stop, then, index_step, lock, unlock,
  start_shared,
}
use miqs.Query.Sharing.Answers.{IsShared, Acts-IsShared}
use miqs.Query.Sharing.Whole.{IsIntSearch}
use miqs.Query.Sharing.Now.{read_now}
use miqs.Query.Sharing.Progress.{Acts-IsOver, Faults, IsOver, shared_work}
use miqs.Index.Locking.Live.{IsInt}
use miqs.Tests.Index.{plate_log, after-Represents}
use miqs.Tests.{codes, plate, run_h5, sky_h5, item, after}

abbrev other_name : Attribute
other_name = int_attribute (codes "a") (9 ∷ []) sky_h5 (codes "/b")

abbrev todo : List (List Call)
todo = ((1, other_name) ∷ []) ∷ []

abbrev find_three : Search
find_three = record { attr_name = plate; attribute_value = atv_integer 3 }

abbrev three_times : PowerSearchRst
three_times = record {
  size = 2;
  rst_arr = item run_h5 (codes "/a") ∷ item run_h5 (codes "/a") ∷ [];
}

abbrev nothing : Bucket
nothing = record { art = []; tables = record { files = []; objects = [] } }

abbrev or_nothing : Option Bucket → Bucket
or_nothing none = nothing
or_nothing (some b) = b

abbrev plate_bucket : Bucket
plate_bucket = or_nothing (read_bucket after 3)

-- No search is in bucket 2.
no_reader :
    (p k : ℕ) (u : Searcher)
    → p ≡ 2
    → get_elem? (searching 3 plate_bucket find_three [] 0 ∷ []) k ≡ some u
    → ¬ Reads p u
no_reader p zero u at e reads =
    let same : p ≡ 3 = subst (Reads p) (sym (some-injective _ u e)) reads in omega (arith, at, same)
no_reader p (suc k) u at e reads = cc e

search_beside : (s : Shared) × Acts (start_shared after todo ((find_three ∷ []) ∷ [])) s
unfolding start_shared start_threads init_in_mem_index create_in_mem_index_for_attr bucket_of
    exact_metadata_search attribute_value_search search_in_leaf search_leaf find_number
    collect_results djb2_hash djb2_loop index_values indexing_numeric find_leaf numeric_loop
    numeric_entry push_pair insert_tagged_value read_bucket
search_beside = (
  _,
  then
      (then (then stop (lock 0 3 plate_bucket find_three [] refl refl refl refl))
        (index_step (enter 0 2 nothing (1, other_name) [] refl refl refl refl) no_reader))
      (unlock 0 3 plate_bucket find_three [] 0 three_times refl
        (read_now _ 0 find_three three_times (omega arith) refl)),
)

calls_of_integers : All (All IsInt) todo
calls_of_integers = (((_, _, _, _, refl), tt), tt)

searches_for_integers : All (All IsIntSearch) ((find_three ∷ []) ∷ [])
searches_for_integers = (((3, refl), tt), tt)

Acts-IsShared_example : IsShared after todo search_beside.0
Acts-IsShared_example =
    Acts-IsShared after plate_log todo ((find_three ∷ []) ∷ []) after-Represents calls_of_integers
      searches_for_integers search_beside.1

Acts-IsOver_example :
    (IsOver search_beside.0 ⊎ (((t : Shared) × Act search_beside.0 t) ⊎ Faults search_beside.0))
    × ((t : Shared) → Act search_beside.0 t → shared_work search_beside.0 ≡ suc (shared_work t))
Acts-IsOver_example =
    Acts-IsOver after plate_log todo ((find_three ∷ []) ∷ []) search_beside.0 after-Represents
      calls_of_integers search_beside.1

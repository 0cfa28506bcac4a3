-- ===== src/Tests/Index.antt =====
-- Runs of the index and the search.
use mathlib.Core.Path.{subst}
use miqs.Containers.Assoc.{assoc}
use miqs.Hashing.{djb2_loop, djb2_hash}
use miqs.Index.Aof.{load_aof, faulted, build_index}
use miqs.Index.Build.{
  index_values, find_leaf, init_in_mem_index, create_in_mem_index_for_attr, bucket_of,
}
use miqs.Index.Loading.{load_aof-layout}
use miqs.Index.Log.{Fact, facts_of, matching}
use miqs.Index.Refines.{int_attribute, Represents, init-Represents, create-Represents}
use miqs.Index.State.{Anchor, Attribute}
use miqs.Index.Values.{
  indexing_numeric, numeric_loop, numeric_entry, push_pair, insert_tagged_value,
}
use mathlib.Core.Option.{some-injective}
use miqs.Index.Strings.{string_attribute, IsNewName, create-IsNewName}
use miqs.Prelude.{
  find_item, str_eq, Bytes, true, sym, ◌≡◌, ap, ◌++◌, ◌≢◌, refl, Option, none, some, List, [], ◌∷◌,
  ◌>>=◌, arith, length,
}
use miqs.Query.{
  atv_integer, atv_string, exact_metadata_search, attribute_value_search, search_in_leaf,
  search_leaf, find_number, collect_results,
}
use miqs.Query.Exact.{search-Represents, search_miss}
use miqs.Records.Layout.{layout}
use miqs.Tests.{codes, plate, run_h5, sky_h5, start, plate_run, plate_sky, item, or_start, after}
use miqs.Tests.Records.{first, first-IsEntry}

abbrev built : Option Anchor
built = create_in_mem_index_for_attr 7 start plate_run >>= λ a.
    create_in_mem_index_for_attr 7 a plate_sky

built_search :
    (built >>= λ a. exact_metadata_search a plate (atv_integer 3))
    ≡ some (record {
      size = 3;
      rst_arr = item run_h5 (codes "/a") ∷ item run_h5 (codes "/a") ∷ item sky_h5 (codes "/b") ∷ [];
    })
unfolding init_in_mem_index create_in_mem_index_for_attr bucket_of exact_metadata_search
    attribute_value_search search_in_leaf search_leaf find_number collect_results djb2_hash
    djb2_loop index_values indexing_numeric find_leaf numeric_loop numeric_entry push_pair
    insert_tagged_value
built_search = refl

start-Represents : Represents start []
start-Represents = init-Represents 4 (omega arith)

create-Represents_example :
    (a' : Anchor) × (create_in_mem_index_for_attr 7 start plate_run ≡ some a')
    × Represents a' ([] ++ facts_of plate (3 ∷ 5 ∷ 3 ∷ []) run_h5 (codes "/a"))
create-Represents_example =
    create-Represents start [] 7 plate (3 ∷ 5 ∷ 3 ∷ []) run_h5 (codes "/a") start-Represents

abbrev pub plate_log : List Fact
plate_log = [] ++ facts_of plate (3 ∷ 5 ∷ 3 ∷ []) run_h5 (codes "/a")

pub after-Represents : Represents after plate_log
after-Represents =
    let (a', eq, r) =
      create-Represents start [] 7 plate (3 ∷ 5 ∷ 3 ∷ []) run_h5 (codes "/a") start-Represents in
    subst (λ a. Represents a plate_log) (sym (ap or_start eq)) r

has_three : matching plate 3 plate_log ≢ []
unfolding matching facts_of
has_three e = cc e

search-Represents_example :
    exact_metadata_search after plate (atv_integer 3)
    ≡ some (record {
      size = length (matching plate 3 plate_log);
      rst_arr = matching plate 3 plate_log;
    })
search-Represents_example = search-Represents after plate_log plate 3 after-Represents has_three

no_four : matching plate 4 plate_log ≡ []
unfolding matching facts_of
no_four = refl

search_miss_example : exact_metadata_search after plate (atv_integer 4) ≡ none
search_miss_example = search_miss after plate_log plate 4 after-Represents no_four

all_indexed : build_index plate start.indexed_attr ≡ true
unfolding build_index init_in_mem_index
all_indexed = refl

load_aof-layout_example : load_aof (λ s. s) 5 7 (some (layout first (9 ∷ []))) start ≡ faulted
load_aof-layout_example =
    load_aof-layout (λ s. s) 5 7 first (9 ∷ []) start first-IsEntry all_indexed

-- Two threads, each with one attribute, of which the second one's runs first. The two names lie in
-- different buckets of four.
abbrev mjd_sky : Attribute
mjd_sky = int_attribute (codes "MJD") (7 ∷ []) sky_h5 (codes "/b")

start-IsNewName : IsNewName start plate
unfolding init_in_mem_index djb2_hash djb2_loop
start-IsNewName art e = subst (λ x. find_item str_eq plate x ≡ none) (some-injective [] art e) refl

create-IsNewName_example :
    (a' : Anchor) × (create_in_mem_index_for_attr 7 start
        (string_attribute plate (codes "a" ∷ codes "b" ∷ []) run_h5 (codes "/a"))
      ≡ some a')
    × Represents a' []
    × IsNewName a' plate
    × ((s : Bytes) → exact_metadata_search a' plate (atv_string s) ≡ none)
create-IsNewName_example =
    create-IsNewName start [] 7 plate (codes "a" ∷ codes "b" ∷ []) run_h5 (codes "/a")
      start-Represents start-IsNewName

-- ===== src/Mdb/Paths.antt =====
-- Reading back the table of paths of a bucket.
use miqs.Prelude.{
  ℕ, suc, ◌+◌, ◌^◌, ◌<◌, ◌≡◌, refl, sym, ap, ◌∙◌, some, List, [], ◌∷◌, ◌++◌, Bytes, length,
  get_elem?, All, arith, append_assoc, append-nil, length-append,
}
use mathlib.Core.Path.{subst}
use miqs.Containers.{Containers, TaggedValue}
use miqs.Storage.Words.{le_bytes}
use miqs.Storage.RoundTrip.{
  field, IsText, append_string-field, append_size_t-field, read_string-field, read_size_t-field,
}
use miqs.Index.Paths.{IsTable}
use miqs.Mdb.Dump.{append_path, append_paths, append_path_list}
use miqs.Mdb.Load.{follow, read_paths, read_into_path_list}

abbrev pub size_field : ℕ → Bytes
size_field n = field 5 1 (le_bytes 8 n)

abbrev pub count_field : ℕ → Bytes
count_field n = field 4 1 (le_bytes 8 n)

abbrev path_bytes : TaggedValue → Bytes
path_bytes tv = field 3 (length tv.tag) tv.tag ++ size_field tv.value

abbrev paths_bytes : List TaggedValue → Bytes → Bytes
paths_bytes [] rest = rest
paths_bytes (tv ∷ tvs) rest =
    field 3 (length tv.tag) tv.tag ++ (size_field tv.value ++ paths_bytes tvs rest)

append_path-bytes : (tv : TaggedValue) (s : Bytes) → append_path tv s ≡ s ++ path_bytes tv
unfolding append_path
append_path-bytes tv s = simp (append_string-field, append_size_t-field, append_assoc)

append_paths-bytes :
    (tvs : List TaggedValue) (s rest : Bytes)
    → append_paths tvs s ++ rest ≡ s ++ paths_bytes tvs rest
unfolding append_paths
append_paths-bytes [] s rest = refl
append_paths-bytes (tv ∷ tvs) s rest =
    rw (append_paths-bytes tvs (append_path tv s) rest, append_path-bytes tv s) (simp append_assoc)

paths_bytes-append :
    (tvs : List TaggedValue) (rest : Bytes) → paths_bytes tvs [] ++ rest ≡ paths_bytes tvs rest
paths_bytes-append [] rest = refl
paths_bytes-append (tv ∷ tvs) rest = simp (append_assoc, paths_bytes-append tvs rest)

-- The entries are the ones of a table from position `n` on.
abbrev From : ℕ → List TaggedValue → Type 0
From n l = (i : ℕ) (tv : TaggedValue) → get_elem? l i ≡ some tv → tv.value ≡ n + i

From-tail : (n : ℕ) (tv : TaggedValue) (l : List TaggedValue) → From n (tv ∷ l) → From (suc n) l
From-tail n tv l h i x e = h (suc i) x e ∙ omega arith

-- The tags are strings of C.
abbrev pub TextTags : List TaggedValue → Type 0
TextTags = All (λ tv. IsText tv.tag)

-- What is written of a table.
pub table_bytes : List TaggedValue → Bytes
table_bytes tvs = size_field (length tvs) ++ paths_bytes tvs []

module _ ⦃c : Containers⦄ where
  open c use {
    Lst, list_items, list_create, list_count, list_insert, items-create, items-insert_end,
    count-items,
  }

  read_paths-bytes :
      (tvs : List TaggedValue) (list : Lst TaggedValue) (rest : Bytes)
      → From (length (list_items list)) tvs
      → TextTags tvs
      → length (list_items list) + length tvs < 2 ^ 64
      → (l' : Lst TaggedValue) × (read_paths (length tvs) list (paths_bytes tvs rest)
          ≡ some (l', rest))
        × (list_items l' ≡ list_items list ++ tvs)
  unfolding read_paths follow
  read_paths-bytes [] list rest h t fits = (list, refl, sym (append-nil (list_items list)))
  read_paths-bytes (tv ∷ tvs) list rest h (t, ts) fits =
      let at : tv.value ≡ length (list_items list) = h 0 tv refl ∙ omega arith in
      let list' : Lst TaggedValue = list_insert list tv tv.value in
      let items : list_items list' ≡ list_items list ++ tv ∷ [] =
        ap (λ i. list_items (list_insert list tv i)) at ∙ items-insert_end list tv in
      let len : length (list_items list') ≡ suc (length (list_items list)) =
        ap length items ∙ omega (arith, length-append (list_items list) (tv ∷ [])) in
      let (l', read, eq) =
        read_paths-bytes tvs list' rest (subst (λ n. From n tvs) (sym len) (From-tail _ tv tvs h))
          ts (omega arith) in
      (
        l',
        rw (read_string-field tv.tag _ t, read_size_t-field tv.value _ (omega arith)) read,
        eq ∙ ap (λ l. l ++ tvs) items ∙ append_assoc (list_items list) (tv ∷ []) tvs,
      )

  pub append_path_list-bytes :
      (list : Lst TaggedValue) (s : Bytes)
      → append_path_list list s ≡ s ++ table_bytes (list_items list)
  unfolding append_path_list table_bytes
  append_path_list-bytes list s = rw (count-items list) (
      sym (append-nil _)
      ∙ append_paths-bytes (list_items list) _ []
      ∙ simp (append_size_t-field, append_assoc))

  pub read_path_list-bytes :
      (tvs : List TaggedValue) (rest : Bytes)
      → IsTable tvs
      → TextTags tvs
      → length tvs < 2 ^ 64
      → (l' : Lst TaggedValue) × (read_into_path_list list_create (table_bytes tvs ++ rest)
          ≡ some (l', rest))
        × (list_items l' ≡ tvs)
  unfolding read_into_path_list follow table_bytes
  read_path_list-bytes tvs rest h t fits =
      let from : From (length (list_items (list_create {A = TaggedValue}))) tvs =
        rw items-create (λ i tv e. h i tv e ∙ omega arith) in
      let (l', read, eq) =
        read_paths-bytes tvs list_create rest from t (rw items-create (omega (arith, fits))) in
      (
        l',
        rw (append_assoc, read_size_t-field (length tvs) _ fits, paths_bytes-append) read,
        eq ∙ ap (λ l. l ++ tvs) items-create,
      )

  -- What `append_path_list` writes of a well-formed table of fewer than 2^64 paths, all of them C
  -- strings, behind any stream, `read_into_path_list` reads into a new list as the same table, up to
  -- the byte behind it.
  pub read_path_list-append_path_list :
      (list : Lst TaggedValue) (s rest : Bytes)
      → IsTable (list_items list)
      → TextTags (list_items list)
      → length (list_items list) < 2 ^ 64
      → (written : Bytes) × (append_path_list list s ≡ s ++ written)
        × (l' : Lst TaggedValue) × (read_into_path_list list_create (written ++ rest)
            ≡ some (l', rest))
        × (list_items l' ≡ list_items list)
  read_path_list-append_path_list list s rest h t fits =
      let (l', read, eq) = read_path_list-bytes (list_items list) rest h t fits in
      (table_bytes (list_items list), append_path_list-bytes list s, l', read, eq)

-- ===== src/Mdb/PairLists.antt =====
-- Reading back the list of pairs of a value.
use miqs.Prelude.{
  ◌^◌, ◌<◌, ◌≡◌, refl, sym, ap, ◌∙◌, some, List, [], ◌∷◌, ◌++◌, Bytes, length, map, All,
  append_assoc, append-nil,
}
use miqs.Containers.{Containers}
use miqs.Storage.RoundTrip.{append_size_t-field, read_size_t-field}
use miqs.Index.State.{FileObjPair, ValueLeaf}
use miqs.Mdb.Dump.{append_file_obj_pair, append_pairs, append_file_obj_pair_linked_list}
use miqs.Mdb.Load.{follow, read_pair, read_pairs, read_file_obj_path_pair_list}
use miqs.Mdb.Paths.{size_field}

-- The pair without its bucket.
abbrev pub unbucketed : FileObjPair → FileObjPair
unbucketed p = record p { parallel_index_pos = 0 }

-- The positions are of type size_t.
abbrev pub SizedPairs : List FileObjPair → Type 0
SizedPairs = All (λ p. (p.file_list_pos < 2 ^ 64) × (p.obj_list_pos < 2 ^ 64))

abbrev pairs_bytes : List FileObjPair → Bytes → Bytes
pairs_bytes [] rest = rest
pairs_bytes (p ∷ ps) rest =
    size_field p.file_list_pos ++ (size_field p.obj_list_pos ++ pairs_bytes ps rest)

append_pairs-bytes :
    (ps : List FileObjPair) (s rest : Bytes) → append_pairs ps s ++ rest ≡ s ++ pairs_bytes ps rest
unfolding append_pairs append_file_obj_pair
append_pairs-bytes [] s rest = refl
append_pairs-bytes (p ∷ ps) s rest =
    append_pairs-bytes ps _ rest ∙ simp (append_size_t-field, append_assoc)

pairs_bytes-append :
    (ps : List FileObjPair) (rest : Bytes) → pairs_bytes ps [] ++ rest ≡ pairs_bytes ps rest
pairs_bytes-append [] rest = refl
pairs_bytes-append (p ∷ ps) rest = simp (append_assoc, pairs_bytes-append ps rest)

-- What is written of a list of pairs.
pub pair_list_bytes : List FileObjPair → Bytes
pair_list_bytes ps = size_field (length ps) ++ pairs_bytes ps []

module _ ⦃c : Containers⦄ where
  open c use {
    Lst, list_items, list_create, list_count, list_push_value, items-create, items-push,
    count-items,
  }

  read_pairs-bytes :
      (ps : List FileObjPair) (list : Lst FileObjPair) (rest : Bytes)
      → SizedPairs ps
      → (l' : Lst FileObjPair) × (read_pairs (length ps) list (pairs_bytes ps rest)
          ≡ some (l', rest))
        × (list_items l' ≡ list_items list ++ map unbucketed ps)
  unfolding read_pairs read_pair follow
  read_pairs-bytes [] list rest t = (list, refl, sym (append-nil (list_items list)))
  read_pairs-bytes (p ∷ ps) list rest ((ft, ot), ts) =
      let (l', read, eq) = read_pairs-bytes ps (list_push_value list (unbucketed p)) rest ts in
      (
        l',
        rw (read_size_t-field p.file_list_pos _ ft, read_size_t-field p.obj_list_pos _ ot) read,
        eq
            ∙ ap (λ l. l ++ map unbucketed ps) (items-push list (unbucketed p))
            ∙ append_assoc (list_items list) (unbucketed p ∷ []) (map unbucketed ps),
      )

  pub append_pair_list-bytes :
      (list : Lst FileObjPair) (s : Bytes)
      → append_file_obj_pair_linked_list list s ≡ s ++ pair_list_bytes (list_items list)
  unfolding append_file_obj_pair_linked_list pair_list_bytes
  append_pair_list-bytes list s = rw (count-items list) (
      sym (append-nil _)
      ∙ append_pairs-bytes (list_items list) _ []
      ∙ simp (append_size_t-field, append_assoc))

  pub read_pair_list-bytes :
      (ps : List FileObjPair) (rest : Bytes)
      → SizedPairs ps
      → length ps < 2 ^ 64
      → (leaf : ValueLeaf) × (read_file_obj_path_pair_list (pair_list_bytes ps ++ rest)
          ≡ some (leaf, rest))
        × (list_items leaf.file_obj_pair_list ≡ map unbucketed ps)
  unfolding read_file_obj_path_pair_list follow pair_list_bytes
  read_pair_list-bytes ps rest t fits =
      let (l', read, eq) = read_pairs-bytes ps list_create rest t in
      (
        record { file_obj_pair_list = l' },
        rw (append_assoc, read_size_t-field (length ps) _ fits, pairs_bytes-append, read),
        eq ∙ ap (λ l. l ++ map unbucketed ps) items-create,
      )

  -- What `append_file_obj_pair_linked_list` writes of a list of fewer than 2^64 pairs, whose positions
  -- are below 2^64, behind any stream, `read_file_obj_path_pair_list` reads back with the same
  -- positions in the same order, up to the byte behind it; but every pair read says that it lies in
  -- bucket 0.
  pub read_pair_list-append_pair_list :
      (list : Lst FileObjPair) (s rest : Bytes)
      → SizedPairs (list_items list)
      → length (list_items list) < 2 ^ 64
      → (written : Bytes) × (append_file_obj_pair_linked_list list s ≡ s ++ written)
        × (leaf : ValueLeaf) × (read_file_obj_path_pair_list (written ++ rest) ≡ some (leaf, rest))
        × (list_items leaf.file_obj_pair_list ≡ map unbucketed (list_items list))
  read_pair_list-append_pair_list list s rest t fits =
      let (leaf, read, eq) = read_pair_list-bytes (list_items list) rest t fits in
      (pair_list_bytes (list_items list), append_pair_list-bytes list s, leaf, read, eq)

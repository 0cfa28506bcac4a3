-- ===== src/Mdb/Names.antt =====
-- The attribute region of an index of one bucket, dumped and read back.
use miqs.Prelude.{
  ℕ, ◌%◌, ◌^◌, ◌<◌, ◌≡◌, refl, ◌∙◌, Option, none, some, List, [], ◌∷◌, ◌++◌, Bytes, str_eq,
  str_eq_iff, length, All, AreDistinct, find_item, CopiedIn, CopiedIn-cons, arith, append_assoc,
}
use miqs.Containers.{Containers, int_keys}
use miqs.Hashing.{djb2_hash}
use miqs.Metadata.{at_integer}
use miqs.Storage.Fields.{miqs_append_string, miqs_append_string_with_len, miqs_append_uint64}
use miqs.Storage.RoundTrip.{
  field, IsText, append_string-field, append_uint64-field, read_string-field, read_uint64-field,
}
use miqs.Index.State.{ValueLeaf, AttrLeaf}
use miqs.Index.Build.{bucket_of}
use miqs.Index.Refines.{bucket_of-pos}
use miqs.Mdb.Dump.{append_attr_name_node, append_attr_nodes, append_attr_root_tree}
use miqs.Mdb.Load.{
  follow, leaf_of_type, read_attr_name_node, read_name_nodes, read_into_attr_root_tree,
}
use miqs.Mdb.Paths.{count_field}
use miqs.Mdb.Values.{SamePairs, StorableTree, tree_bytes, append_tree-bytes, read_tree-bytes}

module _ ⦃c : Containers⦄ where
  open c use {
    Rbt, rbt_find, rbt_keys, Art, art_search, art_insert, art_items, art_tree_init, search-init,
    search-insert, search-items, items-AreDistinct, iter_size-items,
  }

  -- The leaf of an integer attribute, with its tree.
  pub record IntLeaf (leaf : AttrLeaf) (t : Rbt ValueLeaf) : Type 0 where
    pub has_tree : leaf.rbt ≡ some t
    pub numeric : leaf.is_numeric ≡ 1
    pub not_float : leaf.is_float ≡ 0
    pub int_tree : rbt_keys t ≡ int_keys

  -- A name and its leaf that can be dumped.
  pub record IsNode (name : Bytes) (leaf : AttrLeaf) : Type 0 where
    pub tree : Rbt ValueLeaf
    pub int_leaf : IntLeaf leaf tree
    pub text : IsText name
    pub storable : StorableTree tree

  abbrev pub AreNodes : List (Bytes × AttrLeaf) → Type 0
  AreNodes = All (λ n. IsNode n.0 n.1)

  leaf_bytes : Option (Rbt ValueLeaf) → Bytes → Bytes
  leaf_bytes none rest = rest
  leaf_bytes (some t) rest = tree_bytes t rest

  names_bytes : List (Bytes × AttrLeaf) → Bytes → Bytes
  names_bytes [] rest = rest
  names_bytes ((name, leaf) ∷ nodes) rest =
      field 3 (length name) name ++ leaf_bytes leaf.rbt (names_bytes nodes rest)

  append_name-field :
      (v s : Bytes) → miqs_append_string_with_len v (length v) s ≡ s ++ field 3 (length v) v
  unfolding miqs_append_string
  append_name-field v s = append_string-field v s

  append_node-bytes :
      (name : Bytes) (leaf : AttrLeaf) (s : Bytes)
      → IsNode name leaf
      → (b : Bytes) × (append_attr_name_node name leaf s ≡ some b)
        × ((rest : Bytes)
            → b ++ rest ≡ s ++ (field 3 (length name) name ++ leaf_bytes leaf.rbt rest))
  unfolding append_attr_name_node leaf_bytes
  append_node-bytes name leaf s n =
      let l = n.int_leaf in
      rw (l.numeric, l.has_tree, l.not_float)
        (_, refl, λ rest. append_tree-bytes n.tree _ rest ∙ simp (append_name-field, append_assoc))

  append_nodes-bytes :
      (nodes : List (Bytes × AttrLeaf)) (s : Bytes)
      → AreNodes nodes
      → (b : Bytes) × (append_attr_nodes nodes s ≡ some b)
        × ((rest : Bytes) → b ++ rest ≡ s ++ names_bytes nodes rest)
  unfolding append_attr_nodes names_bytes
  append_nodes-bytes [] s h = (s, refl, λ rest. refl)
  append_nodes-bytes ((name, leaf) ∷ nodes) s (n, h) =
      let (b, one, eq) = append_node-bytes name leaf s n in
      let (d, others, eqs) = append_nodes-bytes nodes b h in
      (d, rw one others, λ rest. eqs rest ∙ eq (names_bytes nodes rest))

  -- A leaf of the same integers with the same lists, all in bucket 0.
  pub record SameLeaf (leaf leaf' : AttrLeaf) : Type 0 where
    pub tree : Rbt ValueLeaf
    pub tree' : Rbt ValueLeaf
    pub before : IntLeaf leaf tree
    pub after : IntLeaf leaf' tree'
    pub same : (k : ℕ) → CopiedIn SamePairs none (rbt_find tree k) (rbt_find tree' k)

  read_leaf-bytes :
      (name : Bytes) (leaf : AttrLeaf) (art : Art AttrLeaf) (count : ℕ) (rest : Bytes)
      → IsNode name leaf
      → (leaf' : AttrLeaf) × (count' : ℕ) × (read_attr_name_node 1
            (art ∷ [], count)
            (field 3 (length name) name ++ leaf_bytes leaf.rbt rest)
          ≡ some ((art_insert art name leaf' ∷ [], count'), rest))
        × SameLeaf leaf leaf'
  unfolding read_attr_name_node leaf_bytes leaf_of_type follow
  read_leaf-bytes name leaf art count rest n =
      let l = n.int_leaf in
      let (t', count', read, keys', found) =
        read_tree-bytes n.tree count rest l.int_tree n.storable in
      let here : bucket_of name 1 ≡ some 0 = bucket_of-pos name 1 (omega arith) ∙ rw mod_one in
      (
        record (leaf_of_type at_integer) { rbt = some t' },
        count',
        rw (l.has_tree, read_string-field name _ n.text, here, read) refl,
        record {
          tree = n.tree;
          tree' = t';
          before = l;
          after = record { has_tree = refl; numeric = refl; not_float = refl; int_tree = keys' };
          same = found;
        },
      )
    where
      mod_one : djb2_hash name % 1 ≡ 0
      mod_one = omega arith

  read_names-bytes :
      (nodes : List (Bytes × AttrLeaf)) (art : Art AttrLeaf) (count : ℕ) (rest : Bytes)
      → AreDistinct str_eq nodes
      → AreNodes nodes
      → (art' : Art AttrLeaf) × (count' : ℕ) × (read_name_nodes
            (length nodes)
            1
            (art ∷ [], count)
            (names_bytes nodes rest)
          ≡ some ((art' ∷ [], count'), rest))
        × ((k : Bytes)
            → CopiedIn SameLeaf (art_search art k) (find_item str_eq k nodes) (art_search art' k))
  unfolding read_name_nodes names_bytes
  read_names-bytes [] art count rest d h = (art, count, refl, λ k. refl)
  read_names-bytes ((name, leaf) ∷ nodes) art count rest (once, d) (n, h) =
      let (leaf', count1, read, same) =
        read_leaf-bytes name leaf art count (names_bytes nodes rest) n in
      let (art', count', reads, found) =
        read_names-bytes nodes (art_insert art name leaf') count1 rest d h in
      (
        art',
        count',
        rw read reads,
        λ k.
            CopiedIn-cons str_eq str_eq_iff SameLeaf name k leaf leaf' nodes _ _ _ same
              (search-insert art name k leaf') once (found k),
      )

  pub root_bytes : Art AttrLeaf → Bytes → Bytes
  root_bytes art rest = count_field (length (art_items art)) ++ names_bytes (art_items art) rest

  pub append_root_tree-bytes :
      (art : Art AttrLeaf) (s : Bytes)
      → AreNodes (art_items art)
      → (b : Bytes) × (append_attr_root_tree art s ≡ some b)
        × ((rest : Bytes) → b ++ rest ≡ s ++ root_bytes art rest)
  unfolding append_attr_root_tree root_bytes
  append_root_tree-bytes art s h =
      let (b, appended, eq) =
        append_nodes-bytes (art_items art) (miqs_append_uint64 (length (art_items art)) s) h in
      (
        b,
        rw (iter_size-items art) appended,
        λ rest. eq rest ∙ simp (append_uint64-field, append_assoc),
      )

  -- What is dumped of the names of an index of one bucket is read back with the same names, and under
  -- each a leaf of the same integers with the same lists.
  pub read_root_tree-bytes :
      (art : Art AttrLeaf) (rest : Bytes)
      → length (art_items art) < 2 ^ 64
      → AreNodes (art_items art)
      → (art' : Art AttrLeaf) × (count : ℕ) × (read_into_attr_root_tree 1
            (art_tree_init ∷ [])
            (root_bytes art rest)
          ≡ some ((art' ∷ [], count), rest))
        × ((k : Bytes) → CopiedIn SameLeaf none (art_search art k) (art_search art' k))
  unfolding read_into_attr_root_tree root_bytes follow
  read_root_tree-bytes art rest fits h =
      let (art', count, read, found) =
        read_names-bytes (art_items art) art_tree_init 0 rest (items-AreDistinct art) h in
      (
        art',
        count,
        rw (read_uint64-field (length (art_items art)) _ fits) read,
        λ k. rw (search-items art k, ← search-init {V = AttrLeaf} k) (found k),
      )

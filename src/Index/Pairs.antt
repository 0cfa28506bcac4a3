-- ===== src/Index/Pairs.antt =====
-- The lists of position pairs in the leaves, and the paths that they stand for.
use miqs.Prelude.{ℕ, ◌≡◌, refl, List, [], ◌∷◌, ◌++◌, Bytes}
use miqs.Containers.{Containers, TaggedValue}
use miqs.Index.State.{FileObjPair, ValueLeaf, Tables}
use miqs.Index.Values.{insert_tagged_value, push_pair}
use miqs.Index.Paths.{IsTable, HasTag, Extends, insert_tagged_value-HasTag}
use miqs.Query.{SearchRstEntry}

abbrev pub entry : Bytes → Bytes → SearchRstEntry
entry file object = record { file_path = file; obj_path = object }

module _ ⦃c : Containers⦄ where
  open c use {Lst, list_items, items-push, list_push_value}

  pub record AreTables (t : Tables) : Type 0 where
    pub files_table : IsTable (list_items t.files)
    pub objects_table : IsTable (list_items t.objects)

  pub record TablesExtend (t t' : Tables) : Type 0 where
    pub files_kept : Extends (list_items t.files) (list_items t'.files)
    pub objects_kept : Extends (list_items t.objects) (list_items t'.objects)

  -- The pair lies in bucket `pos`, and its positions hold the two paths.
  pub record Resolves (t : Tables) (pos : ℕ) (p : FileObjPair) (e : SearchRstEntry) : Type 0 where
    pub at_bucket : p.parallel_index_pos ≡ pos
    pub at_file : HasTag (list_items t.files) p.file_list_pos e.file_path
    pub at_object : HasTag (list_items t.objects) p.obj_list_pos e.obj_path

  -- One entry for each pair, in order.
  abbrev pub ResolvesAll : Tables → ℕ → List FileObjPair → List SearchRstEntry → Type 0
  ResolvesAll t pos [] [] = Unit {0}
  ResolvesAll t pos [] (e ∷ es) = ⊥
  ResolvesAll t pos (p ∷ ps) [] = ⊥
  ResolvesAll t pos (p ∷ ps) (e ∷ es) = Resolves t pos p e × ResolvesAll t pos ps es

  HasTag-Extends :
      (l l' : List TaggedValue) (i : ℕ) (tag : Bytes)
      → Extends l l'
      → HasTag l i tag
      → HasTag l' i tag
  HasTag-Extends l l' i tag h (tv, at, eq) = (tv, h i tv at, eq)

  Resolves-Extend :
      {t t' : Tables} {pos : ℕ} {p : FileObjPair} {e : SearchRstEntry}
      → TablesExtend t t'
      → Resolves t pos p e
      → Resolves t' pos p e
  Resolves-Extend h r = record {
    at_bucket = r.at_bucket;
    at_file = HasTag-Extends _ _ _ _ h.files_kept r.at_file;
    at_object = HasTag-Extends _ _ _ _ h.objects_kept r.at_object;
  }

  pub ResolvesAll-Extend :
      (t t' : Tables) (pos : ℕ) (ps : List FileObjPair) (es : List SearchRstEntry)
      → TablesExtend t t'
      → ResolvesAll t pos ps es
      → ResolvesAll t' pos ps es
  ResolvesAll-Extend t t' pos [] [] h r = tt
  ResolvesAll-Extend t t' pos [] (e ∷ es) h r = elim r [ ]
  ResolvesAll-Extend t t' pos (p ∷ ps) [] h r = elim r [ ]
  ResolvesAll-Extend t t' pos (p ∷ ps) (e ∷ es) h r =
      (Resolves-Extend h r.0, ResolvesAll-Extend t t' pos ps es h r.1)

  ResolvesAll-snoc :
      (t : Tables) (pos : ℕ) (ps : List FileObjPair) (es : List SearchRstEntry) {p : FileObjPair}
      {e : SearchRstEntry}
      → ResolvesAll t pos ps es
      → Resolves t pos p e
      → ResolvesAll t pos (ps ++ p ∷ []) (es ++ e ∷ [])
  ResolvesAll-snoc t pos [] [] r q = (q, tt)
  ResolvesAll-snoc t pos [] (e ∷ es) r q = elim r [ ]
  ResolvesAll-snoc t pos (p ∷ ps) [] r q = elim r [ ]
  ResolvesAll-snoc t pos (p ∷ ps) (e ∷ es) r q = (r.0, ResolvesAll-snoc t pos ps es r.1 q)

  pub TablesExtend-refl : (t : Tables) → TablesExtend t t
  TablesExtend-refl t = record { files_kept = λ i tv e. e; objects_kept = λ i tv e. e }

  pub TablesExtend-trans : {t u v : Tables} → TablesExtend t u → TablesExtend u v → TablesExtend t v
  TablesExtend-trans h k = record {
    files_kept = λ i tv e. k.files_kept i tv (h.files_kept i tv e);
    objects_kept = λ i tv e. k.objects_kept i tv (h.objects_kept i tv e);
  }

  -- A pushed pair stands for the two paths, behind those that the list stood for.
  pub push_pair-ResolvesAll :
      (pos : ℕ) (file object : Bytes) (leaf : ValueLeaf) (t : Tables) (es : List SearchRstEntry)
      → AreTables t
      → ResolvesAll t pos (list_items leaf.file_obj_pair_list) es
      → let r : ValueLeaf × Tables = push_pair pos file object leaf t in
        AreTables r.1
        × TablesExtend t r.1
        × ResolvesAll r.1 pos (list_items r.0.file_obj_pair_list) (es ++ entry file object ∷ [])
  unfolding push_pair
  push_pair-ResolvesAll pos file object leaf t es h r =
      let (ft, fe, fh) = insert_tagged_value-HasTag t.files file h.files_table in
      let (ot, oe, oh) = insert_tagged_value-HasTag t.objects object h.objects_table in
      let t' : Tables = record {
        files = (insert_tagged_value t.files file).1;
        objects = (insert_tagged_value t.objects object).1;
      } in
      let ext : TablesExtend t t' = record { files_kept = fe; objects_kept = oe } in
      (
        record { files_table = ft; objects_table = ot },
        ext,
        rw items-push (
            ResolvesAll-snoc t' pos _ es (ResolvesAll-Extend t t' pos _ es ext r)
              (record { at_bucket = refl; at_file = fh; at_object = oh })),
      )

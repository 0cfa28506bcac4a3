-- ===== src/Mdb/Copied.antt =====
-- A bucket that is read back stands for the same facts.
use miqs.Prelude.{
  ℕ, ◌≡◌, refl, sym, ap, ◌∙◌, Option, none, some, List, [], ◌∷◌, Bytes, map, get_elem?, CopiedIn,
  CopiedIn-none, CopiedIn-some, CopiedIn-missing,
}
use mathlib.Core.Path.{subst}
use mathlib.Core.Option.{some-injective}
use miqs.Containers.{Containers}
use miqs.Index.State.{FileObjPair, ValueLeaf, AttrLeaf, Tables}
use miqs.Index.Log.{Fact}
use miqs.Index.Paths.{IsTable}
use miqs.Index.Pairs.{AreTables, TablesExtend, ResolvesAll, ResolvesAll-Extend}
use miqs.Index.Numeric.{Holds, pairs_of}
use miqs.Index.Bucket.{LeafHolds, BucketHolds}
use miqs.Query.{SearchRstEntry}
use miqs.Mdb.PairLists.{unbucketed}
use miqs.Mdb.Values.{SamePairs}
use miqs.Mdb.Names.{SameLeaf}

module _ ⦃c : Containers⦄ where
  open c use {list_items, Rbt, rbt_find, Art, art_search}

  -- Two pairs of tables with the same paths.
  pub record SameTables (t t' : Tables) : Type 0 where
    pub files : list_items t'.files ≡ list_items t.files
    pub objects : list_items t'.objects ≡ list_items t.objects

  same-AreTables : {t t' : Tables} → SameTables t t' → AreTables t → AreTables t'
  same-AreTables s h = record {
    files_table = subst IsTable (sym s.files) h.files_table;
    objects_table = subst IsTable (sym s.objects) h.objects_table;
  }

  same-TablesExtend : {t t' : Tables} → SameTables t t' → TablesExtend t t'
  same-TablesExtend {t} {t'} s = record {
    files_kept = λ i tv e. ap (λ l. get_elem? l i) s.files ∙ e;
    objects_kept = λ i tv e. ap (λ l. get_elem? l i) s.objects ∙ e;
  }

  unbucketed-ResolvesAll :
      (t : Tables) (ps : List FileObjPair) (es : List SearchRstEntry)
      → ResolvesAll t 0 ps es
      → ResolvesAll t 0 (map unbucketed ps) es
  unbucketed-ResolvesAll t [] [] h = tt
  unbucketed-ResolvesAll t [] (e ∷ es) h = h
  unbucketed-ResolvesAll t (p ∷ ps) [] h = h
  unbucketed-ResolvesAll t (p ∷ ps) (e ∷ es) (r, h) = (
    record { at_bucket = refl; at_file = r.at_file; at_object = r.at_object },
    unbucketed-ResolvesAll t ps es h,
  )

  copied-ResolvesAll :
      (t t' : Tables) (es : List SearchRstEntry) (old found : Option ValueLeaf)
      → SameTables t t'
      → CopiedIn SamePairs none old found
      → ResolvesAll t 0 (pairs_of old) es
      → ResolvesAll t' 0 (pairs_of found) es
  copied-ResolvesAll t t' es none found s e h =
      rw e (ResolvesAll-Extend t t' 0 [] es (same-TablesExtend s) h)
  copied-ResolvesAll t t' es (some v) found s (w, e, same) h =
      rw (e, same)
        (unbucketed-ResolvesAll t' _ es (ResolvesAll-Extend t t' 0 _ es (same-TablesExtend s) h))

  copied-LeafHolds :
      (t t' : Tables) (leaf leaf' : AttrLeaf) (ent : ℕ → List SearchRstEntry)
      → SameTables t t'
      → SameLeaf leaf leaf'
      → LeafHolds t 0 leaf ent
      → LeafHolds t' 0 leaf' ent
  copied-LeafHolds t t' leaf leaf' ent s l h =
      let same_tree : h.tree ≡ l.tree =
        some-injective h.tree l.tree (sym h.has_tree ∙ l.before.has_tree) in
      let holds : Holds t 0 l.tree ent = subst (λ x. Holds t 0 x ent) same_tree h.holds in
      record {
        tree = l.tree';
        has_tree = l.after.has_tree;
        numeric = l.after.numeric;
        not_float = l.after.not_float;
        holds = record {
          int_tree = l.after.int_tree;
          at_value = λ v.
              copied-ResolvesAll t t' (ent v) (rbt_find l.tree v) (rbt_find l.tree' v) s (l.same v)
                (holds.at_value v);
          no_empty = λ v e. CopiedIn-none SamePairs _ (l.same v) (holds.no_empty v e);
        };
      }

  pub copied-BucketHolds :
      (width : ℕ) (art art' : Art AttrLeaf) (t t' : Tables) (log : List Fact)
      → SameTables t t'
      → ((k : Bytes) → CopiedIn SameLeaf none (art_search art k) (art_search art' k))
      → BucketHolds width art t 0 log
      → BucketHolds width art' t' 0 log
  copied-BucketHolds width art art' t t' log s copied h = record {
    tables = same-AreTables s h.tables;
    at_name = λ name leaf' en found.
        let (leaf, was, same) = CopiedIn-some SameLeaf leaf' _ _ (copied name) found in
        copied-LeafHolds t t' leaf leaf' _ s same (h.at_name name leaf en was);
    at_no_name = λ name en missing v.
        h.at_no_name name en (CopiedIn-missing SameLeaf _ _ (copied name) missing) v;
  }

-- ===== src/Query/Sharing/Now.antt =====
-- A search that reads everything of the index at one moment, the present one.
use mathlib.Core.Path.{subst}
use mathlib.Core.Option.{some-injective}
use mathlib.Core.List.{Memᴰ}
use miqs.Containers.{Containers}
use miqs.Prelude.{
  ℕ, ◌≤◌, ◌≡◌, refl, sym, ap, ◌∙◌, some, List, [], ◌∷◌, ◌++◌, length, drop, bind-eq-some,
}
use miqs.Index.State.{FileObjPair, Anchor}
use miqs.Query.{
  SearchRstEntry, PowerSearchRst, collect_result_from_list, collect_results, exact_metadata_search,
  attribute_value_search,
}
use miqs.Query.Sharing.{Search, Shared, ReadPairs, ReadAnswer, indices_since}
use miqs.Query.Sharing.Kept.{drop-snoc}

Mem-snoc {ℓ} : {A : Type ℓ} (xs : List A) (x : A) → Memᴰ x (xs ++ x ∷ [])
Mem-snoc [] x = Memᴰ.head refl
Mem-snoc (y ∷ xs) x = Memᴰ.tail (Mem-snoc xs x)

module _ ⦃c : Containers⦄ where
  now-ReadPairs :
      (moments : List Anchor) (x : Anchor) (ps : List FileObjPair) (es : List SearchRstEntry)
      → Memᴰ x moments
      → collect_results x ps ≡ some es
      → ReadPairs moments ps es
  unfolding collect_results
  now-ReadPairs moments x [] [] m e = tt
  now-ReadPairs moments x [] (y ∷ es) m e = cc e
  now-ReadPairs moments x (p ∷ ps) es m e =
      let (entry, e1, more) = bind-eq-some (collect_result_from_list x p) _ e in
      let (entries, e2, end) = bind-eq-some (collect_results x ps) _ more in
      subst (ReadPairs moments (p ∷ ps)) (some-injective (entry ∷ entries) es end)
        ((x, m, e1), now-ReadPairs moments x ps entries m e2)

  -- A search that reads all at once, now.
  pub read_now :
      (s : Shared) (since : ℕ) (search : Search) (rst : PowerSearchRst)
      → since ≤ length s.past
      → exact_metadata_search s.indexing.index search.attr_name search.attribute_value ≡ some rst
      → ReadAnswer (indices_since s since) search rst
  unfolding exact_metadata_search indices_since
  read_now s since search rst early e =
      let x : Anchor = s.indexing.index in
      let (node, found, e1) =
        bind-eq-some (attribute_value_search x search.attr_name search.attribute_value) _ e in
      let (leaf, is_leaf, e2) = bind-eq-some node _ e1 in
      let (entries, collected, e3) = bind-eq-some (collect_results x _) _ e2 in
      let answer = some-injective _ rst e3 in
      let now : Memᴰ x (indices_since s since) =
        subst (Memᴰ x) (sym (drop-snoc since s.past x early)) (Mem-snoc (drop since s.past) x) in
      record {
        moment = x;
        at_moment = now;
        leaf = leaf;
        found = found ∙ ap some is_leaf;
        size = ap (λ r. r.size) (sym answer);
        pairs =
            subst (ReadPairs (indices_since s since) _) (ap (λ r. r.rst_arr) answer)
              (now-ReadPairs (indices_since s since) x _ entries now collected);
      }

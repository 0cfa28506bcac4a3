-- ===== src/Containers/Assoc.antt =====
-- An instance of the containers over plain lists: the laws can be met, and the tests run on it.
use miqs.Prelude.{
  ℕ, zero, suc, ◌≡◌, refl, ap, some, List, [], ◌∷◌, ◌++◌, Bytes, length, get_elem?, ◌==◌, str_eq,
  if◌then◌else◌, arith, str_eq_iff, ==_iff, sym, find_item, first_items, find_item-first_items,
  first_items-AreDistinct,
}
use miqs.Containers.{Containers, KeyKind, find_tag}

-- At position 0 in front, past the end at the end; the libraries fill the gap with empty entries.
abbrev insert_at {ℓ} : {A : Type ℓ} → List A → A → ℕ → List A
insert_at xs a zero = a ∷ xs
insert_at [] a (suc i) = a ∷ []
insert_at (x ∷ xs) a (suc i) = x ∷ insert_at xs a i

pub insert_at_end {ℓ} :
    {A : Type ℓ} (xs : List A) (a : A) → insert_at xs a (length xs) ≡ xs ++ a ∷ []
insert_at_end [] a = refl
insert_at_end (x ∷ xs) a = ap (◌∷◌ x) (insert_at_end xs a)

module _ {V : Type 0} where
  abbrev art_put : List (Bytes × V) → Bytes → V → List (Bytes × V)
  art_put [] k v = (k, v) ∷ []
  art_put ((j, w) ∷ t) k v = if str_eq j k then (k, v) ∷ t else (j, w) ∷ art_put t k v

  pub find_item-art_put :
      (t : List (Bytes × V)) (k j : Bytes) (v : V)
      → find_item str_eq j (art_put t k v) ≡ (if str_eq k j then some v else find_item str_eq j t)
  find_item-art_put [] k j v = refl
  find_item-art_put ((i, w) ∷ t) k j v =
      ground (arith, str_eq_iff i k, str_eq_iff i j, str_eq_iff k j, find_item-art_put t k j v)

  abbrev rbt_put : List (ℕ × V) → ℕ → V → List (ℕ × V)
  rbt_put [] k v = (k, v) ∷ []
  rbt_put ((j, w) ∷ t) k v = if j == k then (k, v) ∷ t else (j, w) ∷ rbt_put t k v

  pub find_item-rbt_put :
      (t : List (ℕ × V)) (k j : ℕ) (v : V)
      → find_item ◌==◌ j (rbt_put t k v) ≡ (if k == j then some v else find_item ◌==◌ j t)
  find_item-rbt_put [] k j v = refl
  find_item-rbt_put ((i, w) ∷ t) k j v = ground (arith, find_item-rbt_put t k j v)

instance abbrev pub assoc : Containers
assoc = record {
  Lst = List;
  list_create = [];
  list_push_value = λ l a. l ++ a ∷ [];
  list_insert = insert_at;
  list_count = length;
  list_pick = get_elem?;
  list_get_tagged_value = λ l tag. find_tag tag l;
  list_items = λ l. l;
  items-create = refl;
  items-push = λ l a. refl;
  items-insert_end = insert_at_end;
  count-items = λ l. refl;
  pick-items = λ l i. refl;
  get_tagged-items = λ l tag. refl;
  Art = λ V. List (Bytes × V);
  art_tree_init = [];
  art_search = λ t k. find_item str_eq k t;
  art_insert = art_put;
  art_iter_size = λ t. length (first_items str_eq t);
  art_items = first_items str_eq;
  items-init = refl;
  search-init = λ k. refl;
  search-insert = find_item-art_put;
  search-items = λ t k. sym (find_item-first_items str_eq str_eq_iff k t);
  items-AreDistinct = λ t. first_items-AreDistinct str_eq str_eq_iff t;
  iter_size-items = λ t. refl;
  Rbt = λ V. KeyKind × List (ℕ × V);
  rbt_create = λ kind. (kind, []);
  rbt_find = λ t k. find_item ◌==◌ k t.1;
  rbt_add = λ t k v. (t.0, rbt_put t.1 k v);
  rbt_keys = λ t. t.0;
  rbt_items = λ t. first_items ◌==◌ t.1;
  keys-create = λ k. refl;
  keys-add = λ t k v. refl;
  find-create = λ kind k. refl;
  find-add = λ t k j v h. find_item-rbt_put t.1 k j v;
  find-items = λ t k h. sym (find_item-first_items ◌==◌ ==_iff k t.1);
  numbers-AreDistinct = λ t h. first_items-AreDistinct ◌==◌ ==_iff t.1;
}

-- ===== src/Containers.antt =====
-- The containers that the index is built on, as an interface: the linked list and the red-black tree
-- of src/index/libhl and the adaptive radix tree of src/index/art, which are other projects'
-- libraries. A field is a call that the index makes, or one of the two views `list_items` and
-- `art_items`, the items in the order in which `list_foreach_value` and `art_iter` visit them.
-- The laws are what those libraries document of the calls.
pub mod Assoc
use miqs.Prelude.{
  ℕ, ◌<◌, ◌≡◌, Option, none, some, List, [], ◌∷◌, ◌++◌, Bytes, length, get_elem?, ◌==◌, str_eq,
  if◌then◌else◌, find_item, AreDistinct,
}

-- The comparators that the index hands to `rbt_create`: `libhl_cmp_keys_int` and
-- `libhl_cmp_keys_double`. A key is the pattern of the number.
pub data KeyKind : Type 0 where
  int_keys double_keys : KeyKind

-- `tagged_value_t`: here the value is always a position.
pub record TaggedValue : Type 0 where
  pub tag : Bytes
  pub value : ℕ

-- The first item with the tag.
abbrev pub find_tag : Bytes → List TaggedValue → Option TaggedValue
find_tag tag [] = none
find_tag tag (tv ∷ l) = if str_eq tv.tag tag then some tv else find_tag tag l

pub record Containers : Type 1 where
  pub Lst : Type 0 → Type 0
  pub list_create : {A : Type 0} → Lst A
  pub list_push_value : {A : Type 0} → Lst A → A → Lst A
  -- `list_insert_tagged_value`, with the item and the position
  pub list_insert : {A : Type 0} → Lst A → A → ℕ → Lst A
  pub list_count : {A : Type 0} → Lst A → ℕ
  pub list_pick : {A : Type 0} → Lst A → ℕ → Option A
  pub list_get_tagged_value : Lst TaggedValue → Bytes → Option TaggedValue
  pub list_items : {A : Type 0} → Lst A → List A
  pub items-create : {A : Type 0} → list_items (list_create {A = A}) ≡ []
  pub items-push :
      {A : Type 0} (l : Lst A) (a : A) → list_items (list_push_value l a) ≡ list_items l ++ a ∷ []
  pub items-insert_end :
      {A : Type 0} (l : Lst A) (a : A)
      → list_items (list_insert l a (length (list_items l))) ≡ list_items l ++ a ∷ []
  pub count-items : {A : Type 0} (l : Lst A) → list_count l ≡ length (list_items l)
  pub pick-items : {A : Type 0} (l : Lst A) (i : ℕ) → list_pick l i ≡ get_elem? (list_items l) i
  pub get_tagged-items :
      (l : Lst TaggedValue) (tag : Bytes)
      → list_get_tagged_value l tag ≡ find_tag tag (list_items l)
  pub Art : Type 0 → Type 0
  pub art_tree_init : {V : Type 0} → Art V
  pub art_search : {V : Type 0} → Art V → Bytes → Option V
  pub art_insert : {V : Type 0} → Art V → Bytes → V → Art V
  pub art_iter_size : {V : Type 0} → Art V → ℕ
  pub art_items : {V : Type 0} → Art V → List (Bytes × V)
  pub items-init : {V : Type 0} → art_items (art_tree_init {V = V}) ≡ []
  pub search-init : {V : Type 0} (k : Bytes) → art_search (art_tree_init {V = V}) k ≡ none
  pub search-insert :
      {V : Type 0} (t : Art V) (k j : Bytes) (v : V)
      → art_search (art_insert t k v) j ≡ (if str_eq k j then some v else art_search t j)
  -- A walk visits each entry once.
  pub search-items :
      {V : Type 0} (t : Art V) (k : Bytes) → art_search t k ≡ find_item str_eq k (art_items t)
  pub items-AreDistinct : {V : Type 0} (t : Art V) → AreDistinct str_eq (art_items t)
  pub iter_size-items : {V : Type 0} (t : Art V) → art_iter_size t ≡ length (art_items t)
  pub Rbt : Type 0 → Type 0
  pub rbt_create : {V : Type 0} → KeyKind → Rbt V
  pub rbt_find : {V : Type 0} → Rbt V → ℕ → Option V
  pub rbt_add : {V : Type 0} → Rbt V → ℕ → V → Rbt V
  pub rbt_keys : {V : Type 0} → Rbt V → KeyKind
  pub rbt_items : {V : Type 0} → Rbt V → List (ℕ × V)
  pub keys-create : {V : Type 0} (k : KeyKind) → rbt_keys (rbt_create {V = V} k) ≡ k
  pub keys-add : {V : Type 0} (t : Rbt V) (k : ℕ) (v : V) → rbt_keys (rbt_add t k v) ≡ rbt_keys t
  pub find-create :
      {V : Type 0} (kind : KeyKind) (k : ℕ) → rbt_find (rbt_create {V = V} kind) k ≡ none
  pub find-add :
      {V : Type 0} (t : Rbt V) (k j : ℕ) (v : V)
      → rbt_keys t ≡ int_keys
      → rbt_find (rbt_add t k v) j ≡ (if k == j then some v else rbt_find t j)
  pub find-items :
      {V : Type 0} (t : Rbt V) (k : ℕ)
      → rbt_keys t ≡ int_keys
      → rbt_find t k ≡ find_item ◌==◌ k (rbt_items t)
  pub numbers-AreDistinct :
      {V : Type 0} (t : Rbt V) → rbt_keys t ≡ int_keys → AreDistinct ◌==◌ (rbt_items t)

-- ===== src/Index/Paths.antt =====
-- The tables of paths: a path keeps the position at which it was entered.
use miqs.Prelude.{
  ℕ, zero, suc, ◌≡◌, refl, sym, ap, ◌∙◌, none, some, List, [], ◌∷◌, ◌++◌, Bytes, length, get_elem?,
  get_elem?-append_left, get_elem?-append_length, lt-length-get_elem?, str_eq, str_eq_iff, arith,
  ◌⊎◌, inl, inr, Option-cases, Bool-cases,
}
use miqs.Containers.{Containers, TaggedValue, find_tag}
use miqs.Index.Values.{insert_tagged_value}

-- Each entry of a table names its own position.
abbrev pub IsTable : List TaggedValue → Type 0
IsTable l = (i : ℕ) (tv : TaggedValue) → get_elem? l i ≡ some tv → tv.value ≡ i

-- The table has the tag at a position.
abbrev pub HasTag : List TaggedValue → ℕ → Bytes → Type 0
HasTag l i tag = (tv : TaggedValue) × (get_elem? l i ≡ some tv) × (tv.tag ≡ tag)

-- What the first table has, the second has too.
abbrev pub Extends : List TaggedValue → List TaggedValue → Type 0
Extends l l' = (i : ℕ) (tv : TaggedValue) → get_elem? l i ≡ some tv → get_elem? l' i ≡ some tv

find_tag-position :
    (tag : Bytes) (l : List TaggedValue) {tv : TaggedValue}
    → find_tag tag l ≡ some tv
    → (i : ℕ) × (get_elem? l i ≡ some tv) × (tv.tag ≡ tag)
find_tag-position tag [] h = cc
find_tag-position tag (x ∷ l) h = elim (Bool-cases (str_eq x.tag tag)) [
  | inl same ↦ (0, ground arith, ground (arith, str_eq_iff x.tag tag))
  | inr other ↦ let (i, at, eq) = find_tag-position tag l (ground arith) in (suc i, at, eq)
]

get_elem?-snoc {ℓ} :
    {A : Type ℓ} (l : List A) (x : A) (i : ℕ) {y : A}
    → get_elem? (l ++ x ∷ []) i ≡ some y
    → (get_elem? l i ≡ some y) ⊎ ((i ≡ length l) × (x ≡ y))
get_elem?-snoc [] x zero e = inr (refl, ground arith)
get_elem?-snoc [] x (suc i) e = cc
get_elem?-snoc (z ∷ l) x zero e = inl e
get_elem?-snoc (z ∷ l) x (suc i) e = elim (get_elem?-snoc l x i e) [
  | inl old ↦ inl old
  | inr (at, eq) ↦ inr (ap suc at, eq)
]

IsTable-append :
    (l : List TaggedValue) (tag : Bytes)
    → IsTable l
    → IsTable (l ++ (record { tag = tag; value = length l }) ∷ [])
IsTable-append l tag h i tv e = elim (get_elem?-snoc l _ i e) [
  | inl old ↦ h i tv old
  | inr (at, eq) ↦ ap TaggedValue.value (sym eq) ∙ sym at
]

Extends-append : (l : List TaggedValue) (tv : TaggedValue) → Extends l (l ++ tv ∷ [])
Extends-append l tv i x e = get_elem?-append_left l (tv ∷ []) i (lt-length-get_elem? l i e) ∙ e

module _ ⦃c : Containers⦄ where
  open c use {
    Lst, list_get_tagged_value, list_count, list_insert, list_items, items-insert_end, count-items,
    get_tagged-items,
  }

  insert_old :
      (l : Lst TaggedValue) (tag : Bytes) (tv : TaggedValue)
      → find_tag tag (list_items l) ≡ some tv
      → insert_tagged_value l tag ≡ (tv.value, l)
  unfolding insert_tagged_value
  insert_old l tag tv e = rw (get_tagged-items l tag ∙ e, insert_tagged_value)

  insert_new :
      (l : Lst TaggedValue) (tag : Bytes)
      → find_tag tag (list_items l) ≡ none
      → ((insert_tagged_value l tag).0 ≡ length (list_items l))
        × (list_items (insert_tagged_value l tag).1
            ≡ list_items l ++ (record { tag = tag; value = length (list_items l) }) ∷ [])
  unfolding insert_tagged_value
  insert_new l tag e =
      rw (get_tagged-items l tag ∙ e, insert_tagged_value, count-items l)
        (refl, items-insert_end l _)

  -- `insert_tagged_value` keeps the table well-formed and all that it has, and returns a position at
  -- which the table then has the tag.
  pub insert_tagged_value-HasTag :
      (l : Lst TaggedValue) (tag : Bytes)
      → IsTable (list_items l)
      → IsTable (list_items (insert_tagged_value l tag).1)
        × Extends (list_items l) (list_items (insert_tagged_value l tag).1)
        × HasTag (list_items (insert_tagged_value l tag).1) (insert_tagged_value l tag).0 tag
  insert_tagged_value-HasTag l tag h = elim (Option-cases (find_tag tag (list_items l))) [
    | inr (tv, e) ↦
        let (i, at, eq) = find_tag-position tag (list_items l) e in
        rw (insert_old l tag tv e)
          (h, λ j x q. q, (tv, ap (get_elem? (list_items l)) (h i tv at) ∙ at, eq))
    | inl e ↦
        let (pos, items) = insert_new l tag e in
        rw (items, pos)
          (
            IsTable-append (list_items l) tag h,
            Extends-append (list_items l) _,
            (_, get_elem?-append_length (list_items l) _ [], refl),
          )
  ]

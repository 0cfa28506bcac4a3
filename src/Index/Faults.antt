-- ===== src/Index/Faults.antt =====
-- Faults of `create_in_mem_index_for_attr`.
use miqs.Prelude.{
  ℕ, ◌≡◌, refl, Option, none, List, ◌∷◌, Bytes, get_elem?, Option-cases, Bool-cases, inl, inr, ◌==◌,
}
use miqs.Containers.{Containers}
use miqs.Index.State.{AttrLeaf, Tables, Attribute, Anchor, int_values}
use miqs.Index.Values.{indexing_numeric}
use miqs.Index.Build.{bucket_of, index_values, create_in_mem_index_for_attr}

module _ ⦃c : Containers⦄ where
  -- Where the values of an attribute cannot be indexed, it cannot be.
  pub create-index_values :
      (a : Anchor) (duration : ℕ) (attr : Attribute)
      → ((pos : ℕ) (leaf : AttrLeaf) (t : Tables)
          → index_values pos attr.attribute_value attr.file_path_str attr.obj_path_str leaf t
            ≡ none)
      → create_in_mem_index_for_attr duration a attr ≡ none
  unfolding create_in_mem_index_for_attr
  create-index_values a duration attr fault =
      elim (Option-cases (bucket_of attr.attr_name a.parallelism)) [
        | inl n ↦ rw n refl
        | inr (pos, eb) ↦ elim (Option-cases (get_elem? a.root_art_array pos)) [
          | inl n ↦ rw (eb, n) refl
          | inr (art, ea) ↦ elim (Option-cases (get_elem? a.file_paths_list pos)) [
            | inl n ↦ rw (eb, ea, n) refl
            | inr (f, ef) ↦ elim (Option-cases (get_elem? a.object_paths_list pos)) [
              | inl n ↦ rw (eb, ea, ef, n) refl
              | inr (o, eo) ↦ rw (eb, ea, ef, eo, fault pos) refl
            ]
          ]
        ]
      ]

  -- An array of integers needs the path of an object.
  pub index_values-no_object :
      (pos v : ℕ) (vs : List ℕ) (file_path : Option Bytes) (leaf : AttrLeaf) (t : Tables)
      → index_values pos (int_values (v ∷ vs)) file_path none leaf t ≡ none
  unfolding index_values indexing_numeric
  index_values-no_object pos v vs file_path leaf t = elim (Bool-cases (0 == leaf.is_float)) [
    | inr e ↦ rw e refl
    | inl e ↦ elim (Option-cases leaf.rbt) [
      | inl f ↦ rw (e, f) refl
      | inr (r, f) ↦ elim (Option-cases file_path) [
        | inl g ↦ rw (e, f, g) refl
        | inr (p, g) ↦ rw (e, f, g) refl
      ]
    ]
  ]

-- ===== src/Index/Buckets.antt =====
-- `create_in_mem_index_for_attr` works under the lock of one bucket. What it does in its bucket.
use mathlib.Core.Option
use mathlib.Core.Option.{some_inj}
use miqs.Containers.{Containers}
use miqs.Prelude.{
  ℕ, ◌+◌, ◌≡◌, ◌≢◌, refl, Option, some, get_elem?, set, get_elem?-set_ne, ◌>>=◌, Option-cases, inl,
  inr, if◌then◌else◌,
}
use miqs.Index.State.{AttrLeaf, Tables, Attribute, Anchor, attr_type}
use miqs.Index.Build.{bucket_of, find_leaf, index_values, create_in_mem_index_for_attr}

module _ ⦃c : Containers⦄ where
  open c use {Lst, Art, art_insert}

  -- What one bucket holds.
  pub record Bucket : Type 0 where
    pub art : Art AttrLeaf
    pub tables : Tables

  unfoldable pub read_bucket : Anchor → ℕ → Option Bucket
  read_bucket a pos = do
    art ← get_elem? a.root_art_array pos
    files ← get_elem? a.file_paths_list pos
    objects ← get_elem? a.object_paths_list pos
    some (record { art = art; tables = record { files = files; objects = objects } })

  -- The step on the bucket alone.
  unfoldable pub change : ℕ → Attribute → Bucket → Option Bucket
  change pos attr b = do
    let (leaf, art, held) = find_leaf b.art attr.attr_name (attr_type attr.attribute_value)
    (leaf', t) ←
        index_values pos attr.attribute_value attr.file_path_str attr.obj_path_str leaf b.tables
    some (record { art = if held then art_insert art attr.attr_name leaf' else art; tables = t })

  unfoldable pub write_bucket : Anchor → ℕ → ℕ → Bucket → Anchor
  write_bucket a duration pos b = record a {
    root_art_array = set a.root_art_array pos b.art;
    file_paths_list = set a.file_paths_list pos b.tables.files;
    object_paths_list = set a.object_paths_list pos b.tables.objects;
    us_to_index = a.us_to_index + duration;
  }

  pub create_eq :
      (duration : ℕ) (a : Anchor) (attr : Attribute) (pos : ℕ)
      → bucket_of attr.attr_name a.parallelism ≡ some pos
      → create_in_mem_index_for_attr duration a attr
        ≡ Option.map (write_bucket a duration pos) (read_bucket a pos >>= change pos attr)
  unfolding create_in_mem_index_for_attr read_bucket change write_bucket
  create_eq duration a attr pos e = elim (Option-cases (get_elem? a.root_art_array pos)) [
    | inl n ↦ rw (e, n) refl
    | inr (art, ea) ↦ elim (Option-cases (get_elem? a.file_paths_list pos)) [
      | inl n ↦ rw (e, ea, n) refl
      | inr (f, ef) ↦ elim (Option-cases (get_elem? a.object_paths_list pos)) [
        | inl n ↦ rw (e, ea, ef, n) refl
        | inr (o, eo) ↦
            let leaf : AttrLeaf =
              (find_leaf art attr.attr_name (attr_type attr.attribute_value)).0 in
            elim (Option-cases (
              index_values pos attr.attribute_value attr.file_path_str attr.obj_path_str leaf
                (record { files = f; objects = o }))) [
                  | inl n ↦ rw (e, ea, ef, eo, n) refl
                  | inr (r, er) ↦ rw (e, ea, ef, eo, er) refl
                ]
      ]
    ]
  ]

  pub read-write_bucket :
      (a : Anchor) (duration p q : ℕ) (b : Bucket)
      → p ≢ q
      → read_bucket (write_bucket a duration p b) q ≡ read_bucket a q
  unfolding read_bucket write_bucket
  read-write_bucket a duration p q b ne =
      rw
        (
          get_elem?-set_ne a.root_art_array p q b.art ne,
          get_elem?-set_ne a.file_paths_list p q b.tables.files ne,
          get_elem?-set_ne a.object_paths_list p q b.tables.objects ne,
        )
        refl

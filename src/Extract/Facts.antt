-- ===== src/Extract/Facts.antt =====
-- What the index stands for after an HDF5 file of integer attributes.
use miqs.Containers.{Containers}
use mathlib.Core.Path.{subst}
use miqs.Prelude.{
  ℕ, ◌+◌, ◌*◌, ◌^◌, ◌<◌, ◌≡◌, refl, sym, ap, ◌∙◌, true, false, some, List, [], ◌∷◌, ◌++◌, Bytes,
  length, map, ltb, if◌then◌else◌, All, arith, Bool-cases, inl, inr, append-nil, take-append_left,
  drop-append_left, length-append,
}
use miqs.Storage.Words.{le_bytes, length-le_bytes, of_le_bytes-le_bytes}
use miqs.Extract.{
  H5Attribute, h5_integer, H5Object, h5_dataset, H5File, elements, read_int_attr, read_attr,
}
use miqs.Index.State.{Anchor, int_values, no_stream}
use miqs.Index.Build.{create_in_mem_index_for_attr}
use miqs.Index.Log.{Fact, facts_of}
use miqs.Index.Refines.{same-Represents, int_attribute, Represents, stored, create-stored}
use miqs.Index.Aof.{indexing_attr, build_index, log_attr}

-- An object and its attributes: names, and arrays of 32-bit patterns.
pub record IntObject : Type 0 where
  pub name : Bytes
  pub attrs : List (Bytes × List ℕ)

unfoldable pub int_bytes : List ℕ → Bytes
int_bytes [] = []
int_bytes (v ∷ vs) = le_bytes 4 v ++ int_bytes vs

-- The file that holds them.
abbrev pub h5_attr : Bytes × List ℕ → H5Attribute
h5_attr (name, vs) = record {
  name = name;
  npoints = length vs;
  content = h5_integer (int_bytes vs);
}

abbrev pub h5_object : IntObject → H5Object
h5_object obj = record { name = obj.name; type = h5_dataset; attributes = map h5_attr obj.attrs }

abbrev pub h5_file : List IntObject → H5File
h5_file objs = record { objects = map h5_object objs; links = [] }

abbrev pub Fit32 : IntObject → Type 0
Fit32 obj = All (λ a. All (λ v. v < 2 ^ 32) a.1) obj.attrs

length-int_bytes : (vs : List ℕ) → length (int_bytes vs) ≡ 4 * length vs
unfolding int_bytes
length-int_bytes [] = omega arith
length-int_bytes (v ∷ vs) =
    omega
      (arith, length-append (le_bytes 4 v) (int_bytes vs), length-le_bytes 4 v, length-int_bytes vs)

elements-int_bytes :
    (vs : List ℕ) → All (λ v. v < 2 ^ 32) vs → elements 4 (length vs) (int_bytes vs) ≡ vs
unfolding elements int_bytes
elements-int_bytes [] h = refl
elements-int_bytes (v ∷ vs) (h, hs) =
    rw
      (
        take-append_left 4 (le_bytes 4 v) (int_bytes vs) (length-le_bytes 4 v),
        drop-append_left 4 (le_bytes 4 v) (int_bytes vs) (length-le_bytes 4 v),
        of_le_bytes-le_bytes 4 v h,
        elements-int_bytes vs hs,
      )
      refl

not_below : (n : ℕ) → ltb n n ≡ false
not_below n = ground arith

pub read_attr-h5_attr :
    (name : Bytes) (vs : List ℕ)
    → All (λ v. v < 2 ^ 32) vs
    → read_attr (h5_attr (name, vs)) ≡ some (int_values vs)
unfolding read_attr read_int_attr
read_attr-h5_attr name vs h =
    rw (length-int_bytes vs, elements-int_bytes vs h, not_below (4 * length vs)) refl

module _ ⦃c : Containers⦄ where
  -- The facts of the attributes that are to be indexed, under the path of one object.
  unfoldable pub attr_facts : List Bytes → Bytes → Bytes → List (Bytes × List ℕ) → List Fact
  attr_facts fields file path [] = []
  attr_facts fields file path ((name, vs) ∷ attrs) =
      (if build_index name fields then facts_of name vs file path else [])
      ++ attr_facts fields file path attrs

  -- The facts of a file. The attributes of an object are under the path of the object before it, and
  -- those of the first under the path given.
  unfoldable pub scan_facts : List Bytes → Bytes → Bytes → List IntObject → List Fact
  unfolding attr_facts
  scan_facts fields file path [] = []
  scan_facts fields file path (obj ∷ objs) =
      attr_facts fields file path obj.attrs ++ scan_facts fields file obj.name objs

  -- What stays while a file is scanned, and where the index stands.
  pub record Stands (fields : List Bytes) (file path : Bytes) (log : List Fact) (a : Anchor)
      : Type 0 where
    pub represents : Represents a log
    pub quiet : a.on_disk_file_stream ≡ no_stream
    pub selected : a.indexed_attr ≡ fields
    pub in_file : a.file_path ≡ some file
    pub in_object : a.obj_path ≡ some path

  abbrev counted_in : Anchor → ℕ → Anchor
  counted_in a len = record a {
    total_num_attrs = a.total_num_attrs + 1;
    total_num_kv_pairs = a.total_num_kv_pairs + len;
  }

  indexing_eq :
      (pointer_text : Bytes → Bytes) (disk duration : ℕ) (file path name : Bytes) (vs : List ℕ)
      (a b : Anchor)
      → build_index name a.indexed_attr ≡ true
      → a.on_disk_file_stream ≡ no_stream
      → create_in_mem_index_for_attr duration
          (counted_in a (length vs))
          (int_attribute name vs file path)
        ≡ some b
      → indexing_attr pointer_text disk duration a (int_attribute name vs file path)
        ≡ some (record b { total_num_indexed_kv_pairs = b.total_num_indexed_kv_pairs + length vs })
  unfolding indexing_attr log_attr
  indexing_eq pt disk duration file path name vs a b named quiet eb = rw (named, quiet, eb) refl

  skipping_eq :
      (pointer_text : Bytes → Bytes) (disk duration : ℕ) (file path name : Bytes) (vs : List ℕ)
      (a : Anchor)
      → build_index name a.indexed_attr ≡ false
      → indexing_attr pointer_text disk duration a (int_attribute name vs file path)
        ≡ some (record a { total_num_attrs = a.total_num_attrs + 1 })
  unfolding indexing_attr
  skipping_eq pt disk duration file path name vs a named = rw named refl

  pub indexing-Stands :
      (pointer_text : Bytes → Bytes) (disk duration : ℕ) (fields : List Bytes)
      (file path name : Bytes) (vs : List ℕ) (log : List Fact) (a : Anchor)
      → Stands fields file path log a
      → (a' : Anchor) × (indexing_attr pointer_text disk duration a
            (int_attribute name vs file path)
          ≡ some a')
        × Stands fields file path
            (log ++ (if build_index name fields then facts_of name vs file path else []))
            a'
  indexing-Stands pt disk duration fields file path name vs log a h =
      let counted : Anchor = counted_in a (length vs) in
      let (pos, art, t, eb, rb) =
        create-stored counted log duration name vs file path
          (same-Represents a counted log refl refl refl refl h.represents) in
      let b : Anchor = stored counted duration pos art t in
      elim (Bool-cases (build_index name fields)) [
        | inl e ↦ (
          record b { total_num_indexed_kv_pairs = b.total_num_indexed_kv_pairs + length vs },
          indexing_eq pt disk duration file path name vs a b (ap (build_index name) h.selected ∙ e)
              h.quiet eb,
          rw e (record {
            represents = same-Represents b _ _ refl refl refl refl rb;
            quiet = h.quiet;
            selected = h.selected;
            in_file = h.in_file;
            in_object = h.in_object;
          }),
        )
        | inr e ↦ (
          record a { total_num_attrs = a.total_num_attrs + 1 },
          skipping_eq pt disk duration file path name vs a (ap (build_index name) h.selected ∙ e),
          rw e (record {
            represents =
                same-Represents a _ _ refl refl refl refl
                  (subst (Represents a) (sym (append-nil log)) h.represents);
            quiet = h.quiet;
            selected = h.selected;
            in_file = h.in_file;
            in_object = h.in_object;
          }),
        )
      ]

-- ===== src/Index/Loading.antt =====
-- Loading an append-only index file: `load_aof`.
use miqs.Prelude.{
  ℕ, ◌<◌, suc, ◌≡◌, refl, true, none, some, [], ◌∷◌, Bytes, length, ◌==◌, Option-cases, Bool-cases,
  inl, inr, arith,
}
use miqs.Storage.Words.{le_bytes}
use miqs.Containers.{Containers}
use miqs.Records.{create_index_record, read_index_record}
use miqs.Records.Layout.{
  Value, int_value, double_value, text_value, Entry, IsEntry, value_type, pointee, record_of,
  layout, read-layout,
}
use miqs.Index.Faults.{create-index_values}
use miqs.Index.State.{AttrLeaf, Tables, Attribute, Anchor, reading}
use miqs.Index.Values.{indexing_numeric}
use miqs.Index.Build.{index_values, create_in_mem_index_for_attr}
use miqs.Index.Aof.{
  record_values, log_attr, build_index, indexing_attr, convert_index_record_to_in_mem_parameters,
  faulted, load_aof_loop, load_aof,
}

-- What `load_aof` makes of a record: an attribute without paths.
abbrev loaded_attr : Entry → Attribute
loaded_attr e = record {
  attr_name = e.name;
  attribute_value = record_values (value_type e.value) (pointee e.value);
  file_path_str = none;
  obj_path_str = none;
}

module _ ⦃c : Containers⦄ where
  index_values_fault :
      (pos : ℕ) (v : Value) (leaf : AttrLeaf) (t : Tables)
      → index_values pos (record_values (value_type v) (pointee v)) none none leaf t ≡ none
  unfolding index_values record_values indexing_numeric
  index_values_fault pos (int_value v) leaf t = elim (Bool-cases (0 == leaf.is_float)) [
    | inl e ↦ elim (Option-cases leaf.rbt) [ inl f ↦ rw (e, f) refl | inr (r, f) ↦ rw (e, f) refl ]
    | inr e ↦ rw e refl
  ]
  index_values_fault pos (double_value v) leaf t = elim (Bool-cases (1 == leaf.is_float)) [
    | inl e ↦ elim (Option-cases leaf.rbt) [ inl f ↦ rw (e, f) refl | inr (r, f) ↦ rw (e, f) refl ]
    | inr e ↦ rw e refl
  ]
  index_values_fault pos (text_value s) leaf t = refl

  create_fault :
      (a : Anchor) (duration : ℕ) (e : Entry)
      → create_in_mem_index_for_attr duration a (loaded_attr e) ≡ none
  create_fault a duration e =
      create-index_values a duration (loaded_attr e) (λ pos. index_values_fault pos e.value)

  -- The index as `load_aof` leaves it for a record.
  abbrev opened : Anchor → Entry → Anchor
  opened a e = record a {
    on_disk_file_stream = reading;
    is_readonly_index_file = 1;
    file_path = some e.file_path;
    obj_path = some e.object_path;
  }

  indexing_fault :
      (pointer_text : Bytes → Bytes) (disk duration : ℕ) (a : Anchor) (e : Entry)
      → build_index e.name a.indexed_attr ≡ true
      → indexing_attr pointer_text disk duration (opened a e) (loaded_attr e) ≡ none
  unfolding indexing_attr log_attr
  indexing_fault pt disk duration a e named = rw (named, create_fault _ duration e) refl

  loop_fault :
      (pointer_text : Bytes → Bytes) (disk duration : ℕ) (e : Entry) (s rest : Bytes) (a : Anchor)
      (fuel count : ℕ)
      → read_index_record s ≡ (some (record_of e), rest)
      → build_index e.name a.indexed_attr ≡ true
      → load_aof_loop
          (suc fuel)
          pointer_text
          disk
          duration
          s
          count
          (record a { on_disk_file_stream = reading; is_readonly_index_file = 1 })
        ≡ faulted
  unfolding load_aof_loop convert_index_record_to_in_mem_parameters record_of create_index_record
  loop_fault pt disk duration e s rest a fuel count read named =
      rw (read, load_aof_loop, indexing_fault pt disk duration a e named) refl

  load_first :
      (pointer_text : Bytes → Bytes) (disk duration : ℕ) (e : Entry) (s rest : Bytes) (a : Anchor)
      → 0 < length s
      → read_index_record s ≡ (some (record_of e), rest)
      → build_index e.name a.indexed_attr ≡ true
      → load_aof pointer_text disk duration (some s) a ≡ faulted
  unfolding load_aof
  load_first pt disk duration e [] rest a h read named = absurd (omega arith)
  load_first pt disk duration e (b ∷ bs) rest a h read named =
      loop_fault pt disk duration e (b ∷ bs) rest a _ 0 read named

  -- On a file that starts with a well-formed record whose name is to be indexed, `load_aof` faults,
  -- whatever the index holds: the paths of the attribute that it makes of the record are never set.
  pub load_aof-layout :
      (pointer_text : Bytes → Bytes) (disk duration : ℕ) (e : Entry) (rest : Bytes) (a : Anchor)
      → IsEntry e
      → build_index e.name a.indexed_attr ≡ true
      → load_aof pointer_text disk duration (some (layout e rest)) a ≡ faulted
  load_aof-layout pt disk duration e rest a h named =
      load_first pt disk duration e (layout e rest) rest a (unfold layout le_bytes in omega arith)
        (read-layout e rest h) named

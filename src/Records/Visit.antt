-- ===== src/Records/Visit.antt =====
-- One round of `find_index_record` on a well-formed record.
use miqs.Prelude.{
  ◌≡◌, Bool, ◌&&◌, inl, inr, some, ◌++◌, Bytes, length, str_eq, str_eq_iff, arith, Bool-cases,
  if◌then◌else◌,
}
use miqs.Metadata.{attr_type_code}
use miqs.Storage.Words.{length-le_bytes}
use miqs.Storage.Fields.{miqs_skip_field, element_width}
use miqs.Storage.RoundTrip.{IsText, read_string-field}
use miqs.Storage.Misuse.{skip_field-field}
use miqs.Records.{Pointee, create_index_record}
use miqs.Records.Layout.{
  Value, int_value, double_value, text_value, Entry, IsEntry, FitsValue, value_type, pointee,
  value_field, text_field, record_of, read_value-field, value_type_code,
}
use miqs.Records.Find.{Found, put_record, visit_named, skip_record, visit}

skip_text :
    (s rest : Bytes)
    → IsText s
    → miqs_skip_field (text_field s ++ rest) ≡ some (length (text_field s), rest)
skip_text s rest h =
    skip_field-field 3 (length s) s rest (unfold element_width in omega (arith, h.fits))

skip_value :
    (v : Value) (rest : Bytes)
    → FitsValue v
    → miqs_skip_field (value_field v ++ rest) ≡ some (length (value_field v), rest)
skip_value (int_value v) rest h =
    skip_field-field 1 1 _ rest (unfold element_width in omega (arith, length-le_bytes 4 v))
skip_value (double_value v) rest h =
    skip_field-field 2 1 _ rest (unfold element_width in omega (arith, length-le_bytes 8 v))
skip_value (text_value s) rest h = skip_text s rest h

-- The bytes of a record behind its type.
abbrev pub behind_type : Entry → Bytes → Bytes
behind_type e rest =
    text_field e.name
    ++ (value_field e.value ++ (text_field e.file_path ++ (text_field e.object_path ++ rest)))

visit-named :
    (matches : Pointee → Bool) (v : Value) (name file object rest : Bytes) (f : Found)
    → FitsValue v
    → IsText file
    → IsText object
    → visit_named matches
        (some name)
        (value_type v)
        (value_field v ++ (text_field file ++ (text_field object ++ rest)))
        f
      ≡ some (
        if matches (pointee v)
            then put_record
                (create_index_record
                  (value_type v)
                  (some name)
                  (pointee v)
                  (some file)
                  (some object))
                f
            else f,
        rest,
      )
unfolding visit_named
visit-named matches (int_value v) name file object rest f hv hf ho = ground (
  arith,
  read_value-field (int_value v) (text_field file ++ (text_field object ++ rest)) hv,
  read_string-field file (text_field object ++ rest) hf,
  read_string-field object rest ho,
  skip_text file (text_field object ++ rest) hf,
  skip_text object rest ho,
)
visit-named matches v name file object rest f hv hf ho = ground (
  arith,
  read_value-field v (text_field file ++ (text_field object ++ rest)) hv,
  read_string-field file (text_field object ++ rest) hf,
  read_string-field object rest ho,
  skip_text file (text_field object ++ rest) hf,
  skip_text object rest ho,
)

skip_record-fields :
    (v : Value) (file object rest : Bytes) (f : Found)
    → FitsValue v
    → IsText file
    → IsText object
    → skip_record (value_field v ++ (text_field file ++ (text_field object ++ rest))) f
      ≡ some (f, rest)
unfolding skip_record
skip_record-fields v file object rest f hv hf ho =
    rw (skip_value v _ hv, skip_text file _ hf, skip_text object rest ho)

-- What a round does with an entry.
abbrev pub is_hit : Bytes → (Pointee → Bool) → Entry → Bool
is_hit name matches e = str_eq name e.name && matches (pointee e.value)

record_of-named :
    (name : Bytes) (e : Entry)
    → name ≡ e.name
    → create_index_record
        (value_type e.value)
        (some name)
        (pointee e.value)
        (some e.file_path)
        (some e.object_path)
      ≡ record_of e
unfolding record_of
record_of-named name e h = rw h

pub visit-layout :
    (name : Bytes) (matches : Pointee → Bool) (e : Entry) (rest : Bytes) (f : Found)
    → IsEntry e
    → visit name matches (attr_type_code (value_type e.value)) (behind_type e rest) f
      ≡ some (if is_hit name matches e then put_record (record_of e) f else f, rest)
unfolding visit
visit-layout name matches e rest f h =
    rw (read_string-field e.name _ h.name_text) (elim (Bool-cases (str_eq name e.name)) [
      | inl same ↦ rw (
        same,
        value_type_code e.value,
        visit-named matches e.value name e.file_path e.object_path rest f h.value_fits h.file_text
            h.object_text,
        record_of-named name e ((str_eq_iff name e.name).0 same),
      )
      | inr other ↦ rw (
        other,
        skip_record-fields e.value e.file_path e.object_path rest f h.value_fits h.file_text
            h.object_text,
      )
    ])

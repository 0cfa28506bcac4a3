-- ===== src/Records/Layout.antt =====
-- The bytes of a record in the file, and its round trip.
use miqs.Prelude.{
  ℕ, ◌^◌, ◌<◌, ◌≡◌, refl, some, List, [], ◌∷◌, ◌++◌, Bytes, length, arith, ap, append_assoc,
  append-nil,
}
use miqs.Metadata.{
  AttrType, at_integer, at_float, at_string, attr_type_code, get_miqs_type_from_int,
}
use miqs.Storage.Words.{le_bytes}
use miqs.Storage.Fields.{miqs_append_type}
use miqs.Storage.RoundTrip.{
  field, IsText, append_int-field, append_double-field, append_string-field, read_int-field,
  read_double-field, read_string-field,
}
use miqs.Records.{
  Pointee, int_at, double_at, chars_at, IndexRecord, create_index_record, append_value,
  append_index_record, read_value, read_fields, read_index_record,
}

-- A record whose value has the type that it names.
pub data Value : Type 0 where
  int_value double_value : ℕ → Value
  text_value : Bytes → Value

pub record Entry : Type 0 where
  pub name : Bytes
  pub value : Value
  pub file_path : Bytes
  pub object_path : Bytes

abbrev pub value_type : Value → AttrType
value_type (int_value v) = at_integer
value_type (double_value v) = at_float
value_type (text_value s) = at_string

abbrev pub pointee : Value → Pointee
pointee (int_value v) = int_at v
pointee (double_value v) = double_at v
pointee (text_value s) = chars_at s

unfoldable pub record_of : Entry → IndexRecord
unfolding create_index_record
record_of e =
    create_index_record (value_type e.value) (some e.name) (pointee e.value) (some e.file_path)
      (some e.object_path)

-- The value fits its type.
abbrev pub FitsValue : Value → Type 0
FitsValue (int_value v) = v < 2 ^ 32
FitsValue (double_value v) = v < 2 ^ 64
FitsValue (text_value s) = IsText s

pub record IsEntry (e : Entry) : Type 0 where
  pub name_text : IsText e.name
  pub value_fits : FitsValue e.value
  pub file_text : IsText e.file_path
  pub object_text : IsText e.object_path

abbrev pub value_field : Value → Bytes
value_field (int_value v) = field 1 1 (le_bytes 4 v)
value_field (double_value v) = field 2 1 (le_bytes 8 v)
value_field (text_value s) = field 3 (length s) s

abbrev pub text_field : Bytes → Bytes
text_field s = field 3 (length s) s

-- A record's bytes in front of `rest`.
unfoldable pub layout : Entry → Bytes → Bytes
layout e rest =
    field 1 1 (le_bytes 4 (attr_type_code (value_type e.value)))
    ++ (text_field e.name
        ++ (value_field e.value ++ (text_field e.file_path ++ (text_field e.object_path ++ rest))))

unfoldable pub layout_all : List Entry → Bytes → Bytes
layout_all [] rest = rest
layout_all (e ∷ es) rest = layout e (layout_all es rest)

pub layout-append :
    (e : Entry) (rest more : Bytes) → layout e rest ++ more ≡ layout e (rest ++ more)
unfolding layout
layout-append e rest more = simp append_assoc

append_value-field :
    (pointer_text : Bytes → Bytes) (v : Value) (s : Bytes)
    → append_value pointer_text (value_type v) (pointee v) s ≡ some (s ++ value_field v)
unfolding append_value
append_value-field pt (int_value v) s = ap some (append_int-field v s)
append_value-field pt (double_value v) s = ap some (append_double-field v s)
append_value-field pt (text_value t) s = ap some (append_string-field t s)

-- `append_index_record` writes a record's bytes behind the stream.
pub append-layout :
    (pointer_text : Bytes → Bytes) (e : Entry) (s : Bytes)
    → append_index_record pointer_text (some (record_of e)) s ≡ some (s ++ layout e [])
unfolding append_index_record record_of layout miqs_append_type
append-layout pt e s =
    rw append_value-field (simp (append_string-field, append_int-field, append_assoc, append-nil))

pub type_code_fits : (v : Value) → attr_type_code (value_type v) < 2 ^ 32
unfolding attr_type_code
type_code_fits (int_value v) = omega arith
type_code_fits (double_value v) = omega arith
type_code_fits (text_value s) = omega arith

pub value_type_code :
    (v : Value) → get_miqs_type_from_int (attr_type_code (value_type v)) ≡ value_type v
unfolding get_miqs_type_from_int attr_type_code
value_type_code (int_value v) = refl
value_type_code (double_value v) = refl
value_type_code (text_value s) = refl

pub read_value-field :
    (v : Value) (rest : Bytes)
    → FitsValue v
    → read_value (value_type v) (value_field v ++ rest) ≡ (pointee v, rest)
unfolding read_value
read_value-field (int_value v) rest h = rw (read_int-field v rest h)
read_value-field (double_value v) rest h = rw (read_double-field v rest h)
read_value-field (text_value s) rest h = rw (read_string-field s rest h)

-- From the bytes of a record whose strings and value fit their fields, `read_index_record` reads the
-- record back, up to the byte behind it.
pub read-layout :
    (e : Entry) (rest : Bytes)
    → IsEntry e
    → read_index_record (layout e rest) ≡ (some (record_of e), rest)
unfolding read_index_record record_of layout read_fields
read-layout e rest h = rw (
  read_int-field (attr_type_code (value_type e.value)) _ (type_code_fits e.value),
  value_type_code e.value,
  read_string-field e.name _ h.name_text,
  read_value-field e.value _ h.value_fits,
  read_string-field e.file_path _ h.file_text,
  read_string-field e.object_path rest h.object_text,
)

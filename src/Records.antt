-- ===== src/Records.antt =====
-- src/index/on_disk_index.c: index records, the units of the append-only index file.
-- A `char *` is an optional C string. `none` as the result of an operation is a fault: a null or
-- indeterminate pointer is read, or memory is read as another type.
pub mod Layout
pub mod Find
pub mod Visit
pub mod Search
pub mod Finishes
use miqs.Prelude.{ℕ, ◌+◌, Option, none, some, [], Bytes, ◌>>=◌, if◌then◌else◌}
use miqs.Metadata.{
  AttrType, at_unknown, at_integer, at_float, at_string, attr_type_code, get_miqs_type_from_int,
}
use miqs.Storage.Fields.{
  miqs_append_type, miqs_append_int, miqs_append_double, miqs_append_string, miqs_read_int,
  miqs_read_double, miqs_read_string,
}

-- What a `void *` to a value points at; `char_ptr_at s` is a `char **` to the string `s`.
pub data Pointee : Type 0 where
  null : Pointee
  int_at double_at : ℕ → Pointee
  chars_at char_ptr_at : Bytes → Pointee

-- `index_record_t`
pub record IndexRecord : Type 0 where
  pub type : AttrType
  pub name : Option Bytes
  pub payload : Pointee
  pub file_path : Option Bytes
  pub object_path : Option Bytes

unfoldable pub create_index_record :
    AttrType → Option Bytes → Pointee → Option Bytes → Option Bytes → IndexRecord
create_index_record type name payload file_path object_path = record {
  type = type;
  name = name;
  payload = payload;
  file_path = file_path;
  object_path = object_path;
}

-- `pointer_text s` is the C string that the bytes of a pointer to `s` are, read as characters.
module _ (pointer_text : Bytes → Bytes) where
  unfoldable pub append_value : AttrType → Pointee → Bytes → Option Bytes
  append_value at_integer (int_at v) stream = some (miqs_append_int v stream)
  append_value at_float (double_at v) stream = some (miqs_append_double v stream)
  append_value at_string (chars_at s) stream = some (miqs_append_string s stream)
  append_value at_string (char_ptr_at s) stream = some (miqs_append_string (pointer_text s) stream)
  append_value at_unknown p stream = some stream
  append_value _ _ stream = none

  append_some : IndexRecord → Bytes → Option Bytes
  unfolding append_value
  append_some ir stream = do
    name ← ir.name
    with_value ←
        append_value ir.type ir.payload
          (miqs_append_string name (miqs_append_type (attr_type_code ir.type) stream))
    file_path ← ir.file_path
    object_path ← ir.object_path
    some (miqs_append_string object_path (miqs_append_string file_path with_value))

  unfoldable pub append_index_record : Option IndexRecord → Bytes → Option Bytes
  unfolding append_some
  append_index_record none stream = some stream
  append_index_record (some ir) stream = append_some ir stream

-- The pointer to a value that a reader returns.
unfoldable pub int_pointer : Option ℕ → Pointee
int_pointer none = null
int_pointer (some v) = int_at v

unfoldable pub double_pointer : Option ℕ → Pointee
double_pointer none = null
double_pointer (some v) = double_at v

unfoldable pub text_pointer : Option Bytes → Pointee
text_pointer none = null
text_pointer (some s) = chars_at s

-- The value of a record of the type read; at an unknown type the file holds none.
unfoldable pub read_value : AttrType → Bytes → Pointee × Bytes
unfolding int_pointer double_pointer text_pointer
read_value at_integer stream = let (v, rest) = miqs_read_int stream in (int_pointer v, rest)
read_value at_float stream = let (v, rest) = miqs_read_double stream in (double_pointer v, rest)
read_value at_string stream = let (s, rest) = miqs_read_string stream in (text_pointer s, rest)
read_value at_unknown stream = (null, stream)

-- The record behind its type.
unfoldable pub read_fields : AttrType → Bytes → IndexRecord × Bytes
unfolding read_value
read_fields type stream =
    let (name, s1) = miqs_read_string stream in
    let (payload, s2) = read_value type s1 in
    let (file_path, s3) = miqs_read_string s2 in
    let (object_path, s4) = miqs_read_string s3 in
    (create_index_record type name payload file_path object_path, s4)

read_typed : Option ℕ → Bytes → Option IndexRecord × Bytes
read_typed none stream = (none, stream)
read_typed (some number) stream =
    let (r, rest) = read_fields (get_miqs_type_from_int number) stream in (some r, rest)

-- No record is read where no int is, as at the end of the file.
unfoldable pub read_index_record : Bytes → Option IndexRecord × Bytes
unfolding read_typed
read_index_record stream = let (number, s1) = miqs_read_int stream in read_typed number s1

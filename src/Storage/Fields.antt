-- ===== src/Storage/Fields.antt =====
-- A field is an `int` that names its type (1 int, 2 double, 3 string, 4 uint64_t, 5 size_t), a
-- `size_t` that counts its elements, and the elements.
use miqs.Prelude.{
  ℕ, ◌+◌, ◌*◌, ◌%◌, ◌^◌, ◌&&◌, Option, none, some, [], ◌∷◌, ◌++◌, Bytes, length, take, replicate,
  ◌==◌, if◌then◌else◌,
}
use mathlib.Core.Option
use miqs.Storage.Words.{le_bytes, of_le_bytes, fread, fwrite}

-- The type and the count, in front of every field.
unfoldable pub append_header : ℕ → ℕ → Bytes → Bytes
append_header type count stream = fwrite (le_bytes 8 count) (fwrite (le_bytes 4 type) stream)

unfoldable pub miqs_append_int : ℕ → Bytes → Bytes
miqs_append_int value stream = fwrite (le_bytes 4 value) (append_header 1 1 stream)

unfoldable pub miqs_append_double : ℕ → Bytes → Bytes
miqs_append_double value stream = fwrite (le_bytes 8 value) (append_header 2 1 stream)

-- `len` bytes of the buffer `value`.
unfoldable pub miqs_append_string_with_len : Bytes → ℕ → Bytes → Bytes
miqs_append_string_with_len value len stream = fwrite (take len value) (append_header 3 len stream)

-- A C string, given with no terminator: `strlen` is its length.
unfoldable pub miqs_append_string : Bytes → Bytes → Bytes
miqs_append_string value stream = miqs_append_string_with_len value (length value) stream

unfoldable pub miqs_append_uint64 : ℕ → Bytes → Bytes
miqs_append_uint64 value stream = fwrite (le_bytes 8 value) (append_header 4 1 stream)

unfoldable pub miqs_append_size_t : ℕ → Bytes → Bytes
miqs_append_size_t value stream = fwrite (le_bytes 8 value) (append_header 5 1 stream)

unfoldable pub miqs_append_type : ℕ → Bytes → Bytes
miqs_append_type = miqs_append_int

-- The C string that a buffer holds: its bytes before the first terminator.
unfoldable pub c_str : Bytes → Bytes
c_str [] = []
c_str (b ∷ bs) = if b == 0 then [] else b ∷ c_str bs

-- What `miqs_read_general` stores through its pointers. No data stands for the pointer that stays
-- uninitialised at an unknown type.
pub record General : Type 0 where
  pub type : ℕ
  pub len : ℕ
  pub payload : Option Bytes

-- `calloc(length, width)` and the `fread` into it.
unfoldable pub read_array : ℕ → ℕ → Bytes → Bytes × Bytes
read_array width len stream = fread (replicate (width * len) 0) stream

abbrev data_of : Bytes × Bytes → Option Bytes × Bytes
data_of (buf, stream) = (some buf, stream)

-- A string's buffer has one more byte, which stays 0.
abbrev text_of : Bytes × Bytes → Option Bytes × Bytes
text_of (buf, stream) = (some (buf ++ 0 ∷ []), stream)

unfoldable pub read_payload : ℕ → ℕ → Bytes → Option Bytes × Bytes
read_payload type len stream =
    if type == 1
    then data_of (read_array 4 len stream)
    else if type == 2
    then data_of (read_array 8 len stream)
    else if type == 3
    then text_of (read_array 1 len stream)
    else if type == 4
    then data_of (read_array 8 len stream)
    else if type == 5
    then data_of (read_array 8 len stream)
    else (none, stream)

-- `int type = -1`, and what the stream gives of an `int`.
unfoldable pub read_type : Bytes → ℕ × Bytes
read_type stream =
    let (buf, rest) = fread (le_bytes 4 0xffff_ffff) stream in (of_le_bytes buf, rest)

-- `size_t length = 0`, and what the stream gives of a `size_t`.
unfoldable pub read_length : Bytes → ℕ × Bytes
read_length stream = let (buf, rest) = fread (le_bytes 8 0) stream in (of_le_bytes buf, rest)

unfoldable pub miqs_read_general : Bytes → General × Bytes
miqs_read_general stream =
    let (type, s1) = read_type stream in
    let (len, s2) = read_length s1 in
    let (payload, s3) = read_payload type len s2 in
    (record { type = type; len = len; payload = payload }, s3)

-- The element of a field of one element of type `type`; a null pointer for any other field.
unfoldable pub one_of : ℕ → General → Option ℕ
one_of type g = if g.type == type && g.len == 1 then Option.map of_le_bytes g.payload else none

unfoldable pub miqs_read_int : Bytes → Option ℕ × Bytes
unfolding one_of
miqs_read_int stream = let (g, rest) = miqs_read_general stream in (one_of 1 g, rest)

unfoldable pub miqs_read_double : Bytes → Option ℕ × Bytes
unfolding one_of
miqs_read_double stream = let (g, rest) = miqs_read_general stream in (one_of 2 g, rest)

unfoldable pub miqs_read_uint64 : Bytes → Option ℕ × Bytes
unfolding one_of
miqs_read_uint64 stream = let (g, rest) = miqs_read_general stream in (one_of 4 g, rest)

unfoldable pub miqs_read_size_t : Bytes → Option ℕ × Bytes
unfolding one_of
miqs_read_size_t stream = let (g, rest) = miqs_read_general stream in (one_of 5 g, rest)

-- The C string of the buffer that `miqs_read_string` returns.
unfoldable pub miqs_read_string : Bytes → Option Bytes × Bytes
miqs_read_string stream =
    let (g, rest) = miqs_read_general stream in
    (if g.type == 3 then Option.map c_str g.payload else none, rest)

-- The pointer returned, and `*is_float`, which keeps its value at any other field.
unfoldable pub miqs_read_index_numeric_value : ℕ → Bytes → Option Bytes × ℕ × Bytes
miqs_read_index_numeric_value is_float stream =
    let (g, rest) = miqs_read_general stream in
    let flag =
      (if g.len == 1
        then if g.type == 1 then 0 else if g.type == 2 then 1 else is_float
        else is_float) in
    (g.payload, flag, rest)

-- The bytes of one element, by the type.
unfoldable pub element_width : ℕ → ℕ
element_width type =
    if type == 1
    then 4
    else if type == 2
    then 8
    else if type == 3
    then 1
    else if type == 4
    then 8
    else if type == 5
    then 8
    else 0

-- `none`: the pointer that no branch has set is freed, which is undefined.
unfoldable pub skip_payload : ℕ → ℕ → Bytes → Option (ℕ × Bytes)
skip_payload type len stream =
    let (payload, rest) = read_payload type len stream in
    let total = (4 + 8 + element_width type * len) % 2 ^ 64 in
    Option.map (λ _. (total, rest)) payload

-- The bytes skipped, and the stream behind them. `EOF` is -1.
unfoldable pub miqs_skip_field : Bytes → Option (ℕ × Bytes)
unfolding skip_payload element_width
miqs_skip_field stream =
    let (type, s1) = read_type stream in
    let (len, s2) = read_length s1 in
    if type == 0xffff_ffff then some (0, s1) else skip_payload type len s2

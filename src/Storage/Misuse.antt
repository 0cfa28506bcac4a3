-- ===== src/Storage/Misuse.antt =====
-- Fields that a reader of bin_file_ops.c does not expect: skipping, other types, the end of the file.
use miqs.Prelude.{
  ℕ, ◌+◌, ◌*◌, ◌%◌, ◌^◌, ◌≤◌, ◌<◌, ◌≡◌, ◌&&◌, zero, suc, refl, Option, none, some, [], ◌∷◌, ◌++◌,
  Bytes, length, length-append, take, arith, ◌==◌, if◌then◌else◌, append_assoc, append-nil,
}
use miqs.Storage.Words.{le_bytes, length-le_bytes, of_le_bytes, fread}
use miqs.Storage.Fields.{
  c_str, read_array, read_payload, read_type, read_length, miqs_read_general, miqs_read_int,
  miqs_read_double, miqs_read_uint64, miqs_read_size_t, miqs_read_string, skip_payload,
  element_width, miqs_skip_field,
}
use miqs.Storage.RoundTrip.{
  field, read_type-le_bytes, read_length-le_bytes, read_general-field, read_array-append,
}

-- A field that the file format knows, of `len` elements in `body`, and its size as a size_t.
pub record IsField (type len : ℕ) (body : Bytes) : Type 0 where
  pub known_low : 1 ≤ type
  pub known_high : type ≤ 5
  pub sized : length body ≡ element_width type * len
  pub fits : 12 + length body < 2 ^ 64
  pub counted : len < 2 ^ 64

-- The buffer that a reader hands out for such a field.
abbrev pub buffer : ℕ → Bytes → Bytes
buffer type body = if type == 3 then body ++ 0 ∷ [] else body

payload_known :
    (type len : ℕ) (body rest : Bytes)
    → IsField type len body
    → read_payload type len (body ++ rest) ≡ (some (buffer type body), rest)
unfolding read_payload element_width
payload_known type len body rest f = ground (
  arith,
  read_array-append 4 len body rest,
  read_array-append 8 len body rest,
  read_array-append 1 len body rest,
)

length-field : (type len : ℕ) (body : Bytes) → length (field type len body) ≡ 12 + length body
length-field type len body = omega (
  arith,
  length-append (le_bytes 4 type) (le_bytes 8 len ++ body),
  length-append (le_bytes 8 len) body,
  length-le_bytes 4 type,
  length-le_bytes 8 len,
)

-- `miqs_skip_field` moves behind exactly the field at hand, of any of the five types and any count
-- of elements that keeps its size a size_t, and returns its size in bytes.
pub skip_field-field :
    (type len : ℕ) (body rest : Bytes)
    → IsField type len body
    → miqs_skip_field (field type len body ++ rest) ≡ some (length (field type len body), rest)
unfolding miqs_skip_field skip_payload
skip_field-field type len body rest f =
    rw
      (
        append_assoc,
        read_type-le_bytes type ((le_bytes 8 len ++ body) ++ rest) (omega arith),
        append_assoc,
        read_length-le_bytes len (body ++ rest) f.counted,
        payload_known type len body rest f,
        length-field type len body,
      )
      (ground (arith, f.sized))

general-field :
    (type len : ℕ) (body rest : Bytes)
    → IsField type len body
    → miqs_read_general (field type len body ++ rest)
      ≡ (record { type = type; len = len; payload = some (buffer type body) }, rest)
general-field type len body rest f =
    read_general-field type len body rest (omega arith) f.counted
      (payload_known type len body rest f)

c_str-append_nil : (s : Bytes) → c_str (s ++ 0 ∷ []) ≡ c_str s
unfolding c_str
c_str-append_nil [] = refl
c_str-append_nil (b ∷ s) = ground (arith, c_str-append_nil s)

-- On any well-formed field each numeric reader returns the element if the field is of its own type
-- and has one element, and a null pointer otherwise; `miqs_read_string` returns the C string at the
-- front of a string field, and a null pointer at any other. Each has then moved behind the field.
pub read_any_field :
    (type len : ℕ) (body rest : Bytes)
    → IsField type len body
    → let stream : Bytes = field type len body ++ rest in
      let one : ℕ → Option ℕ =
        (λ t. if type == t && len == 1 then some (of_le_bytes body) else none) in
      (miqs_read_int stream ≡ (one 1, rest))
      × (miqs_read_double stream ≡ (one 2, rest))
      × (miqs_read_uint64 stream ≡ (one 4, rest))
      × (miqs_read_size_t stream ≡ (one 5, rest))
      × (miqs_read_string stream ≡ (if type == 3 then some (c_str body) else none, rest))
unfolding miqs_read_int miqs_read_double miqs_read_uint64 miqs_read_size_t miqs_read_string
read_any_field type len body rest f =
    rw (general-field type len body rest f) (ground (arith, c_str-append_nil body))

-- At the end of the file every reader returns a null pointer, `miqs_skip_field` skips nothing, and
-- the stream stays at its end.
pub read_at_end :
    (miqs_read_int [] ≡ (none, []))
    × (miqs_read_string [] ≡ (none, []))
    × (miqs_skip_field [] ≡ some (0, []))
unfolding miqs_read_int miqs_read_string miqs_skip_field miqs_read_general read_type read_length
    read_payload fread le_bytes of_le_bytes
read_at_end = (refl, refl, refl)

payload_torn :
    (v k : ℕ)
    → k < 4
    → (p : Bytes) × (read_payload 1 1 (take k (le_bytes 4 v)) ≡ (some p, []))
      × (of_le_bytes p ≡ v % 256 ^ k)
unfolding read_payload read_array fread le_bytes of_le_bytes
payload_torn v zero h = (_, refl, omega arith)
payload_torn v (suc zero) h = (_, refl, omega arith)
payload_torn v (suc (suc zero)) h = (_, refl, omega arith)
payload_torn v (suc (suc (suc zero))) h = (_, refl, omega arith)
payload_torn v (suc (suc (suc (suc k)))) h = absurd (omega arith)

-- A file that ends inside the value of an int, after k of its 4 bytes, is not noticed:
-- `miqs_read_int` returns the value of the bytes that are there, the others being 0.
read_int_torn :
    (v k : ℕ) → k < 4 → miqs_read_int (field 1 1 (take k (le_bytes 4 v))) ≡ (some (v % 256 ^ k), [])
unfolding miqs_read_int
read_int_torn v k hk =
    let (p, read, value) = payload_torn v k hk in
    let body : Bytes = take k (le_bytes 4 v) in
    let general : miqs_read_general (field 1 1 body)
        ≡ (record { type = 1; len = 1; payload = some p }, []) =
      rw append-nil at (
        read_general-field 1 1 body [] {p = some p} (omega arith) (omega arith)
          (rw append-nil read)) in
    rw (general, value)

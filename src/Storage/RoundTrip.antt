-- ===== src/Storage/RoundTrip.antt =====
-- Reading back what the append functions of bin_file_ops.c write.
use miqs.Prelude.{
  ℕ, ◌+◌, ◌*◌, ◌^◌, ◌<◌, ◌≡◌, refl, ◌∙◌, ◌⊎◌, inl, inr, Option, some, [], ◌∷◌, ◌++◌, Bytes, length,
  replicate, take-length, arith, append_assoc, length-replicate, All, ◌≢◌, sym,
}
use miqs.Storage.Words.{le_bytes, fwrite, length-le_bytes, of_le_bytes-le_bytes, fread-append}
use miqs.Storage.Fields.{
  append_header, miqs_append_int, miqs_append_double, miqs_append_string_with_len,
  miqs_append_string, miqs_append_uint64, miqs_append_size_t, c_str, read_array, read_payload,
  read_type, read_length, miqs_read_general, miqs_read_int, miqs_read_double, miqs_read_uint64,
  miqs_read_size_t, miqs_read_string,
}

-- A whole field, with its elements given as bytes.
abbrev pub field : ℕ → ℕ → Bytes → Bytes
field type count body = le_bytes 4 type ++ (le_bytes 8 count ++ body)

pub read_type-le_bytes :
    (type : ℕ) (rest : Bytes) → type < 2 ^ 32 → read_type (le_bytes 4 type ++ rest) ≡ (type, rest)
unfolding read_type
read_type-le_bytes type rest h = rw (
  fread-append (le_bytes 4 0xffff_ffff) (le_bytes 4 type) rest
      (length-le_bytes 4 type ∙ sym (length-le_bytes 4 0xffff_ffff)),
  of_le_bytes-le_bytes 4 type h,
)

pub read_length-le_bytes :
    (len : ℕ) (rest : Bytes) → len < 2 ^ 64 → read_length (le_bytes 8 len ++ rest) ≡ (len, rest)
unfolding read_length
read_length-le_bytes len rest h = rw (
  fread-append (le_bytes 8 0) (le_bytes 8 len) rest
      (length-le_bytes 8 len ∙ sym (length-le_bytes 8 0)),
  of_le_bytes-le_bytes 8 len h,
)

pub read_general-field :
    (type len : ℕ) (body rest : Bytes) {p : Option Bytes}
    → type < 2 ^ 32
    → len < 2 ^ 64
    → read_payload type len (body ++ rest) ≡ (p, rest)
    → miqs_read_general (field type len body ++ rest)
      ≡ (record { type = type; len = len; payload = p }, rest)
unfolding miqs_read_general
read_general-field type len body rest ht hl hp =
    rw (append_assoc, read_type-le_bytes type _ ht, append_assoc, read_length-le_bytes len _ hl, hp)

pub read_array-append :
    (width len : ℕ) (body rest : Bytes)
    → length body ≡ width * len
    → read_array width len (body ++ rest) ≡ (body, rest)
unfolding read_array
read_array-append width len body rest h =
    fread-append (replicate (width * len) 0) body rest (h ∙ sym (length-replicate (width * len) 0))

-- The fields, as what the append functions put behind the stream.
pub append_int-field : (v : ℕ) (s : Bytes) → miqs_append_int v s ≡ s ++ field 1 1 (le_bytes 4 v)
unfolding miqs_append_int append_header fwrite
append_int-field v s = simp append_assoc

pub append_double-field :
    (v : ℕ) (s : Bytes) → miqs_append_double v s ≡ s ++ field 2 1 (le_bytes 8 v)
unfolding miqs_append_double append_header fwrite
append_double-field v s = simp append_assoc

pub append_uint64-field :
    (v : ℕ) (s : Bytes) → miqs_append_uint64 v s ≡ s ++ field 4 1 (le_bytes 8 v)
unfolding miqs_append_uint64 append_header fwrite
append_uint64-field v s = simp append_assoc

pub append_size_t-field :
    (v : ℕ) (s : Bytes) → miqs_append_size_t v s ≡ s ++ field 5 1 (le_bytes 8 v)
unfolding miqs_append_size_t append_header fwrite
append_size_t-field v s = simp append_assoc

pub append_string-field : (v s : Bytes) → miqs_append_string v s ≡ s ++ field 3 (length v) v
unfolding miqs_append_string miqs_append_string_with_len append_header fwrite
append_string-field v s = simp (append_assoc, take-length)

abbrev word : ℕ → ℕ → Option Bytes
word n v = some (le_bytes n v)

payload_int : (v : ℕ) (rest : Bytes) → read_payload 1 1 (le_bytes 4 v ++ rest) ≡ (word 4 v, rest)
unfolding read_payload
payload_int v rest = rw (read_array-append 4 1 (le_bytes 4 v) rest (length-le_bytes 4 v))

-- The types of one 8-byte element are 2, 4 and 5.
payload_wide :
    (type v : ℕ) (rest : Bytes)
    → (type ≡ 2) ⊎ ((type ≡ 4) ⊎ (type ≡ 5))
    → read_payload type 1 (le_bytes 8 v ++ rest) ≡ (word 8 v, rest)
unfolding read_payload
payload_wide type v rest h =
    ground (arith, read_array-append 8 1 (le_bytes 8 v) rest (length-le_bytes 8 v))

-- Reading back a field, with what follows it.
pub read_int-field :
    (v : ℕ) (rest : Bytes)
    → v < 2 ^ 32
    → miqs_read_int (field 1 1 (le_bytes 4 v) ++ rest) ≡ (some v, rest)
unfolding miqs_read_int
read_int-field v rest h = rw (
  read_general-field 1 1 (le_bytes 4 v) rest (omega arith) (omega arith) (payload_int v rest),
  of_le_bytes-le_bytes 4 v h,
)

pub read_double-field :
    (v : ℕ) (rest : Bytes)
    → v < 2 ^ 64
    → miqs_read_double (field 2 1 (le_bytes 8 v) ++ rest) ≡ (some v, rest)
unfolding miqs_read_double
read_double-field v rest h = rw (
  read_general-field 2 1 (le_bytes 8 v) rest (omega arith) (omega arith)
      (payload_wide 2 v rest (inl refl)),
  of_le_bytes-le_bytes 8 v h,
)

pub read_uint64-field :
    (v : ℕ) (rest : Bytes)
    → v < 2 ^ 64
    → miqs_read_uint64 (field 4 1 (le_bytes 8 v) ++ rest) ≡ (some v, rest)
unfolding miqs_read_uint64
read_uint64-field v rest h = rw (
  read_general-field 4 1 (le_bytes 8 v) rest (omega arith) (omega arith)
      (payload_wide 4 v rest (inr (inl refl))),
  of_le_bytes-le_bytes 8 v h,
)

pub read_size_t-field :
    (v : ℕ) (rest : Bytes)
    → v < 2 ^ 64
    → miqs_read_size_t (field 5 1 (le_bytes 8 v) ++ rest) ≡ (some v, rest)
unfolding miqs_read_size_t
read_size_t-field v rest h = rw (
  read_general-field 5 1 (le_bytes 8 v) rest (omega arith) (omega arith)
      (payload_wide 5 v rest (inr (inr refl))),
  of_le_bytes-le_bytes 8 v h,
)

-- A C string: no byte of it is the terminator, and the size of its field is a `size_t`.
pub record IsText (s : Bytes) : Type 0 where
  pub no_zero : All (λ b. b ≢ 0) s
  pub fits : 12 + length s < 2 ^ 64

pub c_str-append_zero : (s rest : Bytes) → All (λ b. b ≢ 0) s → c_str (s ++ (0 ∷ rest)) ≡ s
unfolding c_str
c_str-append_zero [] rest h = refl
c_str-append_zero (b ∷ s) rest h = ground (arith, c_str-append_zero s rest h.1)

payload_text : (s rest : Bytes) → read_payload 3 (length s) (s ++ rest) ≡ (some (s ++ 0 ∷ []), rest)
unfolding read_payload
payload_text s rest = rw (read_array-append 1 (length s) s rest (omega arith))

pub read_string-field :
    (s rest : Bytes) → IsText s → miqs_read_string (field 3 (length s) s ++ rest) ≡ (some s, rest)
unfolding miqs_read_string
read_string-field s rest h = rw (
  read_general-field 3 (length s) s rest (omega arith) (omega (arith, h.fits))
      (payload_text s rest),
  c_str-append_zero s [] h.no_zero,
)

-- What `miqs_append_int` writes behind any stream, `miqs_read_int` reads back from there, up to
-- the byte behind it, for every 32-bit pattern.
read_int-append_int :
    (v : ℕ) (s rest : Bytes)
    → v < 2 ^ 32
    → (written : Bytes) × (miqs_append_int v s ≡ s ++ written)
      × (miqs_read_int (written ++ rest) ≡ (some v, rest))
read_int-append_int v s rest h = (_, append_int-field v s, read_int-field v rest h)

-- The same for the three fields of one 8-byte element: a double, a uint64_t and a size_t, for every
-- 64-bit pattern.
pub read_wide-append_wide :
    (v : ℕ) (rest : Bytes)
    → v < 2 ^ 64
    → (miqs_read_double (miqs_append_double v [] ++ rest) ≡ (some v, rest))
      × (miqs_read_uint64 (miqs_append_uint64 v [] ++ rest) ≡ (some v, rest))
      × (miqs_read_size_t (miqs_append_size_t v [] ++ rest) ≡ (some v, rest))
read_wide-append_wide v rest h = (
  rw (append_double-field v []) (read_double-field v rest h),
  rw (append_uint64-field v []) (read_uint64-field v rest h),
  rw (append_size_t-field v []) (read_size_t-field v rest h),
)

-- A C string written by `miqs_append_string` behind any stream is read back by `miqs_read_string`,
-- up to the byte behind it, provided that it holds no terminator and that the size of its field is a size_t.
read_string-append_string :
    (v s rest : Bytes)
    → IsText v
    → (written : Bytes) × (miqs_append_string v s ≡ s ++ written)
      × (miqs_read_string (written ++ rest) ≡ (some v, rest))
read_string-append_string v s rest h = (_, append_string-field v s, read_string-field v rest h)

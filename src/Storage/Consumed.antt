-- ===== src/Storage/Consumed.antt =====
-- How much of a stream the readers of src/index/storage/bin_file_ops.c leave.
use mathlib.Core.Option.{some_inj}
use miqs.Prelude.{Bool}
use miqs.Prelude.{
  ℕ, zero, suc, ◌-◌, ◌*◌, ◌≤◌, ◌<◌, ◌≡◌, refl, sym, ap, ◌∙◌, true, false, Option, none, some, List,
  [], ◌∷◌, Bytes, length, drop, replicate, ◌==◌, if◌then◌else◌, Bool-cases, Option-cases, inl, inr,
  arith,
}
use miqs.Storage.Words.{le_bytes, of_le_bytes, length-le_bytes, fread}
use miqs.Storage.Fields.{
  read_array, read_payload, read_type, read_length, miqs_read_general, one_of, miqs_read_int,
  miqs_read_double, miqs_read_string, skip_payload, miqs_skip_field,
}

length-drop {ℓ} : {A : Type ℓ} (n : ℕ) (xs : List A) → length (drop n xs) ≡ length xs - n
length-drop zero xs = omega arith
length-drop (suc n) [] = omega arith
length-drop (suc n) (x ∷ xs) = omega (arith, length-drop n xs)

fread_le : (buf s : Bytes) → length (fread buf s).1 ≡ length s - length buf
unfolding fread
fread_le buf s = length-drop (length buf) s

if_le :
    (b : Bool) (n : ℕ) (p q : Option Bytes × Bytes)
    → length p.1 ≤ n
    → length q.1 ≤ n
    → length (if b then p else q).1 ≤ n
if_le true n p q h k = h
if_le false n p q h k = k

array_le : (width len : ℕ) (s : Bytes) → length (read_array width len s).1 ≤ length s
unfolding read_array
array_le width len s = omega (arith, fread_le (replicate (width * len) 0) s)

read_payload_le : (type len : ℕ) (s : Bytes) → length (read_payload type len s).1 ≤ length s
unfolding read_payload
read_payload_le type len s = if_le (type == 1) _ _ _ (array_le 4 len s) (
    if_le (type == 2) _ _ _ (array_le 8 len s) (
      if_le (type == 3) _ _ _ (array_le 1 len s) (
        if_le (type == 4) _ _ _ (array_le 8 len s)
          (if_le (type == 5) _ _ _ (array_le 8 len s) (omega arith)))))

pub read_general-length : (s : Bytes) → length (miqs_read_general s).1 ≤ length s - 4
unfolding miqs_read_general read_type read_length
read_general-length s = omega (
  arith,
  read_payload_le _ _ (fread (le_bytes 8 0) (fread (le_bytes 4 0xffff_ffff) s).1).1,
  fread_le (le_bytes 8 0) (fread (le_bytes 4 0xffff_ffff) s).1,
  fread_le (le_bytes 4 0xffff_ffff) s,
  length-le_bytes 4 0xffff_ffff,
)

read_int-nil : (miqs_read_int []).0 ≡ none
unfolding miqs_read_int miqs_read_general read_type read_length read_payload one_of le_bytes
    of_le_bytes fread
read_int-nil = refl

-- An int that is read takes a byte at least.
pub read_int-length :
    (s : Bytes) {n : ℕ} → (miqs_read_int s).0 ≡ some n → length (miqs_read_int s).1 < length s
read_int-length [] h = cc (sym read_int-nil ∙ h)
read_int-length (b ∷ s) h = unfold miqs_read_int in omega (arith, read_general-length (b ∷ s))

pub read_double-length : (s : Bytes) → length (miqs_read_double s).1 ≤ length s
unfolding miqs_read_double
read_double-length s = omega (arith, read_general-length s)

pub read_string-length : (s : Bytes) → length (miqs_read_string s).1 ≤ length s
unfolding miqs_read_string
read_string-length s = omega (arith, read_general-length s)

pub read_int_le : (s : Bytes) → length (miqs_read_int s).1 ≤ length s
unfolding miqs_read_int
read_int_le s = omega (arith, read_general-length s)

skip_payload_le :
    (type len : ℕ) (s : Bytes) {n : ℕ} {rest : Bytes}
    → skip_payload type len s ≡ some (n, rest)
    → length rest ≤ length s
unfolding skip_payload
skip_payload_le type len s {n} {rest} h = elim (Option-cases (read_payload type len s).0) [
  | inl e ↦ cc (rw e at h)
  | inr (p, e) ↦
      let left : (read_payload type len s).1 ≡ rest = ap (λ x. x.1) (some_inj.0 (rw e at h)) in
      omega (arith, read_payload_le type len s, ap length left)
]

pub skip_field-length :
    (s : Bytes) {n : ℕ} {rest : Bytes} → miqs_skip_field s ≡ some (n, rest) → length rest ≤ length s
unfolding miqs_skip_field read_type read_length
skip_field-length s {n} {rest} h =
    let s1 : Bytes = (fread (le_bytes 4 0xffff_ffff) s).1 in
    let type : ℕ = of_le_bytes (fread (le_bytes 4 0xffff_ffff) s).0 in
    elim (Bool-cases (type == 0xffff_ffff)) [
      | inl e ↦
          let left : s1 ≡ rest = ap (λ x. x.1) (some_inj.0 (rw e at h)) in
          omega (arith, fread_le (le_bytes 4 0xffff_ffff) s, ap length left)
      | inr e ↦ omega (
        arith,
        skip_payload_le type _ (fread (le_bytes 8 0) s1).1 (rw e at h),
        fread_le (le_bytes 4 0xffff_ffff) s,
        fread_le (le_bytes 8 0) s1,
      )
    ]

-- ===== src/Records/Finishes.antt =====
-- The search of a file for its records comes to an end.
use mathlib.Core.Option.{some_inj}
use miqs.Prelude.{
  ℕ, zero, suc, ◌≤◌, ◌<◌, ◌≡◌, ◌≢◌, ap, ◌==◌, Bool, true, false, Option, none, some, Bytes, length,
  str_eq, if◌then◌else◌, ◌>>=◌, Bool-cases, Option-cases, inl, inr, arith,
}
use miqs.Metadata.{AttrType, at_unknown, at_integer, at_float, at_string, get_miqs_type_from_int}
use miqs.Storage.Fields.{miqs_read_int, miqs_read_string, miqs_skip_field}
use miqs.Storage.Consumed.{
  read_int-length, read_int_le, read_double-length, read_string-length, skip_field-length,
}
use miqs.Records.{Pointee, IndexRecord, read_value, read_fields, read_index_record}
use miqs.Records.Find.{
  Found, unfinished, release, visit_named, skip_record, visit, scan, find_index_record,
}

read_value_le : (type : AttrType) (s : Bytes) → length (read_value type s).1 ≤ length s
unfolding read_value
read_value_le at_integer s = read_int_le s
read_value_le at_float s = read_double-length s
read_value_le at_string s = read_string-length s
read_value_le at_unknown s = omega arith

-- A record that is read takes a byte at least.
pub read_index_record-length :
    (s : Bytes) {r : IndexRecord}
    → (read_index_record s).0 ≡ some r
    → length (read_index_record s).1 < length s
unfolding read_index_record read_fields
read_index_record-length s h = elim (Option-cases (miqs_read_int s).0) [
  | inl e ↦ cc (rw e at h)
  | inr (n, e) ↦
      let type : AttrType = get_miqs_type_from_int n in
      let s1 : Bytes = (miqs_read_int s).1 in
      let s2 : Bytes = (miqs_read_string s1).1 in
      let s3 : Bytes = (read_value type s2).1 in
      let s4 : Bytes = (miqs_read_string s3).1 in
      rw e (
        omega (
          arith,
          read_int-length s e,
          read_string-length s1,
          read_value_le type s2,
          read_string-length s3,
          read_string-length s4,
        ))
]

-- The end of a skipped record: two fields.
two_fields : Bytes → Found → Option (Found × Bytes)
two_fields s f = do (n1, s1) ← miqs_skip_field s; (n2, s2) ← miqs_skip_field s1; some (f, s2)

two_fields-length :
    (s : Bytes) (f : Found) {g : Found} {rest : Bytes}
    → two_fields s f ≡ some (g, rest)
    → length rest ≤ length s
unfolding two_fields
two_fields-length s f {g} {rest} h = elim (Option-cases (miqs_skip_field s)) [
  | inl e ↦ cc (rw e at h)
  | inr (r, e) ↦ elim (Option-cases (miqs_skip_field r.1)) [
    | inl e' ↦ cc (rw (e, e') at h)
    | inr (r', e') ↦
        let left : r'.1 ≡ rest = ap (λ x. x.1) (some_inj.0 (rw (e, e') at h)) in
        omega (arith, skip_field-length s e, skip_field-length r.1 e', ap length left)
  ]
]

skip_record-length :
    (s : Bytes) (f : Found) {g : Found} {rest : Bytes}
    → skip_record s f ≡ some (g, rest)
    → length rest ≤ length s
unfolding skip_record two_fields
skip_record-length s f {g} {rest} h = elim (Option-cases (miqs_skip_field s)) [
  | inl e ↦ cc (rw e at h)
  | inr (r, e) ↦
      omega
        (arith, skip_field-length s e, two_fields-length r.1 f {g = g} {rest = rest} (rw e at h))
]

-- A record whose name was found, behind its value.
found-length :
    (b : Bool) (s : Bytes) (f f' : Found) {g : Found} {rest : Bytes}
    → (if b then some (f', (miqs_read_string (miqs_read_string s).1).1) else two_fields s f)
      ≡ some (g, rest)
    → length rest ≤ length s
found-length true s f f' h = omega (
  arith,
  read_string-length s,
  read_string-length (miqs_read_string s).1,
  ap (λ x. length x.1) (some_inj.0 h),
)
found-length false s f f' h = two_fields-length s f h

visit_named-length :
    (matches : Pointee → Bool) (name : Option Bytes) (type : AttrType) (s : Bytes) (f : Found)
    {g : Found} {rest : Bytes}
    → visit_named matches name type s f ≡ some (g, rest)
    → length rest ≤ length s
unfolding visit_named two_fields
visit_named-length matches name at_unknown s f h = cc h
visit_named-length matches name at_integer s f h =
    omega (
      arith,
      found-length (matches (read_value at_integer s).0) _ f _ h,
      read_value_le at_integer s,
    )
visit_named-length matches name at_float s f h =
    omega
      (arith, found-length (matches (read_value at_float s).0) _ f _ h, read_value_le at_float s)
visit_named-length matches name at_string s f h =
    omega
      (arith, found-length (matches (read_value at_string s).0) _ f _ h, read_value_le at_string s)

visit-length :
    (name : Bytes) (matches : Pointee → Bool) (n : ℕ) (s : Bytes) (f : Found) {g : Found}
    {rest : Bytes}
    → visit name matches n s f ≡ some (g, rest)
    → length rest ≤ length s
unfolding visit
visit-length name matches n s f {g} {rest} h = elim (Option-cases (miqs_read_string s).0) [
  | inl e ↦ cc (rw e at h)
  | inr (on_disk, e) ↦ elim (Bool-cases (str_eq name on_disk)) [
    | inl same ↦ omega (
      arith,
      read_string-length s,
      visit_named-length matches (some name) (get_miqs_type_from_int n) (miqs_read_string s).1 f
          {g = g} {rest = rest} (rw (e, same) at h),
    )
    | inr other ↦ omega (
      arith,
      read_string-length s,
      skip_record-length (miqs_read_string s).1 f {g = g} {rest = rest} (rw (e, other) at h),
    )
  ]
]

release_end : (f : Found) → release f ≢ unfinished
unfolding release
release_end f h = elim (Bool-cases (f.garbage == 0)) [
  | inl e ↦ cc (rw e at h)
  | inr e ↦ cc (rw e at h)
]

scan_end :
    (fuel : ℕ) (name : Bytes) (matches : Pointee → Bool) (s : Bytes) (f : Found)
    → length s < fuel
    → scan fuel name matches s f ≢ unfinished
unfolding scan
scan_end zero name matches s f h e = elim h [ ]
scan_end (suc fuel) name matches s f h e = elim (Option-cases (miqs_read_int s).0) [
  | inl n ↦ release_end f (rw (n, scan) at e)
  | inr (n, en) ↦ elim (Option-cases (visit name matches n (miqs_read_int s).1 f)) [
    | inl v ↦ cc (rw (en, scan, v) at e)
    | inr (r, v) ↦
        scan_end fuel name matches r.1 r.0
          (omega
            (arith, h, read_int-length s en, visit-length name matches n (miqs_read_int s).1 f v))
          (rw (en, scan, v) at e)
  ]
]

-- Whatever the file holds, `find_index_record` comes to an end: it returns or it runs into undefined
-- behaviour.
pub find-finishes :
    (name : Bytes) (matches : Pointee → Bool) (contents : Option Bytes) (out_len : Option ℕ)
    → find_index_record name matches contents out_len ≢ unfinished
unfolding find_index_record
find-finishes name matches none out_len e = cc e
find-finishes name matches (some contents) none e = cc e
find-finishes name matches (some contents) (some out_len) e =
    scan_end (suc (length contents)) name matches contents _ (omega arith) e

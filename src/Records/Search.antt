-- ===== src/Records/Search.antt =====
-- What `find_index_record` finds in a file of records.
use miqs.Prelude.{
  ℕ, zero, suc, ◌+◌, ◌*◌, ◌-◌, ◌<◌, ◌≤◌, ◌≡◌, ap, ◌∙◌, Bool, ◌&&◌, some, List, [], ◌∷◌, ◌++◌, Bytes,
  length, str_eq, All, arith, map, length-append, length-map, append_assoc, append-nil,
  if◌then◌else◌,
}
use miqs.Metadata.{attr_type_code}
use miqs.Storage.Words.{length-le_bytes}
use miqs.Storage.Fields.{miqs_read_int}
use miqs.Storage.RoundTrip.{read_int-field}
use miqs.Storage.Misuse.{read_at_end}
use miqs.Records.{Pointee, IndexRecord}
use miqs.Records.Layout.{
  Entry, IsEntry, value_type, pointee, record_of, layout, layout_all, type_code_fits,
}
use miqs.Records.Find.{
  Found, array, undefined, put_record, release, visit, scan, initial_capacity, find_index_record,
}
use miqs.Records.Visit.{is_hit, behind_type, visit-layout}

-- The entries of the name asked for whose value matches, in the order of the file.
abbrev pub hits : Bytes → (Pointee → Bool) → List Entry → List Entry
hits name matches [] = []
hits name matches (e ∷ es) =
    if str_eq name e.name && matches (pointee e.value)
    then e ∷ hits name matches es
    else hits name matches es

abbrev put_all : List Entry → Found → Found
put_all [] f = f
put_all (e ∷ es) f = put_all es (put_record (record_of e) f)

scan_end :
    (fuel : ℕ) (name : Bytes) (matches : Pointee → Bool) (f : Found)
    → scan (suc fuel) name matches [] f ≡ release f
unfolding scan
scan_end fuel name matches f = rw (read_at_end.0, scan)

scan_step :
    (fuel : ℕ) (name : Bytes) (matches : Pointee → Bool) (f : Found) (n : ℕ) (stream : Bytes)
    {s1 s2 : Bytes} {g : Found}
    → miqs_read_int stream ≡ (some n, s1)
    → visit name matches n s1 f ≡ some (g, s2)
    → scan (suc fuel) name matches stream f ≡ scan fuel name matches s2 g
unfolding scan
scan_step fuel name matches f n stream read visited = ground arith

scan_entry :
    (e : Entry) (rest : Bytes) (fuel : ℕ) (name : Bytes) (matches : Pointee → Bool) (f : Found)
    → IsEntry e
    → scan (suc fuel) name matches (layout e rest) f
      ≡ scan fuel name matches rest
          (if is_hit name matches e then put_record (record_of e) f else f)
unfolding layout
scan_entry e rest fuel name matches f h =
    scan_step fuel name matches f _ _
      (read_int-field (attr_type_code (value_type e.value)) (behind_type e rest)
        (type_code_fits e.value))
      (visit-layout name matches e rest f h)

scan-layout :
    (es : List Entry) (fuel : ℕ) (name : Bytes) (matches : Pointee → Bool) (f : Found)
    → All IsEntry es
    → length es < fuel
    → scan fuel name matches (layout_all es []) f ≡ release (put_all (hits name matches es) f)
unfolding layout_all
scan-layout [] (suc fuel) name matches f h lt = scan_end fuel name matches f
scan-layout es zero name matches f h lt = absurd (omega arith)
scan-layout (e ∷ es) (suc fuel) name matches f h lt =
    scan_entry e _ fuel name matches f h.0
    ∙ ground (
      arith,
      scan-layout es fuel name matches (put_record (record_of e) f) h.1,
      scan-layout es fuel name matches f h.1,
    )

put_record_zeroed :
    (r : IndexRecord) (rs : List IndexRecord) (z : ℕ)
    → 0 < z
    → put_record r (record { filled = rs; zeroed = z; garbage = 0 })
      ≡ record { filled = rs ++ r ∷ []; zeroed = z - 1; garbage = 0 }
unfolding put_record
put_record_zeroed r rs z h = ground arith

-- The array while it has free null slots, and when it has been enlarged once.
put_all-zeroed :
    (es : List Entry) (rs : List IndexRecord) (z : ℕ)
    → length es ≤ z
    → put_all es (record { filled = rs; zeroed = z; garbage = 0 })
      ≡ record { filled = rs ++ map record_of es; zeroed = z - length es; garbage = 0 }
put_all-zeroed [] rs z h = rw append-nil (ground arith)
put_all-zeroed (e ∷ es) rs z h =
    ap (put_all es) (put_record_zeroed (record_of e) rs z (omega arith))
    ∙ put_all-zeroed es (rs ++ record_of e ∷ []) (z - 1) (omega arith)
    ∙ rw append_assoc (ground arith)

length-layout : (e : Entry) (rest : Bytes) → 1 + length rest ≤ length (layout e rest)
unfolding layout
length-layout e rest = simp (length-append, length-le_bytes) (omega arith)

length-layout_all : (es : List Entry) → length es ≤ length (layout_all es [])
unfolding layout_all
length-layout_all [] = omega arith
length-layout_all (e ∷ es) = omega (arith, length-layout_all es, length-layout e (layout_all es []))

-- In a file of well-formed records, `find_index_record` returns, in the order of the file, exactly
-- the records of that name whose value matches, with their number in `*out_len`, provided that
-- they are no more than the capacity asked for.
pub find-layout_all :
    (name : Bytes) (matches : Pointee → Bool) (es : List Entry) (out_len : ℕ)
    → All IsEntry es
    → length (hits name matches es) ≤ initial_capacity out_len
    → find_index_record name matches (some (layout_all es [])) (some out_len)
      ≡ array (map record_of (hits name matches es)) (length (hits name matches es))
unfolding find_index_record release
find-layout_all name matches es out_len h fits =
    scan-layout es _ name matches _ h (omega (arith, length-layout_all es))
    ∙ ap release (put_all-zeroed (hits name matches es) [] (initial_capacity out_len) fits)
    ∙ ground (arith, length-map (hits name matches es) record_of)

put_record_garbage :
    (r : IndexRecord) (rs : List IndexRecord) (g : ℕ)
    → 0 < g
    → put_record r (record { filled = rs; zeroed = 0; garbage = g })
      ≡ record { filled = rs ++ r ∷ []; zeroed = 0; garbage = g - 1 }
unfolding put_record
put_record_garbage r rs g h = ground arith

put_record_full :
    (r : IndexRecord) (rs : List IndexRecord)
    → put_record r (record { filled = rs; zeroed = 0; garbage = 0 })
      ≡ record { filled = rs ++ r ∷ []; zeroed = 0; garbage = length rs - 1 }
unfolding put_record
put_record_full r rs = ground arith

put_all-garbage :
    (es : List Entry) (rs : List IndexRecord) (g : ℕ)
    → length es < g
    → 0 < (put_all es (record { filled = rs; zeroed = 0; garbage = g })).garbage
put_all-garbage [] rs g h = h
put_all-garbage (e ∷ es) rs g h =
    rw (put_record_garbage (record_of e) rs g (omega arith), put_all)
      (put_all-garbage es (rs ++ record_of e ∷ []) (g - 1) (omega arith))

put_all-enlarged :
    (es : List Entry) (rs : List IndexRecord) (z : ℕ)
    → z < length es
    → length es < z + (length rs + z)
    → 0 < (put_all es (record { filled = rs; zeroed = z; garbage = 0 })).garbage
put_all-enlarged [] rs z h hi = elim h [ ]
put_all-enlarged (e ∷ es) rs zero h hi =
    rw (put_record_full (record_of e) rs, put_all)
      (put_all-garbage es (rs ++ record_of e ∷ []) (length rs - 1) (omega arith))
put_all-enlarged (e ∷ es) rs (suc z) h hi =
    rw (put_record_zeroed (record_of e) rs (suc z) (omega arith), put_all)
      (put_all-enlarged es (rs ++ record_of e ∷ []) (suc z - 1) (omega arith)
        (omega (arith, length-append rs (record_of e ∷ []))))

-- When, in a file of well-formed records, the matching records are more than the capacity asked for and fewer than twice that, the
-- enlarged array keeps slots that nothing has set, `find_index_record` passes them to `free`, and
-- its behaviour is undefined.
pub find_enlarged :
    (name : Bytes) (matches : Pointee → Bool) (es : List Entry) (out_len : ℕ)
    → All IsEntry es
    → initial_capacity out_len < length (hits name matches es)
    → length (hits name matches es) < 2 * initial_capacity out_len
    → find_index_record name matches (some (layout_all es [])) (some out_len) ≡ undefined
unfolding find_index_record release
find_enlarged name matches es out_len h lo hi =
    scan-layout es _ name matches _ h (omega (arith, length-layout_all es))
    ∙ ground (
      arith,
      put_all-enlarged (hits name matches es) [] (initial_capacity out_len) lo (omega arith),
    )

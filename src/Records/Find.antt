-- ===== src/Records/Find.antt =====
-- src/index/on_disk_index.c, `find_index_record`: a scan of the file for the records of one name.
-- The result array is its filled slots in order, the slots behind them that are still null, and the
-- slots that `realloc` has added and nothing has set. A count of records stays below 2^30, so that
-- the capacity, an int, does not overflow.
use miqs.Prelude.{
  ℕ, zero, suc, ◌+◌, ◌-◌, ◌^◌, Bool, ◌||◌, Option, none, some, List, [], ◌∷◌, ◌++◌, Bytes, length,
  ◌>>=◌, ◌==◌, leb, str_eq, if◌then◌else◌,
}
use miqs.Metadata.{AttrType, at_unknown, get_miqs_type_from_int}
use miqs.Storage.Fields.{miqs_read_int, miqs_read_string, miqs_skip_field}
use miqs.Records.{Pointee, IndexRecord, create_index_record, read_value}

pub record Found : Type 0 where
  pub filled : List IndexRecord
  pub zeroed : ℕ
  pub garbage : ℕ

-- The outcome of a call: no array, the array with `*out_len`, or undefined behaviour. `unfinished`
-- is no outcome of the code: the model's scan ran out of rounds.
pub data Outcome : Type 0 where
  no_array : Outcome
  array : List IndexRecord → ℕ → Outcome
  undefined : Outcome
  unfinished : Outcome

abbrev pub capacity : Found → ℕ
capacity f = length f.filled + f.zeroed + f.garbage

-- `realloc` to twice the capacity when the array is full.
unfoldable pub make_room : Found → Found
make_room f =
    if length f.filled == capacity f then record f { garbage = f.garbage + capacity f } else f

-- `rst[curr_pos++] = new_record`
unfoldable pub put_record : IndexRecord → Found → Found
unfolding make_room
put_record r f =
    let g = make_room f in
    record g {
      filled = g.filled ++ r ∷ [];
      zeroed = g.zeroed - 1;
      garbage = if g.zeroed == 0 then g.garbage - 1 else g.garbage;
    }

-- The free slots are freed from the last one down; to free an unset pointer is undefined.
unfoldable pub release : Found → Outcome
release f = if f.garbage == 0 then array f.filled (length f.filled) else undefined

-- At a name and a type: the value is read and compared, and the record read on or skipped. At an
-- unknown type `compare_value` gets a pointer that nothing has set.
unfoldable pub visit_named :
    (Pointee → Bool) → Option Bytes → AttrType → Bytes → Found → Option (Found × Bytes)
unfolding put_record
visit_named matches name at_unknown stream f = none
visit_named matches name type stream f =
    let (payload, s1) = read_value type stream in
    if matches payload
    then (let (file_path, s2) = miqs_read_string s1 in
        let (object_path, s3) = miqs_read_string s2 in
        some (put_record (create_index_record type name payload file_path object_path) f, s3))
    else do (n1, s2) ← miqs_skip_field s1; (n2, s3) ← miqs_skip_field s2; some (f, s3)

-- The value and two paths.
unfoldable pub skip_record : Bytes → Found → Option (Found × Bytes)
skip_record stream f = do
  (n1, s1) ← miqs_skip_field stream
  (n2, s2) ← miqs_skip_field s1
  (n3, s3) ← miqs_skip_field s2
  some (f, s3)

-- One round behind the type. `strcmp` reads the name, which must not be a null pointer.
unfoldable pub visit : Bytes → (Pointee → Bool) → ℕ → Bytes → Found → Option (Found × Bytes)
unfolding visit_named skip_record
visit name matches number stream f =
    let (name_from_disk, s1) = miqs_read_string stream in
    name_from_disk >>= λ on_disk.
    if str_eq name on_disk
    then visit_named matches (some name) (get_miqs_type_from_int number) s1 f
    else skip_record s1 f

-- The `while (1)` loop.
unfoldable pub scan : ℕ → Bytes → (Pointee → Bool) → Bytes → Found → Outcome
scan zero name matches stream f = unfinished
scan (suc fuel) name matches stream f =
    let (number, s1) = miqs_read_int stream in
    elim number [
      | none ↦ release f
      | some n ↦ elim (visit name matches n s1 f) [
        | none ↦ undefined
        | some (g, s2) ↦ scan fuel name matches s2 g
      ]
    ]

-- `*out_len <= 0` on the 32-bit pattern.
unfoldable pub initial_capacity : ℕ → ℕ
initial_capacity out_len = if out_len == 0 || leb (2 ^ 31) out_len then 10 else out_len

-- The stream is rewound, so that the scan starts at the front of the file. A round reads a byte at
-- least: one round more than the file has bytes is enough.
unfoldable pub find_index_record : Bytes → (Pointee → Bool) → Option Bytes → Option ℕ → Outcome
unfolding initial_capacity
find_index_record name matches none out_len = no_array
find_index_record name matches (some contents) none = no_array
find_index_record name matches (some contents) (some out_len) =
    scan (suc (length contents)) name matches contents
      (record { filled = []; zeroed = initial_capacity out_len; garbage = 0 })

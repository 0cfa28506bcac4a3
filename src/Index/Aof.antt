-- ===== src/Index/Aof.antt =====
-- src/index/in_mem_index.c: `indexing_attr`, and the append-only index file that it writes and that
-- `load_aof` reads back.
use miqs.Containers.{Containers}
use miqs.Index.Build.{is_specified_field, create_in_mem_index_for_attr}
use miqs.Index.State.{
  AttrValues, unknown_values, int_values, float_values, string_values, invalid,
  attribute_value_length, Attribute, no_stream, reading, writing, Anchor,
}
use miqs.Metadata.{AttrType, at_unknown, at_integer, at_float, at_string}
use miqs.Prelude.{
  map, ℕ, zero, suc, ◌+◌, Bool, true, Option, none, some, List, [], ◌∷◌, Bytes, length, ◌>>=◌, ◌==◌,
  ltb, if◌then◌else◌,
}
use miqs.Records.{
  Pointee, int_at, double_at, char_ptr_at, IndexRecord, create_index_record, append_index_record,
  read_index_record,
}
use mathlib.Core.Option

-- A record is made and appended for each value, through the pointer to it.
append_each :
    (Bytes → Bytes)
    → AttrType
    → Bytes
    → List Pointee
    → Option Bytes
    → Option Bytes
    → Bytes
    → Option Bytes
append_each pointer_text type name [] file_path obj_path stream = some stream
append_each pointer_text type name (p ∷ ps) file_path obj_path stream = do
  s ←
      append_index_record pointer_text
        (some (create_index_record type (some name) p file_path obj_path)) stream
  append_each pointer_text type name ps file_path obj_path s

-- The elements of a string array are `char *`, and the pointer to one is a `char **`.
unfoldable pub write_aof :
    (Bytes → Bytes) → Attribute → Option Bytes → Option Bytes → Bytes → Option Bytes
unfolding append_each
write_aof pointer_text attr file_path obj_path stream = elim attr.attribute_value [
  | int_values vs ↦
      append_each pointer_text at_integer attr.attr_name (map int_at vs) file_path obj_path stream
  | float_values vs ↦
      append_each pointer_text at_float attr.attr_name (map double_at vs) file_path obj_path stream
  | string_values vs ↦
      append_each pointer_text at_string attr.attr_name (map char_ptr_at vs) file_path obj_path
        stream
  | unknown_values n ↦ some stream
  | invalid at_unknown ↦ some stream
  | invalid _ ↦ none
]

-- The value of a record: an integer or a double through the record's pointer. A string's array is a
-- local variable of a block that has ended.
unfoldable pub record_values : AttrType → Pointee → AttrValues
record_values at_integer (int_at v) = int_values (v ∷ [])
record_values at_float (double_at v) = float_values (v ∷ [])
record_values type p = invalid type

module _ ⦃c : Containers⦄ where
  -- The write to the index file, when it is open for that.
  unfoldable pub log_attr : (Bytes → Bytes) → ℕ → Anchor → Attribute → Option Anchor
  unfolding write_aof
  log_attr pointer_text disk_duration a attr = elim a.on_disk_file_stream [
    | no_stream ↦ some a
    | reading ↦ if a.is_readonly_index_file == 0 then none else some a
    | writing bytes ↦
        if a.is_readonly_index_file == 0
        then (do
          bytes' ← write_aof pointer_text attr a.file_path a.obj_path bytes
          some (record a {
            on_disk_file_stream = writing bytes';
            us_to_disk_index = a.us_to_disk_index + disk_duration;
          }))
        else some a
  ]

  -- `build_index`: with no list of fields every attribute is indexed.
  unfoldable pub build_index : Bytes → List Bytes → Bool
  build_index name fields = if ltb 0 (length fields) then is_specified_field name fields else true

  unfoldable pub indexing_attr : (Bytes → Bytes) → ℕ → ℕ → Anchor → Attribute → Option Anchor
  unfolding build_index
  indexing_attr pointer_text disk_duration duration a attr =
      let counted = record a { total_num_attrs = a.total_num_attrs + 1 } in
      let len = attribute_value_length attr.attribute_value in
      if build_index attr.attr_name a.indexed_attr
      then (do
        logged ←
            log_attr pointer_text disk_duration
              (record counted { total_num_kv_pairs = a.total_num_kv_pairs + len }) attr
        indexed ← create_in_mem_index_for_attr duration logged attr
        some (record indexed {
          total_num_indexed_kv_pairs = indexed.total_num_indexed_kv_pairs + len;
        }))
      else some counted

  -- The paths go to the anchor; those of the attribute are never set.
  unfoldable pub convert_index_record_to_in_mem_parameters :
      Anchor → IndexRecord → Anchor × Option Attribute
  unfolding record_values
  convert_index_record_to_in_mem_parameters a ir = (
    record a { file_path = ir.file_path; obj_path = ir.object_path },
    Option.map
        (λ name. record {
          attr_name = name;
          attribute_value = record_values ir.type ir.payload;
          file_path_str = none;
          obj_path_str = none;
        })
        ir.name,
  )

  -- How `load_aof` ends: with the state and the count of records, or in a fault. `unfinished` is no
  -- outcome of the code: the model's loop ran out of rounds.
  pub data Loaded : Type 0 where
    loaded : Anchor → ℕ → Loaded
    faulted unfinished : Loaded

  -- `durations` are what the stopwatches read. A record takes a byte at least, so one round more
  -- than the file has bytes is enough.
  unfoldable pub load_aof_loop : ℕ → (Bytes → Bytes) → ℕ → ℕ → Bytes → ℕ → Anchor → Loaded
  unfolding convert_index_record_to_in_mem_parameters
  load_aof_loop zero pt disk duration stream count a = unfinished
  load_aof_loop (suc fuel) pt disk duration stream count a =
      let (ir, rest) = read_index_record stream in
      elim ir [
        | none ↦ loaded a count
        | some r ↦
            let (a', attr) = convert_index_record_to_in_mem_parameters a r in
            elim (attr >>= indexing_attr pt disk duration a') [
              | none ↦ faulted
              | some b ↦ load_aof_loop fuel pt disk duration rest (count + 1) b
            ]
      ]

  -- `load_aof` on a file that cannot be read, or on its bytes.
  unfoldable pub load_aof : (Bytes → Bytes) → ℕ → ℕ → Option Bytes → Anchor → Loaded
  load_aof pt disk duration none a = loaded a 0
  load_aof pt disk duration (some []) a = loaded a 0
  load_aof pt disk duration (some (b ∷ bs)) a =
      load_aof_loop (suc (length (b ∷ bs))) pt disk duration (b ∷ bs) 0
        (record a { on_disk_file_stream = reading; is_readonly_index_file = 1 })

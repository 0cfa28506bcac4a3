-- ===== src/Tests/Records.antt =====
-- Runs of the index records and the search of a file.
use miqs.Containers.Assoc.{assoc}
use miqs.Prelude.{◌==◌, ◌≡◌, ◌≢◌, Bool, true, false, some, [], ◌∷◌, arith}
use miqs.Records.{int_at, Pointee, read_index_record}
use miqs.Records.Finishes.{find-finishes}
use miqs.Records.Find.{unfinished, find_index_record, array, undefined, initial_capacity}
use miqs.Records.Layout.{
  Entry, IsEntry, int_value, text_value, record_of, layout, layout_all, read-layout,
}
use miqs.Records.Search.{find-layout_all, find_enlarged}
use miqs.Tests.{codes, plate, run_h5, sky_h5, plate-IsText}

-- A record of an integer, and one of a string.
abbrev pub first : Entry
first = record { name = plate; value = int_value 3; file_path = run_h5; object_path = codes "/a" }

abbrev second : Entry
second = record {
  name = plate;
  value = text_value plate;
  file_path = sky_h5;
  object_path = codes "/b";
}

pub first-IsEntry : IsEntry first
first-IsEntry = record {
  name_text = plate-IsText;
  value_fits = omega arith;
  file_text = record { no_zero = ground arith; fits = omega arith };
  object_text = record { no_zero = ground arith; fits = omega arith };
}

second-IsEntry : IsEntry second
second-IsEntry = record {
  name_text = plate-IsText;
  value_fits = plate-IsText;
  file_text = record { no_zero = ground arith; fits = omega arith };
  object_text = record { no_zero = ground arith; fits = omega arith };
}

read-layout_example : read_index_record (layout second (9 ∷ [])) ≡ (some (record_of second), 9 ∷ [])
read-layout_example = read-layout second (9 ∷ []) second-IsEntry

abbrev is_three : Pointee → Bool
is_three (int_at v) = v == 3
is_three _ = false

find-layout_all_example :
    find_index_record plate is_three (some (layout_all (first ∷ second ∷ []) [])) (some 1)
    ≡ array (record_of first ∷ []) 1
find-layout_all_example =
    find-layout_all plate is_three (first ∷ second ∷ []) 1 (first-IsEntry, (second-IsEntry, tt))
      (unfold initial_capacity in omega arith)

find_enlarged_example :
    find_index_record plate
      (λ p. true)
      (some (layout_all (first ∷ second ∷ first ∷ []) []))
      (some 2)
    ≡ undefined
find_enlarged_example =
    find_enlarged plate (λ p. true) (first ∷ second ∷ first ∷ []) 2
      (first-IsEntry, (second-IsEntry, (first-IsEntry, tt)))
      (unfold initial_capacity in omega arith) (unfold initial_capacity in omega arith)

find-finishes_example :
    find_index_record plate is_three (some (layout first (9 ∷ []))) (some 10) ≢ unfinished
find-finishes_example = find-finishes plate is_three (some (layout first (9 ∷ []))) (some 10)

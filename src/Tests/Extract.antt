-- ===== src/Tests/Extract.antt =====
-- Runs of the HDF5 extractor.
use miqs.Containers.Assoc.{assoc}
use miqs.Prelude.{ℕ, ◌≡◌, refl, some, List, [], ◌∷◌, ◌++◌, Bytes, arith}
use miqs.Extract.{
  H5Attribute, H5Object, H5File, h5_dataset, h5_group, h5_integer, h5_fixed_string, read_attr,
  read_fixed_string_attr,
}
use miqs.Extract.Collector.{Collector}
use miqs.Extract.Facts.{IntObject, h5_file, scan_facts}
use miqs.Index.Refines.{same-Represents}
use miqs.Extract.Indexing.{parse_hdf5_file}
use miqs.Extract.Scanned.{parse-Represents}
use miqs.Index.Build.{init_in_mem_index}
use miqs.Index.Refines.{Represents, init-Represents}
use miqs.Index.State.{Anchor, string_values}
use miqs.Storage.Fields.{c_str}
use miqs.Tests.{codes, plate, run_h5, start}

-- An attribute of one integer, and an object with three of them.
abbrev small : Bytes → ℕ → H5Attribute
small name v = record { name = name; npoints = 1; content = h5_integer (v ∷ 0 ∷ 0 ∷ 0 ∷ []) }

abbrev three_attrs : H5Object
three_attrs = record {
  name = codes "a";
  type = h5_dataset;
  attributes = small (codes "x") 1 ∷ small (codes "y") 2 ∷ small (codes "z") 3 ∷ [];
}

abbrev two_objects : H5File
two_objects = record {
  objects = record { name = codes "."; type = h5_group; attributes = [] } ∷ three_attrs ∷ [];
  links = [];
}

-- A string array of fixed width is one value, cut at its first 0.
fixed_string_test :
    read_attr
      (record { name = plate; npoints = 2; content = h5_fixed_string (97 ∷ 0 ∷ 98 ∷ 0 ∷ []) })
    ≡ some (string_values (codes "a" ∷ []))
unfolding read_attr read_fixed_string_attr c_str
fixed_string_test = refl

-- An index that has seen an object already, and a file of integer attributes.
abbrev in_object : Anchor
in_object = record start { obj_path = some (codes "b") }

in_object-Represents : Represents in_object []
in_object-Represents =
    same-Represents start in_object [] refl refl refl refl (init-Represents 4 (omega arith))

abbrev int_objects : List IntObject
int_objects =
    record { name = codes "."; attrs = (plate, 3 ∷ 5 ∷ []) ∷ [] }
    ∷ record { name = codes "a"; attrs = (plate, 3 ∷ []) ∷ (codes "x", 4 ∷ []) ∷ [] }
    ∷ []

parse-Represents_example :
    (a' : Anchor) × (parse_hdf5_file
        (λ s. s)
        5
        7
        (some (h5_file int_objects))
        run_h5
        (some in_object)
      ≡ some (some a'))
    × Represents a' ([] ++ scan_facts [] run_h5 (codes "b") int_objects)
unfolding init_in_mem_index
parse-Represents_example =
    parse-Represents (λ s. s) 5 7 [] run_h5 (codes "b") int_objects [] in_object
      in_object-Represents refl refl refl
      (((omega arith, (omega arith, tt)), tt), (((omega arith, tt), ((omega arith, tt), tt)), tt))

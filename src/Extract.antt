-- ===== src/Extract.antt =====
-- src/metadata/hdf5_meta_extractor.c: what the calls of the HDF5 library return, and the values of an
-- attribute. `none` is a fault: memory that is not there is written.
pub mod Nodes
pub mod Collector
pub mod Attributes
pub mod Collected
pub mod Indexing
pub mod Facts
pub mod Scanned
use miqs.Prelude.{
  ℕ, zero, suc, ◌*◌, Option, none, some, List, [], ◌∷◌, Bytes, length, take, drop, ltb,
  if◌then◌else◌,
}
use miqs.Storage.Words.{of_le_bytes}
use miqs.Storage.Fields.{c_str}
use miqs.Index.State.{AttrValues, unknown_values, int_values, float_values, string_values}

-- The class of an attribute's type with what `H5Aread` writes: the bytes of all elements, each as wide
-- as the type in the file, or for strings of variable length one pointer each.
pub data H5Data : Type 0 where
  h5_integer h5_float h5_fixed_string : Bytes → H5Data
  h5_variable_string : List Bytes → H5Data
  h5_other : H5Data

-- An attribute, with the number of elements in its space.
pub record H5Attribute : Type 0 where
  pub name : Bytes
  pub npoints : ℕ
  pub content : H5Data

-- `H5O_type_t`
pub data H5Type : Type 0 where
  h5_group h5_dataset h5_named_datatype h5_unknown_object : H5Type

-- An object, with its attributes in the order of `H5Aiterate`.
pub record H5Object : Type 0 where
  pub name : Bytes
  pub type : H5Type
  pub attributes : List H5Attribute

-- A file: the objects in the order of `H5Ovisit`, and for each link that `H5Lvisit` comes to the
-- object it points to, under the name of the link.
pub record H5File : Type 0 where
  pub objects : List H5Object
  pub links : List H5Object

-- `miqs_object_type_t`
pub data ObjectType : Type 0 where
  ot_unknown ot_group ot_dataset : ObjectType

unfoldable pub get_miqs_type_from_h5 : H5Type → ObjectType
get_miqs_type_from_h5 h5_group = ot_group
get_miqs_type_from_h5 h5_dataset = ot_dataset
get_miqs_type_from_h5 h5_named_datatype = ot_unknown
get_miqs_type_from_h5 h5_unknown_object = ot_unknown

-- The elements of `width` bytes in a zeroed array of n, into which the bytes were read.
unfoldable pub elements : ℕ → ℕ → Bytes → List ℕ
elements width zero bytes = []
elements width (suc n) bytes = of_le_bytes (take width bytes) ∷ elements width n (drop width bytes)

-- The array has 4 bytes for each element, whatever the type in the file.
unfoldable pub read_int_attr : ℕ → Bytes → Option AttrValues
unfolding elements
read_int_attr npoints bytes =
    if ltb (4 * npoints) (length bytes) then none else some (int_values (elements 4 npoints bytes))

unfoldable pub read_float_attr : ℕ → Bytes → Option AttrValues
unfolding elements
read_float_attr npoints bytes =
    if ltb (8 * npoints) (length bytes)
    then none
    else some (float_values (elements 8 npoints bytes))

-- The pointers are read into an array of 100.
unfoldable pub read_variable_string_attr : ℕ → List Bytes → Option AttrValues
read_variable_string_attr npoints strings =
    if ltb 100 npoints then none else some (string_values (take npoints strings))

-- All the bytes become one string.
unfoldable pub read_fixed_string_attr : Bytes → AttrValues
read_fixed_string_attr bytes = string_values (c_str bytes ∷ [])

unfoldable pub read_attr : H5Attribute → Option AttrValues
unfolding read_int_attr read_float_attr read_variable_string_attr read_fixed_string_attr
read_attr attr = elim attr.content [
  | h5_integer bytes ↦ read_int_attr attr.npoints bytes
  | h5_float bytes ↦ read_float_attr attr.npoints bytes
  | h5_variable_string strings ↦ read_variable_string_attr attr.npoints strings
  | h5_fixed_string bytes ↦ some (read_fixed_string_attr bytes)
  | h5_other ↦ some (unknown_values 0)
]

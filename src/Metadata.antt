-- ===== src/Metadata.antt =====
-- src/metadata/miqs_metadata.c and .h: the types of attributes and objects.
use miqs.Prelude.{ℕ, ◌==◌, if◌then◌else◌}

-- `miqs_attr_type_t`
pub data AttrType : Type 0 where
  at_unknown at_integer at_float at_string : AttrType

-- The value of the enumerator.
unfoldable pub attr_type_code : AttrType → ℕ
attr_type_code at_unknown = 0
attr_type_code at_integer = 1
attr_type_code at_float = 2
attr_type_code at_string = 3

unfoldable pub get_miqs_type_from_int : ℕ → AttrType
get_miqs_type_from_int number =
    if number == 1
    then at_integer
    else if number == 2
    then at_float
    else if number == 3
    then at_string
    else at_unknown

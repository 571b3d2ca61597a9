-- ===== src/Core/Schema.antt =====
-- minispark/core/schema.py: fields, and schemas with distinct field names.
use minispark.Common.{
  String, Bool, Option, none, some, List, [], ◌∷◌, map, str_eq, if◌then◌else◌, Result, ok, raise,
  ◌>>=◌, map_result, value_error, key_error, has_duplicates, mem_name,
}
use minispark.Core.Types.{DataType}

pub record Field : Type 0 where
  pub name : String
  pub data_type : DataType
  pub nullable : Bool

pub record Schema : Type 0 where
  pub fields : List Field

abbrev pub names_of : List Field → List String
names_of fs = map (λ f. f.name) fs

-- `Schema.__init__`: a ValueError on a duplicate name.
unfoldable pub make_schema : List Field → Result Schema
make_schema fs =
    if has_duplicates (names_of fs) then raise value_error else ok (record { fields = fs })

abbrev pub field_names : Schema → List String
field_names s = names_of s.fields

unfoldable pub has_field : Schema → String → Bool
unfolding mem_name
has_field s n = mem_name n (field_names s)

unfoldable pub find_field : String → List Field → Option Field
find_field n [] = none
find_field n (f ∷ fs) = if str_eq n f.name then some f else find_field n fs

unfoldable pub get_field : Schema → String → Result Field
unfolding find_field
get_field s n = elim (find_field n s.fields) [ some f ↦ ok f | none ↦ raise (key_error n) ]

unfoldable pub select : Schema → List String → Result Schema
unfolding get_field make_schema
select s ns = do fs ← map_result (get_field s) ns; make_schema fs

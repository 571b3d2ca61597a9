-- ===== src/Logical/Nodes/Names.antt =====
-- The column names of a schema that a plan node produces.
use minispark.Common.{String, List, [], ◌∷◌, map, ◌≡◌, refl, ap₂, arith, has_duplicates, false, ok}
use minispark.Core.Value.{Host}
use minispark.Core.Schema.{Field, Schema, names_of, make_schema}
use minispark.Expressions.Syntax.{Expression, column}
use minispark.Expressions.Repr.{output_name}
use minispark.Logical.Nodes.{column_field, output_field, output_fields}

pub column_field-name :
    (name : String) (e : Expression) (s : Schema) → (column_field name e s).name ≡ name
unfolding column_field
column_field-name name (column n) s = ground arith
column_field-name name _ s = refl

-- A schema that is made has the fields given, with distinct names.
pub make_schema-ok :
    (fs : List Field) {s : Schema}
    → make_schema fs ≡ ok s
    → (s.fields ≡ fs) × (has_duplicates (names_of fs) ≡ false)
unfolding make_schema
make_schema-ok fs h = ground arith

pub make_schema-distinct :
    (fs : List Field)
    → has_duplicates (names_of fs) ≡ false
    → make_schema fs ≡ ok (record { fields = fs })
unfolding make_schema
make_schema-distinct fs h = rw h

module _ ⦃py : Host⦄ where
  abbrev pub output_names : List Expression → List String
  output_names es = map (λ e. output_name e) es

  -- A projection over a child that has a schema has one field for each column, under its output name.
  pub names-output_fields :
      (es : List Expression) (s : Schema)
      → (fs : List Field) × (output_fields es (ok s) ≡ ok fs) × (names_of fs ≡ output_names es)
  unfolding output_fields output_field
  names-output_fields [] s = ([], refl, refl)
  names-output_fields (e ∷ es) s =
      let (fs, p, q) = names-output_fields es s in
      (output_field e s ∷ fs, rw p, ap₂ ◌∷◌ (column_field-name (output_name e) _ s) q)

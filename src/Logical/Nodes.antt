-- ===== src/Logical/Nodes.antt =====
-- minispark/logical/nodes.py: the six logical nodes and the schema that each produces.
pub mod Names
use minispark.Common.{
  String, Bool, true, Option, none, some, List, [], ◌∷◌, ◌++◌, length, keep_if, negb, ◌==◌,
  if◌then◌else◌, Result, ok, raise, ◌>>=◌, value_error, mem_name,
}
use minispark.Core.Value.{Host}
use minispark.Core.Types.{DataType, string_type}
use minispark.Core.Schema.{Field, Schema, make_schema, find_field}
use minispark.Core.Dataset.{Dataset}
use minispark.Expressions.Syntax.{Expression, column, aggregate, count_all, unalias}
use minispark.Expressions.Repr.{output_name}
use minispark.Expressions.Aggregate.{result_type}

-- A `ScanSource`: `read(columns, filter)`, of a storage class that the logical layer does not know.
pub record ScanSource : Type 0 where
  pub read : Option (List String) → Option Expression → Result Dataset

pub data LogicalPlan : Type 0 where
  scan : Dataset → String → Option ScanSource → LogicalPlan
  filter : LogicalPlan → Expression → LogicalPlan
  project : LogicalPlan → List Expression → LogicalPlan
  aggregation : LogicalPlan → (group_by aggregates : List Expression) → LogicalPlan
  join :
      (left right : LogicalPlan)
      → (on : List String) → (how : String) → (broadcast : Bool) → LogicalPlan
  sort : LogicalPlan → (sort_exprs : List Expression) → (ascending : List Bool) → LogicalPlan

unfoldable pub children : LogicalPlan → List LogicalPlan
children (scan d n s) = []
children (filter c e) = c ∷ []
children (project c es) = c ∷ []
children (aggregation c g a) = c ∷ []
children (join l r on how b) = l ∷ r ∷ []
children (sort c es asc) = c ∷ []

-- `Sort.__init__`: a ValueError where the two lists differ in length.
unfoldable pub make_sort : LogicalPlan → List Expression → List Bool → Result LogicalPlan
make_sort c es asc = if length es == length asc then ok (sort c es asc) else raise value_error

-- The field of a plain column that the child has, under the output name; STRING for anything else.
unfoldable pub column_field : String → Expression → Schema → Field
column_field name (column n) s = elim (find_field n s.fields) [
  | some f ↦ record { name = name; data_type = f.data_type; nullable = f.nullable }
  | none ↦ record { name = name; data_type = string_type; nullable = true }
]
column_field name e s = record { name = name; data_type = string_type; nullable = true }

unfoldable pub infer_child_type : Expression → Schema → DataType
infer_child_type (column n) s = elim (find_field n s.fields) [
  | some f ↦ f.data_type
  | none ↦ string_type
]
infer_child_type e s = string_type

-- The type of an aggregate without its alias; a ValueError for another expression.
unfoldable pub aggregate_type : Expression → Schema → Result DataType
unfolding infer_child_type
aggregate_type (aggregate f e) s = ok (result_type f (infer_child_type e s))
aggregate_type count_all s = ok (result_type minispark.Expressions.Syntax.count string_type)
aggregate_type e s = raise value_error

module _ ⦃py : Host⦄ where
  unfoldable pub output_field : Expression → Schema → Field
  unfolding column_field unalias
  output_field e s = column_field (output_name e) (unalias e) s

  unfoldable pub aggregate_output_field : Expression → Schema → Result Field
  unfolding aggregate_type unalias
  aggregate_output_field e s = do
    t ← aggregate_type (unalias e) s
    ok (record { name = output_name e; data_type = t; nullable = true })

  -- `[_output_field(e, self.child.schema) for e in es]`: the child's schema is computed for each.
  unfoldable pub output_fields : List Expression → Result Schema → Result (List Field)
  unfolding output_field
  output_fields [] child = ok []
  output_fields (e ∷ es) child = do
    s ← child
    fs ← output_fields es child
    ok (output_field e s ∷ fs)

  unfoldable pub aggregate_output_fields : List Expression → Result Schema → Result (List Field)
  unfolding aggregate_output_field
  aggregate_output_fields [] child = ok []
  aggregate_output_fields (e ∷ es) child = do
    s ← child
    f ← aggregate_output_field e s
    fs ← aggregate_output_fields es child
    ok (f ∷ fs)

  unfoldable pub schema : LogicalPlan → Result Schema
  unfolding output_fields aggregate_output_fields make_schema
  schema (scan d n s) = ok d.schema
  schema (filter c e) = schema c
  schema (project c es) = do fs ← output_fields es (schema c); make_schema fs
  schema (aggregation c gs as') = do
    fs ← output_fields gs (schema c)
    more ← aggregate_output_fields as' (schema c)
    make_schema (fs ++ more)
  schema (join l r on how b) = do
    ls ← schema l
    rs ← schema r
    make_schema (ls.fields ++ keep_if (λ f. negb (mem_name f.name on)) rs.fields)
  schema (sort c es asc) = schema c

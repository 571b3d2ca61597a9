-- ===== src/Optimizer/Rules/Pushdown/Shadowing.antt =====
-- Predicate pushdown through a Project that computes a column of the name that the Filter reads.
use minispark.Common.{
  has_duplicates, mem_name, subset_names, String, true, false, none, some, [], ◌∷◌, ◌≡◌, refl,
  str_eq_refl, ok, ◌>>=◌,
}
use minispark.Core.Value.{Value, Record, Host, truthy}
use minispark.Core.Types.{int_type}
use minispark.Core.Schema.{Schema, make_schema}
use minispark.Core.Dataset.{from_list, to_list, iter_partitions, iter_records}
use minispark.Expressions.Syntax.{column, literal, alias, unalias, referenced_columns}
use minispark.Expressions.Evaluate.{lookup, get_item, evaluate}
use minispark.Expressions.Evaluate.Locality.{get_item_of}
use minispark.Expressions.Repr.{output_name}
use minispark.Logical.Nodes.{
  LogicalPlan, scan, filter, project, schema, output_field, output_fields, column_field,
}
use minispark.Execution.Executor.{
  execute, filter_row, filter_rows, project_row, project_rows, project_record, filtered_partition,
  projected_partition,
}
use minispark.Optimizer.Rules.Pushdown.{pushdown, push_filter}

-- One row with one column.
abbrev one_column : String → Schema
one_column n = record { fields = record { name = n; data_type = int_type; nullable = true } ∷ [] }

abbrev pub one_row : String → Value → LogicalPlan
one_row n v =
    scan
      (record {
        schema = one_column n;
        partitions =
            record {
              partition_id = 0;
              schema = one_column n;
              records = from_list (((n, v) ∷ []) ∷ []);
              row_count = some 1;
            }
            ∷ [];
      })
      "rows" none

lookup-head : (n : String) (v : Value) (r : Record) → lookup n ((n, v) ∷ r) ≡ some v
unfolding lookup
lookup-head n v r = rw (str_eq_refl n) refl

pub get_item-head : (n : String) (v : Value) (r : Record) → get_item ((n, v) ∷ r) n ≡ ok v
get_item-head n v r = get_item_of ((n, v) ∷ r) n (lookup-head n v r)

module _ ⦃py : Host⦄ where
  -- SELECT n FROM (SELECT w AS n FROM rows) WHERE n.
  abbrev pub shadowing_plan : String → Value → Value → LogicalPlan
  shadowing_plan n v w = filter (project (one_row n v) (alias (literal w) n ∷ [])) (column n)

  -- The rule changes the rows of a plan whose Filter reads a column that the Project below it computes
  -- under the name of one of its own columns: with a true computed value and a false original, the
  -- naive executor gives a row for the plan and none for the rewritten plan.
  pub pushdown_loses_row :
      (n : String) (v w : Value)
      → truthy v ≡ false
      → truthy w ≡ true
      → ((execute (shadowing_plan n v w) >>= iter_records) ≡ ok (((n, w) ∷ []) ∷ []))
        × (q : LogicalPlan) × (pushdown (shadowing_plan n v w) ≡ ok q)
        × ((execute q >>= iter_records) ≡ ok [])
  unfolding execute iter_records iter_partitions to_list from_list filter_rows filter_row
      project_rows project_row project_record evaluate schema output_fields output_field output_name
      make_schema has_duplicates mem_name subset_names referenced_columns filtered_partition
      projected_partition push_filter pushdown column_field unalias
  pushdown_loses_row n v w hv hw = (
    rw (get_item-head n w [], hw) refl,
    project (filter (one_row n v) (column n)) (alias (literal w) n ∷ []),
    rw (str_eq_refl n) refl,
    rw (get_item-head n v [], hv) refl,
  )

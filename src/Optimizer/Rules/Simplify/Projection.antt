-- ===== src/Optimizer/Rules/Simplify/Projection.antt =====
-- Filter simplification of the columns of a Project, which are no conditions.
use minispark.Common.{has_duplicates, mem_name, String, true, ◌&&◌, [], ◌∷◌, ◌≡◌, refl, ok, ◌>>=◌}
use minispark.Core.Value.{Value, bool, Host, truthy}
use minispark.Core.Schema.{make_schema}
use minispark.Core.Dataset.{from_list, to_list, iter_partitions, iter_records}
use minispark.Expressions.Syntax.{column, literal, alias, binary, and, unalias}
use minispark.Expressions.Evaluate.{evaluate}
use minispark.Expressions.Repr.{output_name}
use minispark.Logical.Nodes.{LogicalPlan, project, schema, output_field, output_fields}
use minispark.Logical.Nodes.Names.{column_field-name}
use minispark.Execution.Executor.{
  execute, project_row, project_rows, project_record, projected_partition,
}
use minispark.Optimizer.MapExpressions.{map_expressions}
use minispark.Optimizer.Rules.Simplify.{
  simplify_bool, simplify_binary, simplify_and, filter_simplification,
}
use minispark.Optimizer.Rules.Pushdown.Shadowing.{one_row, get_item-head}

module _ ⦃py : Host⦄ where
  -- SELECT n AND True AS m FROM rows.
  abbrev pub and_true_plan : String → String → Value → LogicalPlan
  and_true_plan n m v =
      project (one_row n v) (alias (binary and (column n) (literal (bool true))) m ∷ [])

  -- A Project that computes `n AND True` for one row: the naive executor gives the truth of the column,
  -- a bool, for the plan, and the value of the column itself for the plan that filter simplification
  -- makes of it.
  pub filter_simplification_changes_rows :
      (n m : String) (v : Value)
      → ((execute (and_true_plan n m v) >>= iter_records)
          ≡ ok (((m, bool (truthy v && true)) ∷ []) ∷ []))
        × (q : LogicalPlan) × (filter_simplification (and_true_plan n m v) ≡ ok q)
        × ((execute q >>= iter_records) ≡ ok (((m, v) ∷ []) ∷ []))
  unfolding execute iter_records iter_partitions to_list from_list project_rows project_row
      project_record evaluate schema output_fields output_field output_name make_schema
      has_duplicates mem_name projected_partition unalias filter_simplification map_expressions
      simplify_bool simplify_binary simplify_and
  filter_simplification_changes_rows n m v = (
    rw (get_item-head n v []) refl,
    project (one_row n v) (alias (column n) m ∷ []),
    refl,
    rw (column_field-name m (column n) _, get_item-head n v []) refl,
  )

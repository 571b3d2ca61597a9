-- ===== src/Optimizer/Rules/Eliminate.antt =====
-- RedundantProjectionElimination of minispark/optimizer/rules.py.
use minispark.Common.{
  String, Bool, true, false, ◌&&◌, List, [], ◌∷◌, all, str_eq, if◌then◌else◌, Result, ok, ◌>>=◌,
}
use minispark.Core.Value.{Host}
use minispark.Core.Schema.{field_names}
use minispark.Expressions.Syntax.{Expression, column, is_column}
use minispark.Logical.Nodes.{
  LogicalPlan, scan, filter, project, aggregation, join, sort, make_sort, schema,
}

-- `all(isinstance(c, Column) for c in columns)`.
unfoldable pub all_columns : List Expression → Bool
all_columns es = all is_column es

-- `[c.name for c in columns] == names`, for columns that are all plain.
unfoldable pub columns_are : List Expression → List String → Bool
columns_are [] [] = true
columns_are (column n ∷ es) (m ∷ ms) = str_eq n m && columns_are es ms
columns_are _ _ = false

-- A plain Project below another one falls away.
unfoldable pub collapse : LogicalPlan → List Expression → LogicalPlan
unfolding all_columns is_column
collapse (project c inner) es =
    if all_columns inner then project c es else project (project c inner) es
collapse c es = project c es

module _ ⦃py : Host⦄ where
  -- A Project over a child that has been rewritten already. The child's schema is read only if all
  -- columns are plain.
  unfoldable pub eliminate_project : LogicalPlan → List Expression → Result LogicalPlan
  unfolding collapse columns_are all_columns is_column
  eliminate_project c es = elim (all_columns es) [
    | true ↦ do s ← schema c; ok (if columns_are es (field_names s) then c else collapse c es)
    | false ↦ ok (collapse c es)
  ]

  unfoldable pub eliminate : LogicalPlan → Result LogicalPlan
  unfolding eliminate_project make_sort
  eliminate (scan d n s) = ok (scan d n s)
  eliminate (filter c e) = do c' ← eliminate c; ok (filter c' e)
  eliminate (aggregation c gs as') = do c' ← eliminate c; ok (aggregation c' gs as')
  eliminate (join l r on how b) = do l' ← eliminate l; r' ← eliminate r; ok (join l' r' on how b)
  eliminate (sort c es asc) = do c' ← eliminate c; make_sort c' es asc
  eliminate (project c es) = do c' ← eliminate c; eliminate_project c' es

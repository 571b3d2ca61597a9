-- ===== src/Optimizer/Rules/Pushdown.antt =====
-- PredicatePushdown of minispark/optimizer/rules.py.
pub mod Rows
pub mod Plans
pub mod Shadowing
use minispark.Common.{if◌then◌else◌, subset_names, Result, ok, ◌>>=◌}
use minispark.Core.Value.{Host}
use minispark.Core.Schema.{field_names}
use minispark.Expressions.Syntax.{Expression, referenced_columns}
use minispark.Logical.Nodes.{
  LogicalPlan, scan, filter, project, aggregation, join, sort, make_sort, schema,
}

module _ ⦃py : Host⦄ where
  -- A Filter over a child that has been rewritten already.
  unfoldable pub push_filter : LogicalPlan → Expression → Result LogicalPlan
  push_filter (project c es) e = do
    available ← schema c
    ok (
        if subset_names (referenced_columns e) (field_names available)
        then project (filter c e) es
        else filter (project c es) e)
  push_filter (join l r on how b) e = do
    left ← schema l
    right ← schema r
    ok (
        if subset_names (referenced_columns e) (field_names left)
        then join (filter l e) r on how b
        else if subset_names (referenced_columns e) (field_names right)
        then join l (filter r e) on how b
        else filter (join l r on how b) e)
  push_filter c e = ok (filter c e)

  unfoldable pub pushdown : LogicalPlan → Result LogicalPlan
  unfolding push_filter make_sort
  pushdown (scan d n s) = ok (scan d n s)
  pushdown (project c es) = do c' ← pushdown c; ok (project c' es)
  pushdown (aggregation c gs as') = do c' ← pushdown c; ok (aggregation c' gs as')
  pushdown (join l r on how b) = do l' ← pushdown l; r' ← pushdown r; ok (join l' r' on how b)
  pushdown (sort c es asc) = do c' ← pushdown c; make_sort c' es asc
  pushdown (filter c e) = do c' ← pushdown c; push_filter c' e

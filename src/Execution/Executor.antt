-- ===== src/Execution/Executor.antt =====
-- minispark/execution/executor.py: the naive executor, the baseline that a rewritten plan is held to.
pub mod Lists
pub mod Refinement
pub mod Congruence
pub mod Equality
use minispark.Common.{
  String, none, List, [], ◌∷◌, map, if◌then◌else◌, Result, ok, raise, ◌>>=◌, value_error,
  not_implemented,
}
use minispark.Core.Value.{Value, Record, Host, truthy}
use minispark.Core.Schema.{Schema, field_names}
use minispark.Core.Dataset.{Rows, done, fail, yield, Partition, Dataset, iter_records}
use minispark.Expressions.Syntax.{Expression}
use minispark.Expressions.Evaluate.{evaluate}
use minispark.Logical.Nodes.{LogicalPlan, scan, filter, project, aggregation, join, sort, schema}

module _ ⦃py : Host⦄ where
  -- What the loop body does with a row, given the value of the condition on it.
  unfoldable pub filter_row : Result Value → Record → Rows → Rows
  filter_row (ok v) r rest = if truthy v then yield r rest else rest
  filter_row (raise e) r rest = fail e

  unfoldable pub filter_rows : Expression → Rows → Rows
  unfolding filter_row
  filter_rows c done = done
  filter_rows c (fail e) = fail e
  filter_rows c (yield r rest) = filter_row (evaluate c r) r (filter_rows c rest)

  -- The dict comprehension over `zip(output_names, columns, strict=True)`. `Schema` has refused a
  -- name that stands twice, so no entry overwrites another.
  unfoldable pub project_record : List String → List Expression → Record → Result Record
  project_record [] [] r = ok []
  project_record (n ∷ ns) (e ∷ es) r = do
    v ← evaluate e r
    rest ← project_record ns es r
    ok ((n, v) ∷ rest)
  project_record _ _ r = raise value_error

  unfoldable pub project_row : Result Record → Rows → Rows
  project_row (ok r) rest = yield r rest
  project_row (raise e) rest = fail e

  unfoldable pub project_rows : List String → List Expression → Rows → Rows
  unfolding project_row project_record
  project_rows ns es done = done
  project_rows ns es (fail e) = fail e
  project_rows ns es (yield r rest) = project_row (project_record ns es r) (project_rows ns es rest)

  -- The row count after a filter is not known.
  unfoldable pub filtered_partition : Expression → Partition → Partition
  unfolding filter_rows
  filtered_partition c p = record p { records = filter_rows c p.records; row_count = none }

  unfoldable pub projected_partition : Schema → List Expression → Partition → Partition
  unfolding project_rows
  projected_partition s es p = record p {
    schema = s;
    records = project_rows (field_names s) es p.records;
  }

  unfoldable pub execute : LogicalPlan → Result Dataset
  unfolding filtered_partition projected_partition
  execute (scan d n s) = ok d
  execute (filter c e) = do
    d ← execute c
    ok (record { schema = d.schema; partitions = map (filtered_partition e) d.partitions })
  execute (project c es) = do
    d ← execute c
    s ← schema (project c es)
    ok (record { schema = s; partitions = map (projected_partition s es) d.partitions })
  execute (aggregation c gs as') = raise not_implemented
  execute (join l r on how b) = raise not_implemented
  execute (sort c es asc) = raise not_implemented

-- ===== src/Physical/Operators.antt =====
-- minispark/physical/operators.py: the operators of the physical plan.
pub mod Sorting
pub mod Joining
pub mod Grouping
pub mod Aggregating
pub mod Partitions
use minispark.Common.{map, List, Result, ok, raise, ◌>>=◌, not_implemented}
use minispark.Core.Value.{Host}
use minispark.Core.Schema.{Schema}
use minispark.Expressions.Syntax.{Expression}
use minispark.Core.Dataset.{Dataset}
use minispark.Physical.Plan.{PhysicalPlan, scan_exec, filter_exec, project_exec}
use minispark.Execution.Executor.{filtered_partition, projected_partition}

module _ ⦃py : Host⦄ where
  -- The results of `_execute_filter` and `_execute_project`, once the child is executed.
  abbrev pub filtered_dataset : Expression → Dataset → Dataset
  filtered_dataset e d = record {
    schema = d.schema;
    partitions = map (filtered_partition e) d.partitions;
  }

  abbrev pub projected_dataset : Schema → List Expression → Dataset → Dataset
  projected_dataset s es d = record {
    schema = s;
    partitions = map (projected_partition s es) d.partitions;
  }

  -- `execute(plan)`, which the planner imports under this name.
  unfoldable pub execute_whole_dataset : PhysicalPlan → Result Dataset
  execute_whole_dataset (scan_exec d n) = ok d
  execute_whole_dataset (filter_exec c e) = do
    d ← execute_whole_dataset c
    ok (filtered_dataset e d)
  execute_whole_dataset (project_exec c es s) = do
    d ← execute_whole_dataset c
    ok (projected_dataset s es d)
  execute_whole_dataset _ = raise not_implemented

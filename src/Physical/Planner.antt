-- ===== src/Physical/Planner.antt =====
-- minispark/physical/planner.py: a logical plan becomes a physical one.
pub mod ScanReads
pub mod SortRange
pub mod Shape
pub mod Oracle
pub mod Boundaries
use minispark.Common.{
  ℕ, String, Bool, true, false, none, some, List, [], ◌∷◌, ◌++◌, map, if◌then◌else◌, append_text,
  Result, ok, raise, ◌>>=◌, ◌>>◌, guard, assertion, index_error,
}
use minispark.Common.Int.{pos}
use minispark.Core.Value.{int, Host}
use minispark.Core.Types.{DataType, string_type}
use minispark.Core.Schema.{Field, Schema, make_schema, find_field}
use minispark.Optimizer.Statistics.{SizeHost}
use minispark.Expressions.Syntax.{Expression, column}
use minispark.Expressions.Repr.{output_name}
use minispark.Logical.Nodes.{LogicalPlan, scan, filter, project, aggregation, join, sort, schema}
use minispark.Physical.Plan.{
  PhysicalPlan, scan_exec, filter_exec, project_exec, hash_aggregate_exec, exchange_exec,
  hash_join_exec, sort_exec,
}
use minispark.Physical.Planner.ScanReads.{pushdown_scan_reads}
use minispark.Physical.Planner.SortRange.{RangeChoice, sort_range_boundaries}

abbrev pub default_shuffle_partitions : ℕ
default_shuffle_partitions = 4

unfoldable pub column_type : Expression → Schema → DataType
column_type (column n) s = elim (find_field n s.fields) [
  | some f ↦ f.data_type
  | none ↦ string_type
]
column_type e s = string_type

-- `_plan_join`, once both sides are translated.
unfoldable pub plan_join :
    ℕ → List String → Bool → Schema → PhysicalPlan → PhysicalPlan → PhysicalPlan
plan_join n on broadcast s left right =
    let keys = map column on in
    if broadcast
    then hash_join_exec left (exchange_exec right 1 keys true none) keys keys on s
    else hash_join_exec (exchange_exec left n keys false none)
        (exchange_exec right n keys false none) keys keys on s

module _ ⦃py : Host⦄ where
  -- The fields `__agg_state_{i}`, from `i` on.
  unfoldable pub state_fields : ℕ → List Expression → List Field
  state_fields i [] = []
  state_fields i (a ∷ as') =
      record {
        name = append_text "__agg_state_" (py.repr_value (int (pos i)));
        data_type = string_type;
        nullable = true;
      }
      ∷ state_fields (ℕ.suc i) as'

  unfoldable pub partial_aggregate_schema :
      List Expression → List Expression → Schema → Result Schema
  unfolding column_type state_fields make_schema
  partial_aggregate_schema gs as' s = make_schema (
      map (λ g. record { name = output_name g; data_type = column_type g s; nullable = true }) gs
      ++ state_fields 0 as')

  -- `_plan_aggregate`, once the child is translated.
  unfoldable pub plan_aggregate :
      ℕ → ℕ → LogicalPlan → List Expression → List Expression → PhysicalPlan → Result PhysicalPlan
  unfolding partial_aggregate_schema
  plan_aggregate n threshold c gs as' child = do
    s ← schema c
    partial ← partial_aggregate_schema gs as' s
    full ← schema (aggregation c gs as')
    ok (
        hash_aggregate_exec
          (exchange_exec (hash_aggregate_exec child gs as' partial true threshold) n gs false none)
          gs as' full false threshold)

  module _ ⦃memory : SizeHost⦄ where
    -- `_plan_sort`, once the child is translated. `sort_exprs[0]`, `ascending[0]` and the assertion.
    unfoldable pub plan_sort :
        ℕ → ℕ → LogicalPlan → List Expression → List Bool → PhysicalPlan → Result PhysicalPlan
    unfolding sort_range_boundaries
    plan_sort n threshold c [] asc child = raise index_error
    plan_sort n threshold c (e ∷ es) [] child = raise index_error
    plan_sort n threshold c (column key ∷ es) (up ∷ asc) child = do
      s ← schema c
      choice ← sort_range_boundaries child key up s n
      ok (
          sort_exec
            (exchange_exec (sort_exec child (column key ∷ es) (up ∷ asc) s threshold)
              choice.num_partitions (choice.partition_key ∷ []) false choice.boundaries)
            (column key ∷ es) (up ∷ asc) s threshold)
    plan_sort n threshold c (e ∷ es) (up ∷ asc) child = raise assertion

    unfoldable pub translate : ℕ → ℕ → LogicalPlan → Result PhysicalPlan
    unfolding plan_join plan_aggregate plan_sort
    translate n threshold (scan d name s) = ok (scan_exec d name)
    translate n threshold (filter c e) = do
      child ← translate n threshold c
      ok (filter_exec child e)
    translate n threshold (project c es) = do
      child ← translate n threshold c
      s ← schema (project c es)
      ok (project_exec child es s)
    translate n threshold (aggregation c gs as') =
        translate n threshold c >>= plan_aggregate n threshold c gs as'
    translate n threshold (join l r on how broadcast) = do
      left ← translate n threshold l
      right ← translate n threshold r
      s ← schema (join l r on how broadcast)
      ok (plan_join n on broadcast s left right)
    translate n threshold (sort c es asc) =
        translate n threshold c >>= plan_sort n threshold c es asc

    unfoldable pub plan_physical : LogicalPlan → ℕ → ℕ → Result PhysicalPlan
    unfolding pushdown_scan_reads translate
    plan_physical p n threshold = pushdown_scan_reads p >>= translate n threshold

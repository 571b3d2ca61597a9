-- ===== src/Tests/Planning.antt =====
-- Plans that are translated, cut into stages and run.
use minispark.Common.{
  String, ℕ, ◌≤◌, ltb, true, false, none, some, List, [], ◌∷◌, ◌++◌, All, ◌≡◌, refl, ◌⊎◌,
  if◌then◌else◌, ok, raise, task_execution, inr,
}
use minispark.Common.Int.{pos, ◌-ℤ◌, ◌*ℤ◌}
use minispark.Core.Value.{
  Record, int, float, arithmetic, divide, divide_numbers, number_arithmetic, both_numbers,
  int_arithmetic, compare_values, compare_numbers, compare_ints, values_equal, numbers_equal,
}
use minispark.Core.Types.{same_type}
use minispark.Core.Schema.{find_field}
use minispark.Core.Dataset.{Dataset, from_list, to_list, iter_partitions, iter_records}
use minispark.Expressions.Syntax.{column}
use minispark.Expressions.Evaluate.{lookup}
use minispark.Optimizer.Statistics.{
  SizeHost, compute_statistics, scan_partitions, scan_rows, scan_row, observe_columns, observe,
  pick_value, add_distinct, record_size, get_or_none, column_statistics, ColumnStatistics,
  TableStatistics,
}
use minispark.Optimizer.Statistics.Extremes.{HoldsInt, Spans, null_rows, IsBetween}
use minispark.Optimizer.Statistics.Extremes.Scans.{compute_statistics-IsBetween}
use minispark.Logical.Nodes.{LogicalPlan, filter, schema}
use minispark.Physical.Plan.{PhysicalPlan, scan_exec, filter_exec, schema_of}
use minispark.Physical.Operators.{execute_whole_dataset}
use minispark.Physical.Planner.{translate}
use minispark.Physical.Planner.Shape.{translate-build_stages}
use minispark.Physical.Planner.Oracle.{execute_whole_dataset-execute}
use minispark.Physical.Planner.SortRange.{
  RangeChoice, is_oracle_executable, is_numeric_key, column_stats, sort_two, boundaries_from,
  cut_range, signed_range, range_choice, observed_range, sort_range_boundaries,
}
use minispark.Physical.Planner.Boundaries.{sort_range_boundaries-make_range_partitioner}
use minispark.Shuffle.Partitioner.{range_partitioner, make_range_partitioner}
use minispark.Execution.Executor.{execute}
use minispark.Execution.Stages.{Stage, build_stages}
use minispark.Execution.Stages.Order.{IsNumbered}
use minispark.Execution.Tasks.{success, failed, Task, TaskResult, no_metrics}
use minispark.Execution.Scheduler.{is_shuffle_write, run_plan}
use minispark.Execution.Scheduler.Remaining.{recomputations}
use minispark.Execution.Scheduler.Running.{
  LastFailure, IsResultOf, run_plan-IsResultOf, recomputations-run_plan,
}
use minispark.Execution.Scheduler.Query.{run_plan-schema}
use minispark.Tests.{sample_host, age_schema, ages, scanned, adult}

instance pub sample_sizes : SizeHost
sample_sizes = record { getsizeof = λ v. 28 }

abbrev adults_plan : LogicalPlan
adults_plan = filter scanned adult

abbrev adults_exec : PhysicalPlan
adults_exec = filter_exec (scan_exec ages "ages") adult

adults_translated : translate 4 10 adults_plan ≡ ok adults_exec
unfolding translate
adults_translated = refl

adults_executable : is_oracle_executable adults_exec ≡ true
unfolding is_oracle_executable
adults_executable = refl

translate-build_stages_example :
    (upstream : List Stage) × (last : Stage) × (build_stages adults_exec
      ≡ ok (upstream ++ (last ∷ [])))
    × IsNumbered 0 (upstream ++ (last ∷ []))
    × (schema adults_plan ≡ ok (schema_of last.plan))
translate-build_stages_example = translate-build_stages 4 10 adults_plan adults_translated

execute_whole_dataset-execute_example :
    (d : Dataset) × (execute_whole_dataset adults_exec ≡ ok d) × (execute adults_plan ≡ ok d)
execute_whole_dataset-execute_example =
    execute_whole_dataset-execute 4 10 adults_plan adults_translated adults_executable

-- Two partitions: one boundary, half of the way from 1 to 5.
abbrev half : RangeChoice
half = record { boundaries = some (float 0 ∷ []); num_partitions = 2; partition_key = column "age" }

half_chosen : sort_range_boundaries (scan_exec ages "ages") "age" true age_schema 2 ≡ ok half
unfolding sort_range_boundaries observed_range range_choice signed_range cut_range boundaries_from
    sort_two column_stats is_numeric_key is_oracle_executable execute_whole_dataset
    compute_statistics scan_partitions scan_rows scan_row observe_columns observe pick_value
    add_distinct record_size get_or_none column_statistics lookup find_field same_type arithmetic
    divide divide_numbers number_arithmetic both_numbers int_arithmetic compare_values
    compare_numbers compare_ints values_equal numbers_equal from_list ◌-ℤ◌ ◌*ℤ◌ sample_host
half_chosen = refl

sort_range_boundaries-make_range_partitioner_example :
    make_range_partitioner 2 (float 0 ∷ []) ≡ ok (range_partitioner 2 (float 0 ∷ []))
sort_range_boundaries-make_range_partitioner_example =
    sort_range_boundaries-make_range_partitioner (scan_exec ages "ages") "age" true age_schema 2
      half_chosen refl

-- A task that fails twice and then succeeds; the world is the list of the attempts.
abbrev flaky : Task → ℕ → List ℕ → List ℕ × TaskResult
flaky t a attempts = (
  a ∷ attempts,
  record {
    task_id = t.task_id;
    state = if ltb a 2 then failed else success;
    rows = [];
    metrics = no_metrics;
    error = none;
    shuffle_blocks = [];
    missing_shuffle_stage_id = none;
  },
)

-- Its cleanup forgets the attempts.
abbrev forget : String → List ℕ → List ℕ
forget root attempts = []

abbrev last_stage : Stage
last_stage = record { stage_id = 0; plan = adults_exec; num_partitions = 1 }

reads : is_shuffle_write adults_exec ≡ false
unfolding is_shuffle_write
reads = refl

run_plan-IsResultOf_example :
    ((d : Dataset) × ((run_plan flaky 3 forget "root" (last_stage ∷ []) []).2 ≡ ok d)
      × IsResultOf last_stage d)
    ⊎ (((run_plan flaky 3 forget "root" (last_stage ∷ []) []).2 ≡ raise task_execution)
        × LastFailure flaky 3)
run_plan-IsResultOf_example = run_plan-IsResultOf flaky 3 forget "root" [] last_stage [] reads

recomputations-run_plan_example :
    recomputations (run_plan flaky 3 forget "root" (last_stage ∷ []) []).1.stages ≤ 1
recomputations-run_plan_example =
    recomputations-run_plan flaky 3 forget "root" [] last_stage [] reads

run_plan-schema_example :
    (stages : List Stage) × (build_stages adults_exec ≡ ok stages)
    × (((d : Dataset) × ((run_plan flaky 3 forget "root" stages []).2 ≡ ok d)
          × (schema adults_plan ≡ ok d.schema))
        ⊎ (((run_plan flaky 3 forget "root" stages []).2 ≡ raise task_execution)
            × LastFailure flaky 3))
run_plan-schema_example =
    run_plan-schema flaky 3 4 10 adults_plan forget "root" [] adults_translated

abbrev age_rows : List Record
age_rows = (("age", int (pos 1)) ∷ []) ∷ (("age", int (pos 5)) ∷ []) ∷ []

ages_read : iter_records ages ≡ ok age_rows
unfolding iter_records iter_partitions to_list from_list
ages_read = refl

ages_are_ints : All (HoldsInt "age") age_rows
unfolding get_or_none lookup
ages_are_ints = (inr (pos 1, refl), (inr (pos 5, refl), tt))

compute_statistics-IsBetween_example :
    (stats : TableStatistics) × (c : ColumnStatistics) × (compute_statistics ages
        (some ("age" ∷ []))
      ≡ ok stats)
    × (stats.row_count ≡ 2)
    × (stats.columns ≡ ("age", c) ∷ [])
    × (c.null_count ≡ null_rows "age" age_rows)
    × Spans "age" age_rows c.min_value c.max_value
    × All (λ r. IsBetween c.min_value c.max_value (get_or_none r "age")) age_rows
compute_statistics-IsBetween_example =
    compute_statistics-IsBetween "age" ages ages_read ages_are_ints

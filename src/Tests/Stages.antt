-- ===== src/Tests/Stages.antt =====
-- A plan with one exchange, cut into stages.
use minispark.Common.{true, false, none, List, [], ◌∷◌, ◌++◌, All, length, ◌≡◌, refl, ok}
use minispark.Expressions.Syntax.{column}
use minispark.Physical.Plan.{
  PhysicalPlan, scan_exec, hash_aggregate_exec, exchange_exec, shuffle_write_exec,
  shuffle_read_exec, schema_of,
}
use minispark.Execution.Dag.{build_dag, has_wide_dependency}
use minispark.Execution.Stages.{Stage, build_stages, split, close_stage, rebuild, with_child}
use minispark.Execution.Stages.Order.{IsNumbered}
use minispark.Execution.Stages.Building.{build_stages-IsNumbered, build_stages-narrow}
use minispark.Tests.{age_schema, ages}

-- A partial aggregate, an exchange and a final aggregate.
abbrev physical_plan : PhysicalPlan
physical_plan =
    hash_aggregate_exec
      (exchange_exec
        (hash_aggregate_exec (scan_exec ages "ages") (column "age" ∷ []) [] age_schema true 10) 4
        (column "age" ∷ []) false none)
      (column "age" ∷ []) [] age_schema false 10

build_stages-IsNumbered_example :
    (upstream : List Stage) × (last : Stage) × (build_stages physical_plan
      ≡ ok (upstream ++ (last ∷ [])))
    × (length upstream ≡ 1)
    × IsNumbered 0 (upstream ++ (last ∷ []))
    × (schema_of last.plan ≡ schema_of physical_plan)
build_stages-IsNumbered_example = build_stages-IsNumbered physical_plan tt

abbrev stages : List Stage
stages =
    record {
      stage_id = 0;
      plan =
          shuffle_write_exec
            (hash_aggregate_exec (scan_exec ages "ages") (column "age" ∷ []) [] age_schema true 10)
            4 (column "age" ∷ []) none;
      num_partitions = 1;
    }
    ∷ record {
      stage_id = 1;
      plan =
          hash_aggregate_exec (shuffle_read_exec 0 age_schema false) (column "age" ∷ []) []
            age_schema false 10;
      num_partitions = 4;
    }
    ∷ []

staged : build_stages physical_plan ≡ ok stages
unfolding build_stages split close_stage rebuild with_child schema_of
staged = refl

build_stages-narrow_example : All (λ s. has_wide_dependency (build_dag s.plan) ≡ false) stages
build_stages-narrow_example = build_stages-narrow physical_plan tt staged

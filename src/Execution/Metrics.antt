-- ===== src/Execution/Metrics.antt =====
-- minispark/execution/metrics.py: the totals of a stage, without times and process memory.
use minispark.Common.{ℕ, ◌+◌, Bool, Option, none, some, List, [], ◌∷◌, map, length}
use minispark.Execution.Tasks.{TaskMetrics}

pub record StageMetrics : Type 0 where
  pub stage_id : ℕ
  pub num_tasks : ℕ
  pub retried_tasks : ℕ
  pub recomputed : Bool
  pub total_input_records : Option ℕ
  pub total_output_records : ℕ
  pub total_output_bytes : ℕ
  pub total_shuffle_bytes : ℕ

pub record QueryMetrics : Type 0 where
  pub stages : List StageMetrics

unfoldable pub sum_ints : List ℕ → ℕ
sum_ints [] = 0
sum_ints (n ∷ ns) = n + sum_ints ns

-- `[v for v in values if v is not None]`.
unfoldable pub known_ints : List (Option ℕ) → List ℕ
known_ints [] = []
known_ints (none ∷ vs) = known_ints vs
known_ints (some v ∷ vs) = v ∷ known_ints vs

-- `sum(known) if known else None`.
unfoldable pub sum_of_known : List ℕ → Option ℕ
unfolding sum_ints
sum_of_known [] = none
sum_of_known (n ∷ ns) = some (sum_ints (n ∷ ns))

unfoldable pub sum_known_int : List (Option ℕ) → Option ℕ
unfolding known_ints sum_of_known
sum_known_int vs = sum_of_known (known_ints vs)

unfoldable pub from_task_metrics : ℕ → List TaskMetrics → ℕ → Bool → StageMetrics
unfolding sum_known_int sum_ints
from_task_metrics stage_id metrics retried_tasks recomputed = record {
  stage_id = stage_id;
  num_tasks = length metrics;
  retried_tasks = retried_tasks;
  recomputed = recomputed;
  total_input_records = sum_known_int (map (λ m. m.input_records) metrics);
  total_output_records = sum_ints (map (λ m. m.output_records) metrics);
  total_output_bytes = sum_ints (map (λ m. m.output_bytes) metrics);
  total_shuffle_bytes = sum_ints (map (λ m. m.shuffle_bytes) metrics);
}

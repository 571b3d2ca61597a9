-- ===== src/Execution/Tasks.antt =====
-- minispark/execution/tasks.py. The times that a task takes and the memory of its process come from
-- the clock and the optional psutil, and are left out. An error is its exception, not its text.
use minispark.Common.{ℕ, String, Bool, true, false, Option, none, List, Exception}
use minispark.Core.Value.{Record}
use minispark.Physical.Plan.{PhysicalPlan}
use minispark.Physical.Operators.Partitions.{ShuffleBlocksByStage}
use minispark.Shuffle.Writer.{ShuffleBlockMeta}

pub data TaskState : Type 0 where
  pending running success failed retrying cancelled : TaskState

pub record Task : Type 0 where
  pub task_id : ℕ
  pub stage_id : ℕ
  pub partition_id : ℕ
  pub plan : PhysicalPlan
  pub shuffle_root_dir : Option String
  pub shuffle_blocks : Option ShuffleBlocksByStage

pub record TaskMetrics : Type 0 where
  pub input_records : Option ℕ
  pub output_records : ℕ
  pub output_bytes : ℕ
  pub shuffle_bytes : ℕ

abbrev pub no_metrics : TaskMetrics
no_metrics = record {
  input_records = none;
  output_records = 0;
  output_bytes = 0;
  shuffle_bytes = 0;
}

pub record TaskResult : Type 0 where
  pub task_id : ℕ
  pub state : TaskState
  pub rows : List Record
  pub metrics : TaskMetrics
  pub error : Option Exception
  pub shuffle_blocks : List ShuffleBlockMeta
  pub missing_shuffle_stage_id : Option ℕ

-- `result.state is TaskState.FAILED`.
abbrev pub is_failed : TaskResult → Bool
is_failed r = elim r.state [ failed ↦ true | _ ↦ false ]

-- ===== src/Execution/Worker.antt =====
-- minispark/execution/worker.py: one attempt at a task. An exception becomes a FAILED result. The disk
-- of the shuffle is passed along. The attempt number is only carried for logging.
pub mod Files
pub mod Missing
pub mod NullKeys
use minispark.Common.{
  ℕ, ◌+◌, String, Option, none, some, List, [], ◌∷◌, map, length, Result, ok, raise, ◌>>=◌,
  map_result, Exception, value_error, missing_shuffle_data,
}
use minispark.Common.Dicts.{find_item}
use minispark.Core.Value.{less, Value, Record, Host, compare_values}
use minispark.Core.Dataset.{from_list, to_list, Partition}
use minispark.Core.Dataset
use minispark.Expressions.Syntax.{Expression}
use minispark.Expressions.Evaluate.{evaluate}
use minispark.Optimizer.Statistics.{SizeHost, record_size}
use minispark.Physical.Plan.{PhysicalPlan, scan_exec, shuffle_read_exec, shuffle_write_exec, leaves}
use minispark.Physical.Spill.{SpillHost}
use minispark.Physical.Operators.Sorting.{Numbered}
use minispark.Physical.Operators.Joining.{row_key}
use minispark.Physical.Operators.Grouping.{Group}
use minispark.Physical.Operators.Partitions.{blocks_of_stage, execute_partition}
use minispark.Shuffle.Partitioner.{
  KeyHost, make_hash_partitioner, make_range_partitioner, partition_for,
}
use minispark.Shuffle.Manager.{sum_records, sum_bytes}
use minispark.Shuffle.Writer.{PickleHost, Disk, ShuffleBlockMeta, write_shuffle_partition}
use minispark.Execution.Tasks.{
  TaskState, success, failed, Task, TaskMetrics, no_metrics, TaskResult,
}
use minispark.Execution.Metrics.{sum_known_int}

-- `MissingShuffleDataError.stage_id`, which only that exception has.
unfoldable pub missing_stage_of : Exception → Option ℕ
missing_stage_of (missing_shuffle_data stage partition) = some stage
missing_stage_of _ = none

-- The two `except` clauses of `execute_task`.
unfoldable pub failed_result : Task → Exception → TaskResult
unfolding missing_stage_of
failed_result t e = record {
  task_id = t.task_id;
  state = failed;
  rows = [];
  metrics = no_metrics;
  error = some e;
  shuffle_blocks = [];
  missing_shuffle_stage_id = missing_stage_of e;
}

unfoldable pub succeeded : Task → List Record → TaskMetrics → List ShuffleBlockMeta → TaskResult
succeeded t rows metrics blocks = record {
  task_id = t.task_id;
  state = success;
  rows = rows;
  metrics = metrics;
  error = none;
  shuffle_blocks = blocks;
  missing_shuffle_stage_id = none;
}

unfoldable pub result_or_failure : Task → Result TaskResult → TaskResult
unfolding failed_result
result_or_failure t (ok r) = r
result_or_failure t (raise e) = failed_result t e

unfoldable pub leaf_record_count : PhysicalPlan → Task → Result (Option ℕ)
unfolding blocks_of_stage sum_records
leaf_record_count (scan_exec d n) t = do p ← Dataset.partition d t.partition_id; ok p.row_count
leaf_record_count (shuffle_read_exec stage s b) t =
    ok (elim (blocks_of_stage stage t.shuffle_blocks) [
      | some blocks ↦ some (sum_records blocks)
      | none ↦ none
    ])
leaf_record_count _ t = ok none

unfoldable pub input_record_count : Task → Result (Option ℕ)
unfolding leaf_record_count leaves
input_record_count t = do
  counts ← map_result (λ leaf. leaf_record_count leaf t) (leaves t.plan)
  ok (sum_known_int counts)

unfoldable pub leaf_read_bytes : Task → List PhysicalPlan → ℕ
unfolding blocks_of_stage sum_bytes
leaf_read_bytes t [] = 0
leaf_read_bytes t (shuffle_read_exec stage s b ∷ ls) =
    (elim (blocks_of_stage stage t.shuffle_blocks) [ some blocks ↦ sum_bytes blocks | none ↦ 0 ])
    + leaf_read_bytes t ls
leaf_read_bytes t (_ ∷ ls) = leaf_read_bytes t ls

unfoldable pub shuffle_read_bytes : Task → ℕ
unfolding leaf_read_bytes leaves
shuffle_read_bytes t = leaf_read_bytes t (leaves t.plan)

unfoldable pub estimate_bytes : ⦃py : Host⦄ → ⦃memory : SizeHost⦄ → List Record → ℕ
unfolding record_size
estimate_bytes [] = 0
estimate_bytes (r ∷ rs) = record_size r + estimate_bytes rs

module _ ⦃py : Host⦄ ⦃memory : SizeHost⦄ ⦃pickle : PickleHost⦄ ⦃hashing : KeyHost (List Value)⦄
    ⦃sorting : SpillHost Numbered⦄ ⦃grouping : SpillHost Group⦄ where
  -- Scalar keys, of which a range partitioner asks only the order.
  abbrev pub scalar_keys : KeyHost Value
  scalar_keys = record {
    key_bytes = λ v. hashing.key_bytes (v ∷ []);
    md5 = hashing.md5;
    is_less = compare_values less;
  }

  -- The partitioner and the key function of a shuffle write: the target of each row.
  unfoldable pub target_of : ℕ → List Expression → Option (List Value) → Result (Record → Result ℕ)
  unfolding make_range_partitioner make_hash_partitioner partition_for row_key
  target_of n (e ∷ []) (some boundaries) = do
    p ← make_range_partitioner n boundaries
    ok (λ r. evaluate e r >>= partition_for ⦃host = scalar_keys⦄ p)
  target_of n es (some boundaries) = raise value_error
  target_of n es none = do p ← make_hash_partitioner n; ok (λ r. row_key es r >>= partition_for p)

  unfoldable pub execute_normal_task : Task → Disk → Result TaskResult
  unfolding execute_partition input_record_count shuffle_read_bytes estimate_bytes succeeded
  execute_normal_task t files = do
    p ← execute_partition files t.plan t.partition_id t.shuffle_blocks
    rows ← to_list p.records
    count ← input_record_count t
    ok (
        succeeded t rows
          (record {
            input_records = count;
            output_records = length rows;
            output_bytes = estimate_bytes rows;
            shuffle_bytes = shuffle_read_bytes t;
          })
          [])

  -- What is left to do once the blocks are written.
  unfoldable pub written_result : Task → List ShuffleBlockMeta → Result TaskResult
  unfolding input_record_count succeeded
  written_result t blocks = do
    count ← input_record_count t
    ok (
        succeeded t []
          (record {
            input_records = count;
            output_records = 0;
            output_bytes = 0;
            shuffle_bytes = sum_bytes blocks;
          })
          blocks)

  -- The rows and the targets of a shuffle write.
  unfoldable pub rows_to_write :
      Task
      → PhysicalPlan
      → ℕ
      → List Expression
      → Option (List Value)
      → Disk
      → Result (List Record × (Record → Result ℕ))
  unfolding execute_partition target_of
  rows_to_write t child n es boundaries files = do
    parent ← execute_partition files child t.partition_id t.shuffle_blocks
    rows ← to_list parent.records
    target ← target_of n es boundaries
    ok (rows, target)

  unfoldable pub write_task_rows :
      Task → String → Result (List Record × (Record → Result ℕ)) → Disk → Disk × Result TaskResult
  unfolding write_shuffle_partition written_result
  write_task_rows t root (raise e) files = (files, raise e)
  write_task_rows t root (ok (rows, target)) files =
      let (files', blocks) =
        write_shuffle_partition root t.stage_id t.task_id (from_list rows) target files in
      (files', blocks >>= written_result t)

  unfoldable pub execute_shuffle_write_task :
      Task
      → PhysicalPlan
      → ℕ
      → List Expression
      → Option (List Value)
      → Option String
      → Disk
      → Disk × Result TaskResult
  unfolding rows_to_write write_task_rows
  execute_shuffle_write_task t child n es boundaries none files = (files, raise value_error)
  execute_shuffle_write_task t child n es boundaries (some root) files =
      write_task_rows t root (rows_to_write t child n es boundaries files) files

  unfoldable pub run_task_plan : Task → PhysicalPlan → Disk → Disk × Result TaskResult
  unfolding execute_shuffle_write_task execute_normal_task
  run_task_plan t (shuffle_write_exec c n es boundaries) files =
      execute_shuffle_write_task t c n es boundaries t.shuffle_root_dir files
  run_task_plan t _ files = (files, execute_normal_task t files)

  unfoldable pub execute_task : Task → ℕ → Disk → Disk × TaskResult
  unfolding run_task_plan result_or_failure
  execute_task t attempt_number files =
      let (files', result) = run_task_plan t t.plan files in (files', result_or_failure t result)

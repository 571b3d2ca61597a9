-- ===== src/Physical/Operators/Partitions.antt =====
-- `execute_partition` of minispark/physical/operators.py: the operators of a stage for one partition.
-- The disk from which blocks are read is that of the shuffle; checksums are verified.
use minispark.Common.{
  ℕ, true, Option, none, some, List, length, Result, ok, raise, ◌>>=◌, Exception, value_error,
  not_implemented, file_not_found, shuffle_checksum, missing_shuffle_data,
}
use minispark.Common.Dicts.{find_item}
use minispark.Core.Value.{Value, Record, Host}
use minispark.Core.Schema.{Schema}
use minispark.Core.Dataset.{Rows, from_list, to_list, Partition}
use minispark.Core.Dataset
use minispark.Execution.Executor.{filtered_partition, projected_partition}
use minispark.Optimizer.Statistics.{SizeHost}
use minispark.Physical.Plan.{
  PhysicalPlan, scan_exec, filter_exec, project_exec, hash_aggregate_exec, shuffle_read_exec,
  hash_join_exec, sort_exec,
}
use minispark.Physical.Spill.{SpillHost}
use minispark.Physical.Operators.Sorting.{Numbered, execute_sort}
use minispark.Physical.Operators.Joining.{execute_hash_join}
use minispark.Physical.Operators.Grouping.{Group}
use minispark.Physical.Operators.Aggregating.{execute_hash_aggregate}
use minispark.Shuffle.Partitioner.{KeyHost}
use minispark.Shuffle.Writer.{PickleHost, Disk, ShuffleBlockMeta}
use minispark.Shuffle.Reader.{read_shuffle_blocks}

-- A dict from source stage ids to blocks.
abbrev pub ShuffleBlocksByStage : Type 0
ShuffleBlocksByStage = List (ℕ × List ShuffleBlockMeta)

-- `shuffle_blocks[from_stage_id]`; `none` where there is no dict or no such key.
unfoldable pub blocks_of_stage : ℕ → Option ShuffleBlocksByStage → Option (List ShuffleBlockMeta)
unfolding find_item
blocks_of_stage stage none = none
blocks_of_stage stage (some blocks) = find_item stage blocks

-- A file that is gone or corrupted is missing shuffle data; another exception passes.
unfoldable pub missing_data : ℕ → ℕ → Exception → Exception
missing_data stage partition file_not_found = missing_shuffle_data stage partition
missing_data stage partition shuffle_checksum = missing_shuffle_data stage partition
missing_data stage partition e = e

unfoldable pub read_partition : ℕ → Schema → ℕ → Result (List Record) → Result Partition
unfolding missing_data from_list
read_partition stage s partition_id (raise e) = raise (missing_data stage partition_id e)
read_partition stage s partition_id (ok rows) = ok (record {
  partition_id = partition_id;
  schema = s;
  records = from_list rows;
  row_count = some (length rows);
})

module _ ⦃py : Host⦄ ⦃memory : SizeHost⦄ ⦃pickle : PickleHost⦄ ⦃hashing : KeyHost (List Value)⦄
    ⦃sorting : SpillHost Numbered⦄ ⦃grouping : SpillHost Group⦄ where
  unfoldable pub execute_shuffle_read :
      Disk → ℕ → Schema → ℕ → Option (List ShuffleBlockMeta) → Result Partition
  unfolding read_partition read_shuffle_blocks
  execute_shuffle_read files stage s partition_id none = raise value_error
  execute_shuffle_read files stage s partition_id (some blocks) =
      read_partition stage s partition_id (to_list (read_shuffle_blocks files true blocks))

  unfoldable pub execute_partition :
      Disk → PhysicalPlan → ℕ → Option ShuffleBlocksByStage → Result Partition
  unfolding execute_shuffle_read blocks_of_stage filtered_partition projected_partition
      execute_hash_aggregate execute_hash_join execute_sort
  execute_partition files (scan_exec d n) i blocks = Dataset.partition d i
  execute_partition files (filter_exec c e) i blocks = do
    parent ← execute_partition files c i blocks
    ok (filtered_partition e parent)
  execute_partition files (project_exec c es s) i blocks = do
    parent ← execute_partition files c i blocks
    ok (projected_partition s es parent)
  execute_partition files (hash_aggregate_exec c gs as' s part t) i blocks =
      execute_partition files c i blocks >>= execute_hash_aggregate i s gs as' part t
  execute_partition files (hash_join_exec l r lk rk on s) i blocks = do
    left ← execute_partition files l i blocks
    right ← execute_partition files r i blocks
    execute_hash_join i s lk rk on left right
  execute_partition files (sort_exec c es ascending s t) i blocks =
      execute_partition files c i blocks >>= execute_sort i s es ascending t
  execute_partition files (shuffle_read_exec stage s broadcast) i blocks =
      execute_shuffle_read files stage s i (blocks_of_stage stage blocks)
  execute_partition files _ i blocks = raise not_implemented

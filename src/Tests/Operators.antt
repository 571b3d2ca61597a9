-- ===== src/Tests/Operators.antt =====
-- The operators of one partition, on sample rows.
use minispark.Common.{
  ℕ, raise, true, false, none, some, List, [], ◌∷◌, All, ◌≡◌, refl, inl, inr, ok, type_error,
  Result, missing_shuffle_data,
}
use mathlib.Core.List.{Perm}
use minispark.Common.Int.{pos}
use minispark.Core.Value.{Value, null, int, str, Record}
use minispark.Core.Dataset.{from_list, to_list, Partition}
use minispark.Expressions.Syntax.{column}
use minispark.Expressions.Evaluate.{evaluate, get_item, lookup}
use minispark.Physical.Plan.{filter_exec, scan_exec, shuffle_read_exec, shuffle_write_exec}
use minispark.Physical.Spill.{SpillHost, end_of_spill}
use minispark.Physical.Operators.Sorting.{Numbered, sort_rows}
use minispark.Physical.Operators.Sorting.Sorted.{HasInts, RowsInOrder, sort_rows-RowsInOrder}
use minispark.Physical.Operators.Joining.{row_key, execute_hash_join}
use minispark.Physical.Operators.Joining.IntKeys.{HasIntKey}
use minispark.Physical.Operators.Joining.NestedLoop.{nested_loop, execute_hash_join-nested_loop}
use minispark.Physical.Operators.Grouping.{Group}
use minispark.Physical.Operators.Partitions.{blocks_of_stage}
use minispark.Common.Dicts.{find_item}
use minispark.Shuffle.Partitioner.{KeyHost}
use minispark.Shuffle.Writer.{ShuffleBlockMeta, BlockPath, Disk, read_file}
use minispark.Execution.Tasks.{Task, failed}
use minispark.Execution.Worker.{target_of, execute_task}
use minispark.Execution.Stages.{Stage}
use minispark.Execution.Worker.Missing.{execute_task-missing}
use minispark.Execution.Worker.NullKeys.{null-target_of}
use minispark.Physical.Planner.SortRange.{range_key}
use minispark.Tests.{sample_host, age_schema, ages, adult}
use minispark.Tests.Shuffle.{sample_pickle}
use minispark.Tests.Planning.{sample_sizes}

instance sample_row_keys : KeyHost (List Value)
sample_row_keys = record { key_bytes = λ k. []; md5 = λ b. b; is_less = λ a b. ok false }

instance sample_runs : SpillHost Numbered
sample_runs = record { dump_item = λ i. []; load_item = λ b. end_of_spill }

instance sample_groups : SpillHost Group
sample_groups = record { dump_item = λ i. []; load_item = λ b. end_of_spill }

abbrev old : Record
old = ("age", int (pos 5)) ∷ []

abbrev young : Record
young = ("age", int (pos 1)) ∷ []

abbrev named : Record
named = ("age", int (pos 5)) ∷ ("name", str "Ada") ∷ []

age_of_old : evaluate (column "age") old ≡ ok (int (pos 5))
unfolding evaluate get_item lookup
age_of_old = refl

age_of_young : evaluate (column "age") young ≡ ok (int (pos 1))
unfolding evaluate get_item lookup
age_of_young = refl

unsorted_ages : All (HasInts (column "age" ∷ [])) ((0, old) ∷ (1, young) ∷ [])
unsorted_ages = (
  ((int (pos 5), age_of_old, inr (pos 5, refl)), tt),
  (((int (pos 1), age_of_young, inr (pos 1, refl)), tt), tt),
)

sort_rows-RowsInOrder_example :
    (out : List Numbered) × (sort_rows ((0, old) ∷ (1, young) ∷ []) (column "age" ∷ []) (true ∷ [])
      ≡ ok out)
    × Perm out ((0, old) ∷ (1, young) ∷ [])
    × RowsInOrder (column "age") true out
sort_rows-RowsInOrder_example =
    sort_rows-RowsInOrder (column "age") [] true [] ((0, old) ∷ (1, young) ∷ []) refl unsorted_ages

abbrev partition_of : List Record → Partition
partition_of rs = record {
  partition_id = 0;
  schema = age_schema;
  records = from_list rs;
  row_count = none;
}

key_of_old : HasIntKey (column "age" ∷ []) old
unfolding row_key evaluate get_item lookup
key_of_old = (int (pos 5) ∷ [], refl, (pos 5 ∷ [], refl))

key_of_young : HasIntKey (column "age" ∷ []) young
unfolding row_key evaluate get_item lookup
key_of_young = (int (pos 1) ∷ [], refl, (pos 1 ∷ [], refl))

key_of_named : HasIntKey (column "age" ∷ []) named
unfolding row_key evaluate get_item lookup
key_of_named = (int (pos 5) ∷ [], refl, (pos 5 ∷ [], refl))

execute_hash_join-nested_loop_example :
    (p : Partition) × (out : List Record) × (execute_hash_join 0 age_schema
        (column "age" ∷ [])
        (column "age" ∷ [])
        ("age" ∷ [])
        (partition_of (young ∷ old ∷ []))
        (partition_of (named ∷ []))
      ≡ ok p)
    × (to_list p.records ≡ ok out)
    × (nested_loop
          (column "age" ∷ [])
          (column "age" ∷ [])
          ("age" ∷ [])
          (young ∷ old ∷ [])
          (named ∷ [])
        ≡ ok out)
execute_hash_join-nested_loop_example =
    execute_hash_join-nested_loop 0 age_schema (column "age" ∷ []) (column "age" ∷ []) ("age" ∷ [])
      (partition_of (young ∷ old ∷ [])) (partition_of (named ∷ [])) (young ∷ old ∷ []) (named ∷ [])
      refl refl (key_of_young, (key_of_old, tt)) (key_of_named, tt)

-- A block of stage 0 whose file is on no disk, and a task that reads it.
abbrev lost_block : ShuffleBlockMeta
lost_block = record {
  stage_id = 0;
  source_task_id = 0;
  target_partition = 1;
  path = record { root_dir = "root"; stage = 0; partition = 1; task = 0 };
  record_count = 3;
  byte_length = 3;
  checksum = "digest";
}

abbrev reading_task : Task
reading_task = record {
  task_id = 7;
  stage_id = 1;
  partition_id = 1;
  plan = filter_exec (shuffle_read_exec 0 age_schema false) adult;
  shuffle_root_dir = some "root";
  shuffle_blocks = some ((0, lost_block ∷ []) ∷ []);
}

lost_block_given : blocks_of_stage 0 reading_task.shuffle_blocks ≡ some (lost_block ∷ [])
unfolding blocks_of_stage find_item
lost_block_given = refl

lost_block_absent : read_file lost_block.path [] ≡ none
unfolding read_file
lost_block_absent = refl

execute_task-missing_example :
    ((execute_task reading_task 0 []).0 ≡ [])
    × ((execute_task reading_task 0 []).1.task_id ≡ reading_task.task_id)
    × ((execute_task reading_task 0 []).1.state ≡ failed)
    × ((execute_task reading_task 0 []).1.rows ≡ [])
    × ((execute_task reading_task 0 []).1.shuffle_blocks ≡ [])
    × ((execute_task reading_task 0 []).1.missing_shuffle_stage_id ≡ some 0)
    × ((execute_task reading_task 0 []).1.error ≡ some (missing_shuffle_data 0 1))
execute_task-missing_example =
    execute_task-missing reading_task 0 [] "root" 0 age_schema false [] lost_block [] refl refl
      lost_block_given tt (inl lost_block_absent)

abbrev unknown_age : Record
unknown_age = ("age", null) ∷ []

age_is_unknown : get_item unknown_age "age" ≡ ok null
unfolding get_item lookup
age_is_unknown = refl

null-target_of_example :
    (target : Record → Result ℕ) × (target_of 2
        (range_key false "age" ∷ [])
        (some (int (pos 3) ∷ []))
      ≡ ok target)
    × (target unknown_age ≡ raise type_error)
null-target_of_example =
    null-target_of 2 false "age" (int (pos 3)) [] unknown_age refl age_is_unknown

-- Two stages with an exchange by age between them, on a disk with a file of another directory.
abbrev writing_stage : Stage
writing_stage = record {
  stage_id = 0;
  plan = shuffle_write_exec (scan_exec ages "ages") 2 (column "age" ∷ []) none;
  num_partitions = 1;
}

abbrev reading_stage : Stage
reading_stage = record {
  stage_id = 1;
  plan = shuffle_read_exec 0 age_schema false;
  num_partitions = 2;
}

abbrev foreign_path : BlockPath
foreign_path = record { root_dir = "other"; stage = 0; partition = 0; task = 0 }

abbrev foreign_files : Disk
foreign_files = (foreign_path, 7 ∷ []) ∷ []

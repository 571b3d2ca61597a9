-- ===== src/Execution/Worker/Files.antt =====
-- The files that one attempt at a task leaves as they are.
use minispark.Common.{
  ℕ, String, false, Option, some, List, str_eq, ◌≡◌, refl, ap, ◌∙◌, Result, ok, raise,
}
use minispark.Core.Value.{Value, Record, Host}
use minispark.Core.Dataset.{from_list}
use minispark.Expressions.Syntax.{Expression}
use minispark.Optimizer.Statistics.{SizeHost}
use minispark.Physical.Plan.{PhysicalPlan, shuffle_write_exec}
use minispark.Physical.Spill.{SpillHost}
use minispark.Physical.Operators.Sorting.{Numbered}
use minispark.Physical.Operators.Grouping.{Group}
use minispark.Shuffle.Partitioner.{KeyHost}
use minispark.Shuffle.Writer.{PickleHost, BlockPath, read_file, Disk}
use minispark.Shuffle.Writer.Confined.{write_shuffle_partition-read_file}
use minispark.Execution.Tasks.{Task}
use minispark.Execution.Worker.{
  rows_to_write, write_task_rows, execute_shuffle_write_task, run_task_plan, execute_task,
}

module _ ⦃py : Host⦄ ⦃memory : SizeHost⦄ ⦃pickle : PickleHost⦄ ⦃hashing : KeyHost (List Value)⦄
    ⦃sorting : SpillHost Numbered⦄ ⦃grouping : SpillHost Group⦄ where
  write_task_rows-read_file :
      (t : Task) (root : String) (found : Result (List Record × (Record → Result ℕ))) (files : Disk)
      (p : BlockPath)
      → str_eq p.root_dir root ≡ false
      → read_file p (write_task_rows t root found files).0 ≡ read_file p files
  unfolding write_task_rows
  write_task_rows-read_file t root (raise e) files p h = refl
  write_task_rows-read_file t root (ok (rows, target)) files p h =
      write_shuffle_partition-read_file root t.stage_id t.task_id (from_list rows) target files p h

  write_task-read_file :
      (t : Task) (c : PhysicalPlan) (n : ℕ) (es : List Expression) (bs : Option (List Value))
      (root : String) (files : Disk) (p : BlockPath)
      → str_eq p.root_dir root ≡ false
      → read_file p (execute_shuffle_write_task t c n es bs (some root) files).0 ≡ read_file p files
  unfolding execute_shuffle_write_task
  write_task-read_file t c n es bs root files p h =
      write_task_rows-read_file t root (rows_to_write t c n es bs files) files p h

  run_task_plan-read_file :
      (t : Task) (plan : PhysicalPlan) (root : String) (files : Disk) (p : BlockPath)
      → t.shuffle_root_dir ≡ some root
      → str_eq p.root_dir root ≡ false
      → read_file p (run_task_plan t plan files).0 ≡ read_file p files
  unfolding run_task_plan
  run_task_plan-read_file t (shuffle_write_exec c n es bs) root files p rooted h =
      ap (λ d. read_file p (execute_shuffle_write_task t c n es bs d files).0) rooted
      ∙ write_task-read_file t c n es bs root files p h
  run_task_plan-read_file t _ root files p rooted h = refl

  -- A file outside of the task's shuffle directory is as it was, whether or not the task fails.
  pub execute_task-read_file :
      (t : Task) (attempt : ℕ) (root : String) (files : Disk) (p : BlockPath)
      → t.shuffle_root_dir ≡ some root
      → str_eq p.root_dir root ≡ false
      → read_file p (execute_task t attempt files).0 ≡ read_file p files
  unfolding execute_task
  execute_task-read_file t attempt root files p rooted h =
      run_task_plan-read_file t t.plan root files p rooted h

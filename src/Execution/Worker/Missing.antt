-- ===== src/Execution/Worker/Missing.antt =====
-- Shuffle data that is gone or corrupted: what a task that reads it reports.
use minispark.Common.{
  ℕ, Bool, true, false, Option, none, some, String, List, [], ◌∷◌, ◌++◌, All, ◌≡◌, refl, ap, ◌∙◌,
  subst, ◌⊎◌, inl, inr, str_eq, ok, raise, ◌>>=◌, >>=-eq-ok, Exception, file_not_found,
  shuffle_checksum, missing_shuffle_data,
}
use minispark.Core.Value.{Value, Record, Host}
use minispark.Expressions.Syntax.{Expression}
use minispark.Core.Schema.{Schema}
use minispark.Core.Dataset.{Rows, done, fail, yield, to_list}
use minispark.Optimizer.Statistics.{SizeHost}
use minispark.Physical.Plan.{
  PhysicalPlan, scan_exec, filter_exec, project_exec, hash_aggregate_exec, exchange_exec,
  shuffle_write_exec, shuffle_read_exec, hash_join_exec, sort_exec,
}
use minispark.Physical.Spill.{SpillHost}
use minispark.Physical.Operators.Sorting.{Numbered}
use minispark.Physical.Operators.Grouping.{Group}
use minispark.Physical.Operators.Partitions.{
  ShuffleBlocksByStage, blocks_of_stage, missing_data, read_partition, execute_shuffle_read,
  execute_partition,
}
use minispark.Shuffle.Partitioner.{KeyHost}
use minispark.Shuffle.Writer.{PickleHost, Disk, ShuffleBlockMeta, read_file}
use minispark.Shuffle.Reader.{append_rows, read_block, read_shuffle_blocks}
use minispark.Execution.Tasks.{Task, failed}
use minispark.Execution.Worker.{
  missing_stage_of, failed_result, result_or_failure, execute_normal_task, rows_to_write,
  write_task_rows, execute_shuffle_write_task, target_of, run_task_plan, execute_task,
}

-- The leaf that is executed first.
abbrev pub first_leaf : PhysicalPlan → PhysicalPlan
first_leaf (scan_exec d n) = scan_exec d n
first_leaf (filter_exec c e) = first_leaf c
first_leaf (project_exec c es s) = first_leaf c
first_leaf (hash_aggregate_exec c gs as' s part t) = first_leaf c
first_leaf (exchange_exec c n es b rs) = exchange_exec c n es b rs
first_leaf (shuffle_write_exec c n es rs) = shuffle_write_exec c n es rs
first_leaf (shuffle_read_exec i s b) = shuffle_read_exec i s b
first_leaf (hash_join_exec l r lk rk on s) = first_leaf l
first_leaf (sort_exec c es asc s t) = first_leaf c

-- The plan of a stage below the shuffle write at its root, if there is one.
abbrev pub stage_body : PhysicalPlan → PhysicalPlan
stage_body (shuffle_write_exec c n es rs) = c
stage_body p = p

to_list-append_rows :
    (a b : Rows) {rs : List Record} {e : Exception}
    → to_list a ≡ ok rs
    → to_list b ≡ raise e
    → to_list (append_rows a b) ≡ raise e
unfolding append_rows to_list
to_list-append_rows done b h k = k
to_list-append_rows (fail x) b h k = cc
to_list-append_rows (yield r rest) b h k =
    let (rs, e₁, e₂) = >>=-eq-ok (to_list rest) _ h in rw (to_list-append_rows rest b e₁ k) refl

raise_first : (e : Exception) (b : Rows) → to_list (append_rows (fail e) b) ≡ raise e
unfolding append_rows to_list
raise_first e b = refl

module _ ⦃pickle : PickleHost⦄ where
  -- The file of a block is not there, or its bytes are not those that were written.
  abbrev pub IsGone : Disk → ShuffleBlockMeta → Type 0
  IsGone files block =
      (read_file block.path files ≡ none)
      ⊎ ((raw : List ℕ) × (read_file block.path files ≡ some raw)
          × (str_eq (pickle.hexdigest raw) block.checksum ≡ false))

  abbrev pub IsReadable : Disk → ShuffleBlockMeta → Type 0
  IsReadable files block = (rs : List Record) × (to_list (read_block files true block) ≡ ok rs)

  -- The two exceptions that mean lost data.
  abbrev IsLoss : Exception → Type 0
  IsLoss e = (e ≡ file_not_found) ⊎ (e ≡ shuffle_checksum)

  read_block-IsGone :
      (files : Disk) (block : ShuffleBlockMeta)
      → IsGone files block
      → (e : Exception) × (read_block files true block ≡ fail e) × IsLoss e
  unfolding read_block
  read_block-IsGone files block (inl absent) =
      (file_not_found, rw (read_block, absent) refl, inl refl)
  read_block-IsGone files block (inr (raw, there, wrong)) =
      (shuffle_checksum, rw (read_block, there, wrong) refl, inr refl)

  read_shuffle_blocks-IsGone :
      (files : Disk) (good : List ShuffleBlockMeta) (bad : ShuffleBlockMeta)
      (rest : List ShuffleBlockMeta)
      → All (IsReadable files) good
      → IsGone files bad
      → (e : Exception) × (to_list (read_shuffle_blocks files true (good ++ (bad ∷ rest)))
          ≡ raise e)
        × IsLoss e
  unfolding read_shuffle_blocks
  read_shuffle_blocks-IsGone files [] bad rest h gone =
      let (e, p, l) = read_block-IsGone files bad gone in
      (
        e,
        ap (λ a. to_list (append_rows a (read_shuffle_blocks files true rest))) p
            ∙ raise_first e (read_shuffle_blocks files true rest),
        l,
      )
  read_shuffle_blocks-IsGone files (g ∷ good) bad rest h gone =
      let (rs, readable) = h.0 in
      let (e, p, l) = read_shuffle_blocks-IsGone files good bad rest h.1 gone in
      (e, to_list-append_rows (read_block files true g) _ readable p, l)

module _ ⦃py : Host⦄ ⦃memory : SizeHost⦄ ⦃pickle : PickleHost⦄ ⦃hashing : KeyHost (List Value)⦄
    ⦃sorting : SpillHost Numbered⦄ ⦃grouping : SpillHost Group⦄ where
  -- An exception of the first leaf is the exception of the plan.
  execute_partition-first_leaf :
      (files : Disk) (p : PhysicalPlan) (i : ℕ) (blocks : Option ShuffleBlocksByStage)
      {e : Exception}
      → execute_partition files (first_leaf p) i blocks ≡ raise e
      → execute_partition files p i blocks ≡ raise e
  unfolding execute_partition
  execute_partition-first_leaf files (scan_exec d n) i blocks h = h
  execute_partition-first_leaf files (filter_exec c e) i blocks h =
      rw (execute_partition-first_leaf files c i blocks h) refl
  execute_partition-first_leaf files (project_exec c es s) i blocks h =
      rw (execute_partition-first_leaf files c i blocks h) refl
  execute_partition-first_leaf files (hash_aggregate_exec c gs as' s part t) i blocks h =
      rw (execute_partition-first_leaf files c i blocks h) refl
  execute_partition-first_leaf files (exchange_exec c n es b rs) i blocks h = h
  execute_partition-first_leaf files (shuffle_write_exec c n es rs) i blocks h = h
  execute_partition-first_leaf files (shuffle_read_exec s x b) i blocks h = h
  execute_partition-first_leaf files (hash_join_exec l r lk rk on s) i blocks h =
      rw (execute_partition-first_leaf files l i blocks h) refl
  execute_partition-first_leaf files (sort_exec c es asc s t) i blocks h =
      rw (execute_partition-first_leaf files c i blocks h) refl

  normal-raise :
      (t : Task) (files : Disk) {e : Exception}
      → execute_partition files t.plan t.partition_id t.shuffle_blocks ≡ raise e
      → execute_normal_task t files ≡ raise e
  unfolding execute_normal_task
  normal-raise t files h = rw (execute_normal_task, h) refl

  write-raise :
      (t : Task) (c : PhysicalPlan) (n : ℕ) (es : List Expression) (rs : Option (List Value))
      (root : String) (files : Disk) {e : Exception}
      → execute_partition files c t.partition_id t.shuffle_blocks ≡ raise e
      → execute_shuffle_write_task t c n es rs (some root) files ≡ (files, raise e)
  unfolding execute_shuffle_write_task rows_to_write write_task_rows
  write-raise t c n es rs root files h =
      ap
        (λ m.
          write_task_rows t root
            (m >>= λ parent.
              to_list parent.records >>= λ rows. target_of n es rs >>= λ target. ok (rows, target))
            files)
        h

  -- An exception of the body of a task's plan is that of the task, which leaves the disk as it is.
  run_task_plan-raise :
      (t : Task) (p : PhysicalPlan) (root : String) (files : Disk) {e : Exception}
      → t.shuffle_root_dir ≡ some root
      → p ≡ t.plan
      → execute_partition files (stage_body p) t.partition_id t.shuffle_blocks ≡ raise e
      → run_task_plan t p files ≡ (files, raise e)
  unfolding run_task_plan
  run_task_plan-raise t (shuffle_write_exec c n es rs) root files rooted same h =
      ap (λ d. execute_shuffle_write_task t c n es rs d files) rooted
      ∙ write-raise t c n es rs root files h
  run_task_plan-raise t p root files {e} rooted same h =
      ap (λ r. (files, r))
        (normal-raise t files
          (subst (λ q. execute_partition files q t.partition_id t.shuffle_blocks ≡ raise e) same h))

  execute_shuffle_read-loss :
      (files : Disk) (stage : ℕ) (s : Schema) (i : ℕ) (blocks : List ShuffleBlockMeta)
      (e : Exception)
      → IsLoss e
      → to_list (read_shuffle_blocks files true blocks) ≡ raise e
      → execute_shuffle_read files stage s i (some blocks) ≡ raise (missing_shuffle_data stage i)
  unfolding execute_shuffle_read read_partition missing_data
  execute_shuffle_read-loss files stage s i blocks e (inl l) h =
      ap (read_partition stage s i) (h ∙ ap raise l)
  execute_shuffle_read-loss files stage s i blocks e (inr l) h =
      ap (read_partition stage s i) (h ∙ ap raise l)

  -- A task whose plan reads a stage's blocks first, where one of these blocks is gone or corrupted and
  -- those before it are readable, and whose query has a shuffle directory: its state is `failed`, it has
  -- no rows and no blocks, it reports that stage's number as the missing one, its error is a
  -- MissingShuffleDataError of that stage and the task's partition, and the disk stays as it is.
  pub execute_task-missing :
      (t : Task) (attempt : ℕ) (files : Disk) (root : String) (stage : ℕ) (s : Schema) (b : Bool)
      (good : List ShuffleBlockMeta) (bad : ShuffleBlockMeta) (rest : List ShuffleBlockMeta)
      → t.shuffle_root_dir ≡ some root
      → first_leaf (stage_body t.plan) ≡ shuffle_read_exec stage s b
      → blocks_of_stage stage t.shuffle_blocks ≡ some (good ++ (bad ∷ rest))
      → All (IsReadable files) good
      → IsGone files bad
      → ((execute_task t attempt files).0 ≡ files)
        × ((execute_task t attempt files).1.task_id ≡ t.task_id)
        × ((execute_task t attempt files).1.state ≡ failed)
        × ((execute_task t attempt files).1.rows ≡ [])
        × ((execute_task t attempt files).1.shuffle_blocks ≡ [])
        × ((execute_task t attempt files).1.missing_shuffle_stage_id ≡ some stage)
        × ((execute_task t attempt files).1.error
            ≡ some (missing_shuffle_data stage t.partition_id))
  unfolding execute_task execute_partition result_or_failure failed_result missing_stage_of
  execute_task-missing t attempt files root stage s b good bad rest rooted reads given h gone =
      let (e, p, l) = read_shuffle_blocks-IsGone files good bad rest h gone in
      let lost =
        execute_shuffle_read-loss files stage s t.partition_id (good ++ (bad ∷ rest)) e l p in
      let leaf : execute_partition files (shuffle_read_exec stage s b) t.partition_id
            t.shuffle_blocks
          ≡ raise (missing_shuffle_data stage t.partition_id) =
        ap (execute_shuffle_read files stage s t.partition_id) given ∙ lost in
      let body =
        execute_partition-first_leaf files (stage_body t.plan) t.partition_id t.shuffle_blocks
          (ap (λ q. execute_partition files q t.partition_id t.shuffle_blocks) reads ∙ leaf) in
      let fails = run_task_plan-raise t t.plan root files rooted refl body in
      (
        ap (λ out. out.0) fails,
        ap (λ out. (result_or_failure t out.1).task_id) fails,
        ap (λ out. (result_or_failure t out.1).state) fails,
        ap (λ out. (result_or_failure t out.1).rows) fails,
        ap (λ out. (result_or_failure t out.1).shuffle_blocks) fails,
        ap (λ out. (result_or_failure t out.1).missing_shuffle_stage_id) fails,
        ap (λ out. (result_or_failure t out.1).error) fails,
      )

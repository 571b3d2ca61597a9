-- ===== src/Execution/Scheduler.antt =====
-- minispark/execution/scheduler.py: the stages of a query run in order, failed tasks are tried again,
-- and a stage whose shuffle blocks are gone is run once more. `run_task` is an argument, as in
-- `LocalScheduler.__init__`; what it changes outside the scheduler (files) is the state `World`. The
-- tasks of a batch run one after another: the process pool gives their results in the same order.
-- Running a stage is recursive through recovery, on fuel, and so is the loop over the pending tasks.
pub mod Remaining
pub mod Outcomes
pub mod Handling
pub mod Recovering
pub mod Rounds
pub mod Completion
pub mod Files
pub mod Running
pub mod Query
use minispark.Common.{
  ℕ, zero, suc, ◌+◌, String, Bool, true, false, Option, none, some, List, [], ◌∷◌, ◌++◌, map,
  length, any, ltb, ◌==◌, ◌&&◌, if◌then◌else◌, Result, ok, raise, ◌>>=◌, map_result, key_error,
  runtime_error, assertion, task_execution,
}
use minispark.Common.Dicts.{mem_id, add_id, set_item, find_item}
use minispark.Core.Schema.{Schema}
use minispark.Core.Dataset.{Partition, Dataset, from_list}
use minispark.Physical.Plan.{PhysicalPlan, shuffle_read_exec, shuffle_write_exec, leaves, schema_of}
use minispark.Physical.Operators.Partitions.{ShuffleBlocksByStage}
use minispark.Shuffle.Writer.{ShuffleBlockMeta}
use minispark.Shuffle.Manager.{Registry, register_blocks, blocks_for}
use minispark.Execution.Stages.{Stage}
use minispark.Execution.Tasks.{Task, TaskResult, is_failed}
use minispark.Execution.Metrics.{StageMetrics, QueryMetrics, from_task_metrics}

unfoldable pub is_shuffle_write : PhysicalPlan → Bool
is_shuffle_write (shuffle_write_exec c n es rs) = true
is_shuffle_write _ = false

-- The dict of a task's blocks, over the leaves, from the items so far on.
unfoldable pub resolve_leaves :
    List PhysicalPlan → ℕ → Registry → ShuffleBlocksByStage → ShuffleBlocksByStage
unfolding set_item blocks_for
resolve_leaves [] partition registry items = items
resolve_leaves (shuffle_read_exec stage s broadcast ∷ ls) partition registry items =
    resolve_leaves ls partition registry
      (set_item stage (blocks_for registry stage (if broadcast then 0 else partition)) items)
resolve_leaves (_ ∷ ls) partition registry items = resolve_leaves ls partition registry items

-- `None` where no leaf reads a shuffle.
unfoldable pub some_blocks : ShuffleBlocksByStage → Option ShuffleBlocksByStage
some_blocks [] = none
some_blocks (item ∷ items) = some (item ∷ items)

unfoldable pub resolve_shuffle_blocks : PhysicalPlan → ℕ → Registry → Option ShuffleBlocksByStage
unfolding resolve_leaves some_blocks leaves
resolve_shuffle_blocks p partition registry =
    some_blocks (resolve_leaves (leaves p) partition registry [])

unfoldable pub result_partitions : ℕ → Schema → List TaskResult → List Partition
unfolding from_list
result_partitions i s [] = []
result_partitions i s (r ∷ rs) =
    record {
      partition_id = i;
      schema = s;
      records = from_list r.rows;
      row_count = some r.metrics.output_records;
    }
    ∷ result_partitions (suc i) s rs

unfoldable pub results_to_dataset : Schema → List TaskResult → Dataset
unfolding result_partitions
results_to_dataset s rs = record { schema = s; partitions = result_partitions 0 s rs }

-- `stages_by_id.get(i)`.
unfoldable pub find_stage : ℕ → List Stage → Option Stage
find_stage i [] = none
find_stage i (s ∷ ss) = elim (find_stage i ss) [
  | some t ↦ some t
  | none ↦ if s.stage_id == i then some s else none
]

unfoldable pub all_blocks : List TaskResult → List ShuffleBlockMeta
all_blocks [] = []
all_blocks (r ∷ rs) = r.shuffle_blocks ++ all_blocks rs

-- `done[task.task_id]`.
unfoldable pub result_of : List (ℕ × TaskResult) → Task → Result TaskResult
unfolding find_item
result_of done t = elim (find_item t.task_id done) [
  | some r ↦ ok r
  | none ↦ raise (key_error "task_id")
]

-- The tasks of the partitions `pid`, `pid + 1`, ..., `left` of them.
unfoldable pub make_tasks : String → Stage → (left pid task_id : ℕ) → Registry → List Task
unfolding resolve_shuffle_blocks
make_tasks root stage zero pid task_id registry = []
make_tasks root stage (suc left) pid task_id registry =
    record {
      task_id = task_id;
      stage_id = stage.stage_id;
      partition_id = pid;
      plan = stage.plan;
      shuffle_root_dir = some root;
      shuffle_blocks = resolve_shuffle_blocks stage.plan pid registry;
    }
    ∷ make_tasks root stage left (suc pid) (suc task_id) registry

-- The three variables of the loop over the pending tasks.
pub record Progress : Type 0 where
  pub pending : List (Task × ℕ)
  pub done : List (ℕ × TaskResult)
  pub retried_task_ids : List ℕ

-- The results of the tasks, in the order of the tasks; a failed one is a TaskExecutionError.
unfoldable pub collect_results : List Task → Progress → Result (List TaskResult × ℕ)
unfolding result_of
collect_results tasks progress = do
  results ← map_result (result_of progress.done) tasks
  if any is_failed results
      then raise task_execution
      else ok (results, length progress.retried_task_ids)

unfoldable pub retry_or_finish : (max_retries : ℕ) → Task → ℕ → TaskResult → Progress → Progress
unfolding set_item add_id
retry_or_finish max_retries t attempt r progress =
    if is_failed r && ltb attempt max_retries
    then record progress {
      retried_task_ids = add_id t.task_id progress.retried_task_ids;
      pending = progress.pending ++ ((t, attempt + 1) ∷ []);
    }
    else record progress { done = set_item t.task_id r progress.done }

-- What becomes of a task, given the task that recovery gives back, if any.
unfoldable pub place_task :
    (max_retries : ℕ) → Task → ℕ → TaskResult → Progress → Option Task → Progress
unfolding retry_or_finish
place_task max_retries t attempt r progress none = retry_or_finish max_retries t attempt r progress
place_task max_retries t attempt r progress (some t') = record progress {
  pending = progress.pending ++ ((t', attempt) ∷ []);
}

-- The objects that `run_plan` makes, and the world.
pub record SchedulerState (World : Type 0) : Type 0 where
  pub world : World
  pub registry : Registry
  pub next_task_id : ℕ
  pub recomputed_stages : List ℕ
  pub stage_metrics : List StageMetrics

-- A step leaves a state behind whether or not it raises.
abbrev pub Step : Type 0 → Type 0 → Type 0
Step World A = SchedulerState World → SchedulerState World × Result A

module _ {World : Type 0} where
  abbrev pub and_then :
      {A B : Type 0}
      → SchedulerState World × Result A
      → (A → Step World B)
      → SchedulerState World × Result B
  and_then (st, raise e) next = (st, raise e)
  and_then (st, ok a) next = next a st

  -- The metrics of a stage that ran, and the registration of what it wrote.
  unfoldable pub finish_stage : Stage → Bool → List TaskResult × ℕ → Step World (List TaskResult)
  unfolding from_task_metrics register_blocks all_blocks is_shuffle_write
  finish_stage stage recomputed (results, retried) st = (
    record st {
      stage_metrics =
          st.stage_metrics
          ++ (from_task_metrics stage.stage_id (map (λ r. r.metrics) results) retried recomputed
              ∷ []);
      registry =
          if is_shuffle_write stage.plan
          then register_blocks stage.stage_id (all_blocks results) st.registry
          else st.registry;
    },
    ok results,
  )

  module _ (run_task : Task → ℕ → World → World × TaskResult) (max_retries : ℕ) where
    -- Each item of the batch, with its result.
    unfoldable pub run_batch : List (Task × ℕ) → World → World × List ((Task × ℕ) × TaskResult)
    run_batch [] w = (w, [])
    run_batch ((t, attempt) ∷ batch) w =
        let (w', r) = run_task t attempt w in
        let (w'', rs) = run_batch batch w' in (w'', ((t, attempt), r) ∷ rs)

    module _ (rerun : Stage → Step World (List TaskResult)) (stages : List Stage) where
      -- `_try_recover_missing_shuffle`, given whether the stage was recomputed and what is found by id.
      unfoldable pub recover_stage : Task → ℕ → Bool → Option Stage → Step World (Option Task)
      unfolding resolve_shuffle_blocks
      recover_stage t missing true found st = (st, ok none)
      recover_stage t missing false none st = (st, ok none)
      recover_stage t missing false (some s) st =
          and_then (rerun s (record st { recomputed_stages = missing ∷ st.recomputed_stages }))
            (λ rs st'. (
              st',
              ok (
                  some (record t {
                    shuffle_blocks = resolve_shuffle_blocks t.plan t.partition_id st'.registry;
                  })),
            ))

      -- Only a failure that names a missing stage is recovered from.
      unfoldable pub try_recover : Task → Bool → Option ℕ → Step World (Option Task)
      unfolding recover_stage mem_id find_stage
      try_recover t true (some missing) st =
          recover_stage t missing (mem_id missing st.recomputed_stages) (find_stage missing stages)
            st
      try_recover t _ _ st = (st, ok none)

      unfoldable pub handle_results :
          List ((Task × ℕ) × TaskResult) → Progress → Step World Progress
      unfolding try_recover place_task
      handle_results [] progress st = (st, ok progress)
      handle_results (((t, attempt), r) ∷ rest) progress st =
          and_then (try_recover t (is_failed r) r.missing_shuffle_stage_id st) (λ recovered st'.
            handle_results rest (place_task max_retries t attempt r progress recovered) st')

      -- `while pending`, on fuel: the batch, and the variables with `pending` emptied.
      unfoldable pub run_pending : ℕ → List (Task × ℕ) → Progress → Step World Progress
      unfolding run_batch handle_results
      run_pending fuel [] progress st = (st, ok progress)
      run_pending zero (item ∷ batch) progress st = (st, raise runtime_error)
      run_pending (suc fuel) (item ∷ batch) progress st =
          let (w, results) = run_batch (item ∷ batch) st.world in
          and_then (handle_results results progress (record st { world = w })) (λ progress' st'.
            run_pending fuel progress'.pending (record progress' { pending = [] }) st')

      unfoldable pub run_to_completion : ℕ → String → Stage → Step World (List TaskResult × ℕ)
      unfolding run_pending collect_results make_tasks
      run_to_completion rounds root stage st =
          let tasks = make_tasks root stage stage.num_partitions 0 st.next_task_id st.registry in
          and_then
            (run_pending rounds (map (λ t. (t, 0)) tasks)
              (record { pending = []; done = []; retried_task_ids = [] })
              (record st { next_task_id = st.next_task_id + stage.num_partitions }))
            (λ progress st'. (st', collect_results tasks progress))

    module _ (rounds : ℕ) (root : String) (stages : List Stage) where
      -- `_run_stage`; the first argument bounds the recoveries within recoveries.
      unfoldable pub run_stage : ℕ → Bool → Stage → Step World (List TaskResult)
      unfolding run_to_completion finish_stage
      run_stage zero recomputed stage st = (st, raise runtime_error)
      run_stage (suc depth) recomputed stage st =
          and_then (run_to_completion (run_stage depth true) stages rounds root stage st)
            (finish_stage stage recomputed)

      -- The loop of `run_plan` over the stages, with the last dataset so far.
      unfoldable pub run_stages : ℕ → List Stage → Option Dataset → Step World Dataset
      unfolding run_stage is_shuffle_write results_to_dataset schema_of
      run_stages depth [] final st = (st, elim final [ some d ↦ ok d | none ↦ raise assertion ])
      run_stages depth (s ∷ ss) final st = and_then (run_stage depth false s st) (λ results st'.
          run_stages depth ss
            (if is_shuffle_write s.plan
              then final
              else some (results_to_dataset (schema_of s.plan) results))
            st')

    -- `run_plan`, with the world and `last_metrics` as it leaves them. A stage is recomputed at most
    -- once, so recoveries nest no deeper than there are stages, and a task is tried at most
    -- `max_retries + 1` times besides its recoveries. Whether or not the run raises, `cleanup` of the
    -- shuffle's root directory changes the world last (the `finally` clause).
    unfoldable pub run_plan :
        (cleanup : String → World → World)
        → String
        → List Stage
        → World
        → World × QueryMetrics × Result Dataset
    unfolding run_stages
    run_plan cleanup root stages w =
        let (st, result) =
          run_stages (max_retries + 1 + length stages) root stages (length stages + 1) stages none
            (record {
              world = w;
              registry = [];
              next_task_id = 0;
              recomputed_stages = [];
              stage_metrics = [];
            }) in
        (cleanup root st.world, record { stages = st.stage_metrics }, result)

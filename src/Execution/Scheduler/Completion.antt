-- ===== src/Execution/Scheduler/Completion.antt =====
-- A stage runs to completion: every task has a result, or a task gave up.
use minispark.Common.{
  ℕ, zero, suc, ◌+◌, ◌≤◌, arith, Bool, true, false, some, List, [], ◌∷◌, map, any, length, All,
  All-map, ◌≡◌, refl, ap, sym, subst, inl, inr, ok, raise, task_execution, if◌then◌else◌,
  map_result, ◌>>=◌, String, Bool-cases,
}
use minispark.Common.Dicts.{find_item, find_item-All}
use minispark.Shuffle.Manager.{Registry}
use minispark.Execution.Stages.{Stage}
use minispark.Execution.Tasks.{Task, TaskResult, is_failed}
use minispark.Execution.Metrics.{from_task_metrics}
use minispark.Execution.Scheduler.{
  SchedulerState, Step, Progress, result_of, collect_results, make_tasks, run_to_completion,
  finish_stage, run_stage,
}
use minispark.Execution.Scheduler.Remaining.{recomputations-append}
use minispark.Execution.Scheduler.Outcomes.{
  Setting, GivesUp, IsRooted, Keeps, EndsWith, left, Ran, Goes-refl, and_then-Ran, Ran-after,
  Ran-weaken, Ran-cost,
}
use minispark.Execution.Scheduler.Handling.{Waits, Due, Final}
use minispark.Execution.Scheduler.Rounds.{IsDue, Finished, run_pending-Ran}

-- No task failed, and there is a result for each partition.
abbrev pub IsComplete : ℕ → List TaskResult → Type 0
IsComplete n rs = (length rs ≡ n) × (any is_failed rs ≡ false)

length-make_tasks :
    (root : String) (s : Stage) (n pid i : ℕ) (registry : Registry)
    → length (make_tasks root s n pid i registry) ≡ n
unfolding make_tasks
length-make_tasks root s zero pid i registry = refl
length-make_tasks root s (suc n) pid i registry =
    ap suc (length-make_tasks root s n (suc pid) (suc i) registry)

-- Every task of a list waits in its first batch.
first_batch :
    (tasks : List Task) → All (λ i. Waits i (map (λ t. (t, 0)) tasks)) (map (λ t. t.task_id) tasks)
first_batch [] = tt
first_batch (t ∷ tasks) = (
  inl refl,
  All-map {P = λ i. Waits i (map (λ t. (t, 0)) tasks)}
      {Q = λ i. Waits i (map (λ t. (t, 0)) (t ∷ tasks))} (λ i w. inr w) (map (λ t. t.task_id) tasks)
      (first_batch tasks),
)

module _ {World : Type 0} (m : Setting World) where
  make_tasks-IsRooted :
      (s : Stage) (n pid i : ℕ) (registry : Registry)
      → All (IsRooted m) (make_tasks m.root s n pid i registry)
  unfolding make_tasks
  make_tasks-IsRooted s zero pid i registry = tt
  make_tasks-IsRooted s (suc n) pid i registry =
      (refl, make_tasks-IsRooted s n (suc pid) (suc i) registry)

  first_batch-Due :
      (rounds n : ℕ) (tasks : List Task)
      → m.max_retries + 1 + n ≤ rounds
      → All (IsRooted m) tasks
      → All (Due m rounds n) (map (λ t. (t, 0)) tasks)
  first_batch-Due rounds n [] h rooted = tt
  first_batch-Due rounds n (t ∷ tasks) h rooted =
      ((omega arith, omega arith, rooted.0), first_batch-Due rounds n tasks h rooted.1)

  result_of-found :
      (done : List (ℕ × TaskResult)) (t : Task) {r : TaskResult}
      → find_item t.task_id done ≡ some r
      → result_of done t ≡ ok r
  unfolding result_of
  result_of-found done t e = rw (result_of, e) refl

  results_found :
      (tasks : List Task) (progress : Progress)
      → Finished m (map (λ t. t.task_id) tasks) progress
      → (rs : List TaskResult) × (map_result (result_of progress.done) tasks ≡ ok rs)
        × (length rs ≡ length tasks)
        × All (Final m) rs
  results_found [] progress h = ([], refl, refl, tt)
  results_found (t ∷ tasks) progress (((r, e), found), finals) =
      let (rs, p, q, f) = results_found tasks progress (found, finals) in
      (
        r ∷ rs,
        rw (result_of-found progress.done t e, p) refl,
        ap suc q,
        (find_item-All (Final m) t.task_id progress.done finals e, f),
      )

  any-Final : (rs : List TaskResult) → All (Final m) rs → any is_failed rs ≡ true → GivesUp m
  any-Final [] h e = absurd (ground arith)
  any-Final (r ∷ rs) h e = elim (Bool-cases (is_failed r)) [
    | inl p ↦ h.0 p
    | inr p ↦ any-Final rs h.1 (ground arith)
  ]

  collect_results-Ends :
      (tasks : List Task) (progress : Progress)
      → Finished m (map (λ t. t.task_id) tasks) progress
      → EndsWith m {A = List TaskResult × ℕ}
          (λ out. IsComplete (length tasks) out.0)
          (collect_results tasks progress)
  unfolding collect_results
  collect_results-Ends tasks progress h =
      let (rs, p, q, f) = results_found tasks progress h in
      subst
        (λ found.
          EndsWith m {A = List TaskResult × ℕ} (λ out. IsComplete (length tasks) out.0)
            (found >>= λ results.
              if any is_failed results
              then raise task_execution
              else ok (results, length progress.retried_task_ids)))
        (sym p) (judged rs q f (any is_failed rs) refl)
    where
      judged :
          (rs : List TaskResult)
          → length rs ≡ length tasks
          → All (Final m) rs
          → (bad : Bool) → any is_failed rs ≡ bad
          → EndsWith m {A = List TaskResult × ℕ}
              (λ out. IsComplete (length tasks) out.0)
              (if bad then raise task_execution else ok (rs, length progress.retried_task_ids))
      judged rs q f true e = (refl, any-Final rs f e)
      judged rs q f false e = (q, e)

  module _ (keeps : Keeps m) (rerun : Stage → Step World (List TaskResult)) (limit : ℕ)
      (rerun-Ran : (s : Stage) (st : SchedulerState World)
        → suc (left m st) ≤ limit
        → Ran m 1 (λ rs st'. Unit) st (rerun s st)) where
    run_to_completion-Ran :
        (rounds : ℕ) (s : Stage) (st : SchedulerState World)
        → left m st ≤ limit
        → m.max_retries + 1 + left m st ≤ rounds
        → Ran m 0
            (λ out st'. IsComplete s.num_partitions out.0)
            st
            (run_to_completion m.run_task m.max_retries rerun m.stages rounds m.root s st)
    unfolding run_to_completion
    run_to_completion-Ran rounds s st bound enough =
        and_then-Ran m 0 0 (λ progress st'. Finished m (map (λ t. t.task_id) tasks) progress)
          (λ out st'. IsComplete s.num_partitions out.0) st _ _
          (Ran-after m 0 0 (λ progress st'. Finished m (map (λ t. t.task_id) tasks) progress)
            (record { fewer = omega arith; balance = omega arith; kept = λ h. h })
            (run_pending-Ran m keeps rerun limit rerun-Ran rounds (map (λ t. t.task_id) tasks)
              (map (λ t. (t, 0)) tasks) _ _ bound refl
              (first_batch-Due rounds (left m st) tasks enough
                (make_tasks-IsRooted s s.num_partitions 0 st.next_task_id st.registry))
              (All-map {P = λ i. Waits i (map (λ t. (t, 0)) tasks)}
                {Q = IsDue [] (map (λ t. (t, 0)) tasks)} (λ i w. inr w) (map (λ t. t.task_id) tasks)
                (first_batch tasks))
              tt))
          (λ progress st' goes finished. record {
            goes = Goes-refl m st';
            ends =
                subst
                  (λ n.
                    EndsWith m {A = List TaskResult × ℕ} (λ out. IsComplete n out.0)
                      (collect_results tasks progress))
                  (length-make_tasks m.root s s.num_partitions 0 st.next_task_id st.registry)
                  (collect_results-Ends tasks progress finished);
          })
      where
        tasks : List Task
        tasks = make_tasks m.root s s.num_partitions 0 st.next_task_id st.registry

  -- One more where the stage that ran was recomputed.
  abbrev pub cost : Bool → ℕ
  cost recomputed = if recomputed then 1 else 0

  finish_stage-Ran :
      (s : Stage) (recomputed : Bool) (out : List TaskResult × ℕ) (st : SchedulerState World)
      → IsComplete s.num_partitions out.0
      → Ran m
          (cost recomputed)
          (λ rs st'. IsComplete s.num_partitions rs)
          st
          (finish_stage s recomputed out st)
  unfolding finish_stage from_task_metrics
  finish_stage-Ran s recomputed (results, retried) st complete = record {
    goes = record {
      fewer = omega arith;
      balance = omega (
        arith,
        recomputations-append st.stage_metrics
            (from_task_metrics s.stage_id (map (λ r. r.metrics) results) retried recomputed),
      );
      kept = λ h. h;
    };
    ends = complete;
  }

  -- With as many rounds and as much depth as there can be attempts and recoveries, a stage gives a
  -- complete list of results, or a task gave up.
  pub run_stage-Ran :
      (keeps : Keeps m) (rounds depth : ℕ) (recomputed : Bool) (s : Stage)
      (st : SchedulerState World)
      → suc (left m st) ≤ depth
      → m.max_retries + 1 + left m st ≤ rounds
      → Ran m
          (cost recomputed)
          (λ rs st'. IsComplete s.num_partitions rs)
          st
          (run_stage m.run_task m.max_retries rounds m.root m.stages depth recomputed s st)
  unfolding run_stage
  run_stage-Ran keeps rounds zero recomputed s st deep enough = absurd (omega arith)
  run_stage-Ran keeps rounds (suc depth) recomputed s st deep enough =
      Ran-cost m (0 + cost recomputed) (cost recomputed) (λ rs st'. IsComplete s.num_partitions rs)
        st _ (omega arith)
        (and_then-Ran m 0 (cost recomputed) (λ out st'. IsComplete s.num_partitions out.0)
          (λ rs st'. IsComplete s.num_partitions rs) st _ (finish_stage s recomputed)
          (run_to_completion-Ran keeps
            (run_stage m.run_task m.max_retries rounds m.root m.stages depth true) (left m st)
            (λ s' st' fewer.
              Ran-weaken m 1 (λ rs st'. IsComplete s'.num_partitions rs) (λ rs st'. Unit) st' _
                (λ rs complete. tt)
                (run_stage-Ran keeps rounds depth true s' st' (omega arith) (omega arith)))
            rounds s st (omega arith) enough)
          (λ out st' goes complete. finish_stage-Ran s recomputed out st' complete))

-- ===== src/Execution/Scheduler/Running.antt =====
-- What `run_plan` gives for the stages of a query.
use minispark.Common.{
  ℕ, suc, ◌+◌, ◌≤◌, arith, true, false, Option, none, some, String, List, [], ◌∷◌, ◌++◌, length,
  ◌≡◌, refl, ap, sym, ◌∙◌, subst, ◌⊎◌, inl, inr, Result, ok, raise, assertion, task_execution,
  if◌then◌else◌,
}
use minispark.Core.Schema.{Schema}
use minispark.Core.Dataset.{Dataset, num_partitions}
use minispark.Physical.Plan.{schema_of}
use minispark.Execution.Stages.{Stage}
use minispark.Execution.Tasks.{Task, TaskResult, is_failed}
use minispark.Execution.Scheduler.{
  SchedulerState, is_shuffle_write, result_partitions, results_to_dataset, run_stages, run_plan,
}
use minispark.Execution.Scheduler.Remaining.{remaining-none, recomputations}
use minispark.Execution.Scheduler.Outcomes.{
  Setting, Keeps, EndsWith, left, Ran, Goes-refl, and_then-Ran,
}
use minispark.Execution.Scheduler.Completion.{IsComplete, run_stage-Ran}

length-result_partitions :
    (i : ℕ) (s : Schema) (rs : List TaskResult) → length (result_partitions i s rs) ≡ length rs
unfolding result_partitions
length-result_partitions i s [] = refl
length-result_partitions i s (r ∷ rs) = ap suc (length-result_partitions (suc i) s rs)

-- The dataset of a stage: its schema, and a partition for each of its tasks.
abbrev pub IsResultOf : Stage → Dataset → Type 0
IsResultOf s d = (d.schema ≡ schema_of s.plan) × (num_partitions d ≡ s.num_partitions)

results_to_dataset-IsResultOf :
    (s : Stage) (rs : List TaskResult)
    → IsComplete s.num_partitions rs
    → IsResultOf s (results_to_dataset (schema_of s.plan) rs)
unfolding results_to_dataset
results_to_dataset-IsResultOf s rs h =
    (refl, length-result_partitions 0 (schema_of s.plan) rs ∙ h.0)

module _ {World : Type 0} (m : Setting World) where
  abbrev initial : World → SchedulerState World
  initial w = record {
    world = w;
    registry = [];
    next_task_id = 0;
    recomputed_stages = [];
    stage_metrics = [];
  }

  run_stages-Ran :
      (keeps : Keeps m) (rounds depth : ℕ) (upstream : List Stage) (last : Stage)
      (final : Option Dataset) (st : SchedulerState World)
      → is_shuffle_write last.plan ≡ false
      → suc (left m st) ≤ depth
      → m.max_retries + 1 + left m st ≤ rounds
      → Ran m 0
          (λ d st'. IsResultOf last d)
          st
          (run_stages m.run_task m.max_retries rounds m.root m.stages depth
            (upstream ++ (last ∷ []))
            final
            st)
  unfolding run_stages
  run_stages-Ran keeps rounds depth [] last final st reads deep enough =
      and_then-Ran m 0 0 (λ rs st'. IsComplete last.num_partitions rs) (λ d st'. IsResultOf last d)
        st _ _ (run_stage-Ran m keeps rounds depth false last st deep enough)
        (λ rs st' goes complete. record {
          goes = Goes-refl m st';
          ends =
              subst
                (λ b.
                  EndsWith m (IsResultOf last)
                    (elim (if b
                      then final
                      else some (results_to_dataset (schema_of last.plan) rs)) [
                        | some d ↦ ok d
                        | none ↦ raise assertion
                      ]))
                (sym reads) (results_to_dataset-IsResultOf last rs complete);
        })
  run_stages-Ran keeps rounds depth (s ∷ upstream) last final st reads deep enough =
      and_then-Ran m 0 0 (λ rs st'. IsComplete s.num_partitions rs) (λ d st'. IsResultOf last d) st
        _ _ (run_stage-Ran m keeps rounds depth false s st deep enough)
        (λ rs st' goes complete.
          let fewer = goes.fewer in
          run_stages-Ran keeps rounds depth upstream last _ st' reads (omega arith) (omega arith))

  -- The whole run, from the state that `run_plan` makes.
  plan-Ran :
      (keeps : Keeps m) (upstream : List Stage) (last : Stage) (w : World)
      → m.stages ≡ upstream ++ (last ∷ [])
      → is_shuffle_write last.plan ≡ false
      → Ran m 0
          (λ d st'. IsResultOf last d)
          (initial w)
          (run_stages m.run_task m.max_retries
            (m.max_retries + 1 + length m.stages)
            m.root
            m.stages
            (length m.stages + 1)
            m.stages
            none
            (initial w))
  plan-Ran keeps upstream last w whole reads =
      subst
        (λ ss.
          Ran m 0 (λ d st'. IsResultOf last d) (initial w)
            (run_stages m.run_task m.max_retries (m.max_retries + 1 + length m.stages) m.root
              m.stages (length m.stages + 1) ss none (initial w)))
        (sym whole)
        (run_stages-Ran keeps (m.max_retries + 1 + length m.stages) (length m.stages + 1) upstream
          last none (initial w) reads (omega (arith, remaining-none m.stages))
          (omega (arith, remaining-none m.stages)))

module _ {World : Type 0} (run_task : Task → ℕ → World → World × TaskResult) (max_retries : ℕ) where
  abbrev pub LastFailure : Type 0
  LastFailure = (t : Task) × (w : World) × (is_failed (run_task t max_retries w).1 ≡ true)

  abbrev setting : (World → Type 0) → String → List Stage → Setting World
  setting Kept root stages = record {
    run_task = run_task;
    max_retries = max_retries;
    root = root;
    stages = stages;
    Kept = Kept;
  }

  -- Whatever a task does, a run ends, where the last stage is not a shuffle write: with a dataset that
  -- has the last stage's schema and a partition for each of its tasks, or with a TaskExecutionError
  -- because some task failed at its last attempt.
  pub run_plan-IsResultOf :
      (cleanup : String → World → World) (root : String) (upstream : List Stage) (last : Stage)
      (w : World)
      → is_shuffle_write last.plan ≡ false
      → ((d : Dataset) × ((run_plan run_task max_retries cleanup root (upstream ++ (last ∷ [])) w).2
            ≡ ok d)
          × IsResultOf last d)
        ⊎ (((run_plan run_task max_retries cleanup root (upstream ++ (last ∷ [])) w).2
              ≡ raise task_execution)
            × LastFailure)
  unfolding run_plan
  run_plan-IsResultOf cleanup root upstream last w reads = outcome _ (ran.ends)
    where
      stages : List Stage
      stages = upstream ++ (last ∷ [])

      ran :
          Ran
            (setting (λ w. Unit) root stages)
            0
            (λ d st'. IsResultOf last d)
            (initial (setting (λ w. Unit) root stages) w)
            (run_stages run_task max_retries
              (max_retries + 1 + length stages)
              root
              stages
              (length stages + 1)
              stages
              none
              (initial (setting (λ w. Unit) root stages) w))
      ran =
          plan-Ran (setting (λ w. Unit) root stages) (λ t a w r h k. tt) upstream last w refl reads

      outcome :
          (r : Result Dataset)
          → EndsWith (setting (λ w. Unit) root stages) (IsResultOf last) r
          → ((d : Dataset) × (r ≡ ok d) × IsResultOf last d)
            ⊎ ((r ≡ raise task_execution) × LastFailure)
      outcome (ok d) h = inl (d, refl, h)
      outcome (raise e) h = inr (ap raise h.0, h.1)

  -- Where the last stage is not a shuffle write, the runs that recompute a stage are no more than the
  -- stages of the query, whether or not the run raises.
  pub recomputations-run_plan :
      (cleanup : String → World → World) (root : String) (upstream : List Stage) (last : Stage)
      (w : World)
      → is_shuffle_write last.plan ≡ false
      → recomputations
          (run_plan run_task max_retries cleanup root (upstream ++ (last ∷ [])) w).1.stages
        ≤ length (upstream ++ (last ∷ []))
  unfolding run_plan
  recomputations-run_plan cleanup root upstream last w reads =
      let m = setting (λ w. Unit) root (upstream ++ (last ∷ [])) in
      let ran = plan-Ran m (λ t a w r h k. tt) upstream last w refl reads in
      let b = ran.goes.balance in omega (arith, remaining-none (upstream ++ (last ∷ [])))

  -- What every attempt of a task of the query's directory keeps of the world, up to the last attempt
  -- that is allowed, a run keeps until its cleanup, whether or not it raises.
  pub run_plan-keeps :
      (Kept : World → Type 0) (cleanup : String → World → World) (root : String)
      (upstream : List Stage) (last : Stage) (w : World)
      → is_shuffle_write last.plan ≡ false
      → ((t : Task) (a : ℕ) (w : World)
          → t.shuffle_root_dir ≡ some root
          → a ≤ max_retries
          → Kept w
          → Kept (run_task t a w).0)
      → Kept w
      → (w' : World) × ((run_plan run_task max_retries cleanup root (upstream ++ (last ∷ [])) w).0
          ≡ cleanup root w')
        × Kept w'
  unfolding run_plan
  run_plan-keeps Kept cleanup root upstream last w reads keeps k =
      let m = setting Kept root (upstream ++ (last ∷ [])) in
      let ran = plan-Ran m keeps upstream last w refl reads in (_, refl, ran.goes.kept k)

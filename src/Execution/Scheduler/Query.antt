-- ===== src/Execution/Scheduler/Query.antt =====
-- A logical plan, from its translation to the dataset that the scheduler gives.
use minispark.Common.{
  ℕ, Bool, true, false, String, List, [], ◌∷◌, ◌++◌, ◌≡◌, refl, ap, sym, ◌∙◌, ◌⊎◌, inl, inr, Result,
  ok, raise, ◌>>=◌, task_execution, OnOk, OnOk-bind, OnOk-value, ◌&&◌, if◌then◌else◌,
}
use minispark.Core.Value.{Host}
use minispark.Core.Dataset.{Dataset}
use minispark.Optimizer.Statistics.{SizeHost}
use minispark.Logical.Nodes.{LogicalPlan, schema}
use minispark.Physical.Plan.{
  PhysicalPlan, scan_exec, filter_exec, project_exec, hash_aggregate_exec, exchange_exec,
  shuffle_write_exec, shuffle_read_exec, hash_join_exec, sort_exec,
}
use minispark.Physical.Planner.{translate}
use minispark.Physical.Planner.Shape.{translate-IsTranslation}
use minispark.Execution.Stages.{
  Stage, Split, with_child, rebuild, close_stage, join_sides, split, build_stages,
}
use minispark.Execution.Stages.Order.{IsPlanned}
use minispark.Execution.Stages.Building.{build_stages-IsNumbered}
use minispark.Execution.Tasks.{Task, TaskResult}
use minispark.Execution.Scheduler.{is_shuffle_write, run_plan}
use minispark.Execution.Scheduler.Running.{LastFailure, run_plan-IsResultOf}

abbrev NoWrite : Split → Type 0
NoWrite r = is_shuffle_write r.fragment ≡ false

-- No computation that gives a value of a type that needs nothing owes anything.
anything : (m : Result Split) → OnOk (λ r. Unit) m
anything (ok r) = tt
anything (raise e) = tt

with_child-NoWrite : (p c : PhysicalPlan) → OnOk (λ q. is_shuffle_write q ≡ false) (with_child p c)
unfolding with_child is_shuffle_write
with_child-NoWrite (scan_exec d n) c = tt
with_child-NoWrite (filter_exec x e) c = refl
with_child-NoWrite (project_exec x es s) c = refl
with_child-NoWrite (hash_aggregate_exec x gs as' s part t) c = refl
with_child-NoWrite (exchange_exec x n es b rs) c = tt
with_child-NoWrite (shuffle_write_exec x n es rs) c = tt
with_child-NoWrite (shuffle_read_exec i s b) c = tt
with_child-NoWrite (hash_join_exec l r lk rk on s) c = tt
with_child-NoWrite (sort_exec x es asc s t) c = refl

rebuild-NoWrite :
    (p : PhysicalPlan) (r : Split) → is_shuffle_write p ≡ false → OnOk NoWrite (rebuild p r)
unfolding rebuild
rebuild-NoWrite p r h = go r.is_original
  where
    go :
        (same : Bool)
        → OnOk NoWrite (
            if same
            then ok (record {
              fragment = p;
              partitions = r.partitions;
              is_original = true;
              stages = r.stages;
            })
            else (with_child p r.fragment >>= λ fragment. ok (record {
              fragment = fragment;
              partitions = r.partitions;
              is_original = false;
              stages = r.stages;
            })))
    go true = h
    go false =
        OnOk-bind (λ q. is_shuffle_write q ≡ false) NoWrite (with_child p r.fragment) _
          (with_child-NoWrite p r.fragment) (λ q k. k)

split-NoWrite : (p : PhysicalPlan) (ss : List Stage) → IsPlanned p → OnOk NoWrite (split p ss)
unfolding split is_shuffle_write close_stage join_sides
split-NoWrite (scan_exec d n) ss h = refl
split-NoWrite (exchange_exec c n es b rs) ss h =
    OnOk-bind (λ r. Unit) NoWrite (split c ss) _ (anything _) (λ r k. refl)
split-NoWrite (hash_join_exec l r lk rk on s) ss h =
    OnOk-bind (λ r. Unit) NoWrite (split l ss) _ (anything _)
      (λ a k.
        OnOk-bind (λ r. Unit) NoWrite (split r a.stages) _ (anything _)
          (λ b k'. both (a.is_original && b.is_original) a b))
  where
    both :
        (same : Bool) (a b : Split)
        → NoWrite (
            if same
            then record {
              fragment = hash_join_exec l r lk rk on s;
              partitions = a.partitions;
              is_original = true;
              stages = b.stages;
            }
            else record {
              fragment = hash_join_exec a.fragment b.fragment lk rk on s;
              partitions = a.partitions;
              is_original = false;
              stages = b.stages;
            })
    both true a b = refl
    both false a b = refl
split-NoWrite (filter_exec c e) ss h =
    OnOk-bind (λ r. Unit) NoWrite (split c ss) _ (anything _)
      (λ r k. rebuild-NoWrite (filter_exec c e) r refl)
split-NoWrite (project_exec c es s) ss h =
    OnOk-bind (λ r. Unit) NoWrite (split c ss) _ (anything _)
      (λ r k. rebuild-NoWrite (project_exec c es s) r refl)
split-NoWrite (hash_aggregate_exec c gs as' s part t) ss h =
    OnOk-bind (λ r. Unit) NoWrite (split c ss) _ (anything _)
      (λ r k. rebuild-NoWrite (hash_aggregate_exec c gs as' s part t) r refl)
split-NoWrite (sort_exec c es asc s t) ss h =
    OnOk-bind (λ r. Unit) NoWrite (split c ss) _ (anything _)
      (λ r k. rebuild-NoWrite (sort_exec c es asc s t) r refl)
split-NoWrite (shuffle_write_exec c n es rs) ss h = absurd h
split-NoWrite (shuffle_read_exec i s b) ss h = absurd h

-- The last stage of a list writes no shuffle.
abbrev EndsInRead : List Stage → Type 0
EndsInRead [] = Unit
EndsInRead (s ∷ []) = is_shuffle_write s.plan ≡ false
EndsInRead (s ∷ t ∷ ss) = EndsInRead (t ∷ ss)

EndsInRead-append :
    (xs : List Stage) (s : Stage) → is_shuffle_write s.plan ≡ false → EndsInRead (xs ++ (s ∷ []))
EndsInRead-append [] s h = h
EndsInRead-append (x ∷ []) s h = h
EndsInRead-append (x ∷ y ∷ xs) s h = EndsInRead-append (y ∷ xs) s h

EndsInRead-last :
    (xs : List Stage) (s : Stage) → EndsInRead (xs ++ (s ∷ [])) → is_shuffle_write s.plan ≡ false
EndsInRead-last [] s h = h
EndsInRead-last (x ∷ []) s h = h
EndsInRead-last (x ∷ y ∷ xs) s h = EndsInRead-last (y ∷ xs) s h

build_stages-EndsInRead : (p : PhysicalPlan) → IsPlanned p → OnOk EndsInRead (build_stages p)
unfolding build_stages
build_stages-EndsInRead p h =
    OnOk-bind NoWrite EndsInRead (split p []) _ (split-NoWrite p [] h)
      (λ r k. EndsInRead-append r.stages _ k)

module _ ⦃py : Host⦄ ⦃memory : SizeHost⦄ {World : Type 0}
    (run_task : Task → ℕ → World → World × TaskResult) (max_retries : ℕ) where
  -- A logical plan that is translated without an exception is cut into stages without one, and a run of
  -- these stages gives a dataset that has the schema of the logical plan, or a TaskExecutionError
  -- because some task failed at its last attempt.
  pub run_plan-schema :
      (n t : ℕ) (p : LogicalPlan) (cleanup : String → World → World) (root : String) (w : World)
      {q : PhysicalPlan}
      → translate n t p ≡ ok q
      → (stages : List Stage) × (build_stages q ≡ ok stages)
        × (((d : Dataset) × ((run_plan run_task max_retries cleanup root stages w).2 ≡ ok d)
              × (schema p ≡ ok d.schema))
            ⊎ (((run_plan run_task max_retries cleanup root stages w).2 ≡ raise task_execution)
                × LastFailure run_task max_retries))
  run_plan-schema n t p cleanup root w {q} h =
      let (planned, typed) = translate-IsTranslation n t p h in
      let (upstream, last, built, _, _, schemas) = build_stages-IsNumbered q planned in
      let reads =
        EndsInRead-last upstream last
          (OnOk-value EndsInRead (build_stages-EndsInRead q planned) built) in
      (
        upstream ++ (last ∷ []),
        built,
        elim (run_plan-IsResultOf run_task max_retries cleanup root upstream last w reads) [
          | inl (d, e, (same, _)) ↦ inl (d, e, typed ∙ ap ok (sym schemas ∙ sym same))
          | inr failure ↦ inr failure
        ],
      )

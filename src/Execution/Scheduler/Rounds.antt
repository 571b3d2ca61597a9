-- ===== src/Execution/Scheduler/Rounds.antt =====
-- The loop over the pending tasks comes to an end within its rounds, with a result for each task.
use minispark.Common.{
  ℕ, zero, suc, ◌≤◌, arith, some, List, [], ◌∷◌, map, All, All-map, ◌≡◌, refl, sym, subst, ◌⊎◌, inl,
  inr,
}
use minispark.Common.Dicts.{find_item}
use minispark.Execution.Stages.{Stage}
use minispark.Execution.Tasks.{Task, TaskResult}
use minispark.Execution.Scheduler.{SchedulerState, Step, Progress, run_batch, run_pending}
use minispark.Execution.Scheduler.Outcomes.{
  Setting, IsRooted, Keeps, left, Goes, Ran, Goes-refl, and_then-Ran, Ran-after,
}
use minispark.Execution.Scheduler.Handling.{
  Waits, Placed, Due, Final, Sound, run_batch-Keeps, run_batch-Attempted, run_batch-items,
}
use minispark.Execution.Scheduler.Recovering.{handle_results-Ran}

-- The result of a task is there.
abbrev pub IsDone : List (ℕ × TaskResult) → ℕ → Type 0
IsDone done i = (r : TaskResult) × (find_item i done ≡ some r)

abbrev pub IsDue : List (ℕ × TaskResult) → List (Task × ℕ) → ℕ → Type 0
IsDue done batch i = IsDone done i ⊎ Waits i batch

module _ {World : Type 0} (m : Setting World) where
  abbrev pub Finished : List ℕ → Progress → Type 0
  Finished ids progress = All (IsDone progress.done) ids × All (λ d. Final m d.1) progress.done

  Due-items :
      (rounds n : ℕ) (batch : List (Task × ℕ)) (results : List ((Task × ℕ) × TaskResult))
      → map (λ x. x.0) results ≡ batch
      → All (Due m rounds n) batch
      → All (λ x. Due m rounds n x.0) results
  Due-items rounds n batch [] e due = tt
  Due-items rounds n [] (r ∷ results) e due = absurd (ground arith)
  Due-items rounds n (x ∷ batch) (r ∷ results) e due =
      let head : r.0 ≡ x = cc in
      let tail : map (λ x. x.0) results ≡ batch = cc in
      (subst (Due m rounds n) (sym head) due.0, Due-items rounds n batch results tail due.1)

  module _ (keeps : Keeps m) (rerun : Stage → Step World (List TaskResult)) (limit : ℕ)
      (rerun-Ran : (s : Stage) (st : SchedulerState World)
        → suc (left m st) ≤ limit
        → Ran m 1 (λ rs st'. Unit) st (rerun s st)) where
    pub run_pending-Ran :
        (rounds : ℕ) (ids : List ℕ) (batch : List (Task × ℕ)) (progress : Progress)
        (st : SchedulerState World)
        → left m st ≤ limit
        → progress.pending ≡ []
        → All (Due m rounds (left m st)) batch
        → All (IsDue progress.done batch) ids
        → All (λ d. Final m d.1) progress.done
        → Ran m 0
            (λ progress' st'. Finished ids progress')
            st
            (run_pending m.run_task m.max_retries rerun m.stages rounds batch progress st)
    unfolding run_pending
    run_pending-Ran rounds ids [] progress st bound none_left due placed finals = record {
      goes = Goes-refl m st;
      ends = (
        All-map {P = IsDue progress.done []} {Q = IsDone progress.done}
            (λ i h. elim h [ inl d ↦ d | inr w ↦ absurd w ]) ids placed,
        finals,
      );
    }
    run_pending-Ran zero ids (x ∷ batch) progress st bound none_left due placed finals =
        let (d, _) = due in let (d₀, d₁, d₂) = d in absurd (omega arith)
    run_pending-Ran (suc rounds) ids (x ∷ batch) progress st bound none_left due placed finals =
        and_then-Ran m 0 0 (λ progress' st'. Sound m rounds ids [] progress' st')
          (λ progress' st'. Finished ids progress') st _ _
          (Ran-after m 0 0 (λ progress' st'. Sound m rounds ids [] progress' st') moved
            (handle_results-Ran m rerun limit rerun-Ran rounds ids results progress moved_state
              bound (run_batch-Attempted m (x ∷ batch) st.world)
              (Due-items (suc rounds) (left m st) (x ∷ batch) results items due) sound))
          (λ progress' st' goes s.
            let fewer = goes.fewer in
            run_pending-Ran rounds ids progress'.pending (record progress' { pending = [] }) st'
              (omega arith) refl s.due
              (All-map {P = Placed [] progress'} {Q = IsDue progress'.done progress'.pending}
                (still progress') ids s.placed)
              s.finals)
      where
        results : List ((Task × ℕ) × TaskResult)
        results = (run_batch m.run_task m.max_retries (x ∷ batch) st.world).1

        moved_state : SchedulerState World
        moved_state = record st {
          world = (run_batch m.run_task m.max_retries (x ∷ batch) st.world).0;
        }

        items : map (λ y. y.0) results ≡ x ∷ batch
        items = run_batch-items m (x ∷ batch) st.world

        moved : Goes m 0 st moved_state
        moved = record {
          fewer = omega arith;
          balance = omega arith;
          kept = run_batch-Keeps m (x ∷ batch) st.world keeps (
              All-map {P = Due m (suc rounds) (left m st)}
                {Q = λ y. (y.1 ≤ m.max_retries) × IsRooted m y.0} (λ y d. (d.0, d.2)) (x ∷ batch)
                due);
        }

        in_batch :
            (i : ℕ) → IsDue progress.done (x ∷ batch) i → Placed (map (λ y. y.0) results) progress i
        in_batch i (inl d) = inl d
        in_batch i (inr w) = inr (inr (subst (Waits i) (sym items) w))

        sound : Sound m rounds ids (map (λ y. y.0) results) progress moved_state
        sound = record {
          due = subst (All (Due m rounds (left m st))) (sym none_left) tt;
          finals = finals;
          placed =
              All-map {P = IsDue progress.done (x ∷ batch)}
                {Q = Placed (map (λ y. y.0) results) progress} in_batch ids placed;
        }

        still :
            (progress' : Progress) (i : ℕ)
            → Placed [] progress' i
            → IsDue progress'.done progress'.pending i
        still progress' i (inl d) = inl d
        still progress' i (inr (inl w)) = inr w
        still progress' i (inr (inr w)) = absurd w

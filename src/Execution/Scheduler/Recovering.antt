-- ===== src/Execution/Scheduler/Recovering.antt =====
-- Recovery from missing shuffle data, and the results of one batch as a whole.
use minispark.Common.{
  ℕ, suc, ◌≤◌, arith, Bool, true, false, Option, none, some, List, [], ◌∷◌, map, All, All-map, ◌≡◌,
  refl, Result, ok, raise,
}
use minispark.Common.Dicts.{mem_id}
use minispark.Execution.Stages.{Stage}
use minispark.Execution.Tasks.{Task, TaskResult, is_failed}
use minispark.Execution.Scheduler.{
  SchedulerState, Step, Progress, and_then, recover_stage, try_recover, handle_results, find_stage,
  resolve_shuffle_blocks,
}
use minispark.Execution.Scheduler.Remaining.{remaining-recover}
use minispark.Execution.Scheduler.Outcomes.{Setting, left, Ran, Goes-refl, and_then-Ran}
use minispark.Execution.Scheduler.Handling.{Due, Attempted, Sound, Recovered, place_task-Sound}

module _ {World : Type 0} (m : Setting World) where
  module _ (rerun : Stage → Step World (List TaskResult)) (limit : ℕ)
      (rerun-Ran : (s : Stage) (st : SchedulerState World)
        → suc (left m st) ≤ limit
        → Ran m 1 (λ rs st'. Unit) st (rerun s st)) where
    recover_stage-Ran :
        (t : Task) (missing : ℕ) (st : SchedulerState World) (seen : Bool)
        → mem_id missing st.recomputed_stages ≡ seen
        → (found : Option Stage) → find_stage missing m.stages ≡ found
        → left m st ≤ limit
        → Ran m 0
            (λ o st'. Recovered t (left m st) o (left m st'))
            st
            (recover_stage m.run_task m.max_retries rerun m.stages t missing seen found st)
    unfolding recover_stage
    recover_stage-Ran t missing st true e found f bound = record {
      goes = Goes-refl m st;
      ends = tt;
    }
    recover_stage-Ran t missing st false e none f bound = record {
      goes = Goes-refl m st;
      ends = tt;
    }
    recover_stage-Ran t missing st false e (some s) f bound =
        go (rerun s again) (rerun-Ran s again (omega (arith, one)))
      where
        again : SchedulerState World
        again = record st { recomputed_stages = missing ∷ st.recomputed_stages }

        one : suc (left m again) ≤ left m st
        one = remaining-recover m.stages missing st.recomputed_stages e f

        go :
            (out : SchedulerState World × Result (List TaskResult))
            → Ran m 1 (λ rs st'. Unit) again out
            → Ran m 0
                (λ o st'. Recovered t (left m st) o (left m st'))
                st
                (and_then out (λ rs st'. (
                  st',
                  ok (
                      some (record t {
                        shuffle_blocks = resolve_shuffle_blocks t.plan t.partition_id st'.registry;
                      })),
                )))
        go (st', ok rs) ran =
            let g = ran.goes in
            let f = g.fewer in
            let b = g.balance in
            record {
              goes = record {
                fewer = omega (arith, one);
                balance = omega (arith, one);
                kept = g.kept;
              };
              ends = (refl, omega (arith, one), refl);
            }
        go (st', raise x) ran =
            let g = ran.goes in
            let f = g.fewer in
            let b = g.balance in
            record {
              goes = record {
                fewer = omega (arith, one);
                balance = omega (arith, one);
                kept = g.kept;
              };
              ends = ran.ends;
            }

    pub try_recover-Ran :
        (t : Task) (bad : Bool) (missing : Option ℕ) (st : SchedulerState World)
        → left m st ≤ limit
        → Ran m 0
            (λ o st'. Recovered t (left m st) o (left m st'))
            st
            (try_recover m.run_task m.max_retries rerun m.stages t bad missing st)
    unfolding try_recover
    try_recover-Ran t true (some missing) st bound =
        recover_stage-Ran t missing st _ refl _ refl bound
    try_recover-Ran t true none st bound = record { goes = Goes-refl m st; ends = tt }
    try_recover-Ran t false missing st bound = record { goes = Goes-refl m st; ends = tt }

    -- Every result of the batch is placed; a round is over.
    pub handle_results-Ran :
        (rounds : ℕ) (ids : List ℕ) (results : List ((Task × ℕ) × TaskResult)) (progress : Progress)
        (st : SchedulerState World)
        → left m st ≤ limit
        → All (Attempted m) results
        → All (λ x. Due m (suc rounds) (left m st) x.0) results
        → Sound m rounds ids (map (λ x. x.0) results) progress st
        → Ran m 0
            (λ progress' st'. Sound m rounds ids [] progress' st')
            st
            (handle_results m.run_task m.max_retries rerun m.stages results progress st)
    unfolding handle_results
    handle_results-Ran rounds ids [] progress st bound tried due sound = record {
      goes = Goes-refl m st;
      ends = sound;
    }
    handle_results-Ran rounds ids (((t, a), r) ∷ rest) progress st bound tried due sound =
        and_then-Ran m 0 0 (λ o st'. Recovered t (left m st) o (left m st'))
          (λ progress' st'. Sound m rounds ids [] progress' st') st _ _
          (try_recover-Ran t (is_failed r) r.missing_shuffle_stage_id st bound)
          (λ o st' goes back.
            let fewer = goes.fewer in
            handle_results-Ran rounds ids rest _ st' (omega arith) tried.1
              (All-map {P = λ x. Due m (suc rounds) (left m st) x.0}
                {Q = λ x. Due m (suc rounds) (left m st') x.0}
                (λ x d. let (d₀, d₁, d₂) = d in (d₀, omega arith, d₂)) rest due.1)
              (place_task-Sound m rounds ids t a r (map (λ x. x.0) rest) progress st st' o fewer
                due.0 tried.0 back sound))

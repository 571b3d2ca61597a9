-- ===== src/Execution/Scheduler/Outcomes.antt =====
-- What every step of the scheduler leaves behind, whether or not it raises.
use minispark.Common.{
  ℕ, ◌+◌, ◌≤◌, arith, true, ◌≡◌, subst, Result, ok, raise, task_execution, List, String, some,
}
use minispark.Execution.Stages.{Stage}
use minispark.Execution.Tasks.{Task, TaskResult, is_failed}
use minispark.Execution.Scheduler.{SchedulerState, Step, and_then}
use minispark.Execution.Scheduler.Remaining.{remaining, recomputations}

-- A scheduler, the shuffle directory and the stages of a query, and what is to be kept of the world.
pub record Setting (World : Type 0) : Type 1 where
  pub run_task : Task → ℕ → World → World × TaskResult
  pub max_retries : ℕ
  pub root : String
  pub stages : List Stage
  pub Kept : World → Type 0

module _ {World : Type 0} (m : Setting World) where
  abbrev pub IsRooted : Task → Type 0
  IsRooted t = t.shuffle_root_dir ≡ some m.root

  -- A task that fails at its last attempt.
  abbrev pub GivesUp : Type 0
  GivesUp = (t : Task) × (w : World) × (is_failed (m.run_task t m.max_retries w).1 ≡ true)

  -- No attempt that is allowed, at a task of the query's directory, loses what is to be kept of the world.
  abbrev pub Keeps : Type 0
  Keeps =
      (t : Task) (a : ℕ) (w : World)
      → IsRooted t
      → a ≤ m.max_retries
      → m.Kept w
      → m.Kept (m.run_task t a w).0

  -- A value of which `Q` holds, or a TaskExecutionError because a task gave up.
  abbrev pub EndsWith : {A : Type 0} → (A → Type 0) → Result A → Type 0
  EndsWith Q (ok a) = Q a
  EndsWith Q (raise e) = (e ≡ task_execution) × GivesUp

  abbrev pub left : SchedulerState World → ℕ
  left st = remaining m.stages st.recomputed_stages

  abbrev pub spent : SchedulerState World → ℕ
  spent st = recomputations st.stage_metrics

  -- From the first state to the second: no more stages are left to recompute, each one that is gone
  -- accounts for a recomputation, but for `extra` of them, and the world keeps what it has to.
  pub record Goes (extra : ℕ) (st st' : SchedulerState World) : Type 0 where
    pub fewer : left st' ≤ left st
    pub balance : spent st' + left st' ≤ spent st + left st + extra
    pub kept : m.Kept st.world → m.Kept st'.world

  pub record Ran (extra : ℕ) {A : Type 0} (Q : A → SchedulerState World → Type 0)
      (st : SchedulerState World) (out : SchedulerState World × Result A) : Type 0 where
    pub goes : Goes extra st out.0
    pub ends : EndsWith (λ a. Q a out.0) out.1

  pub Goes-refl : (st : SchedulerState World) → Goes 0 st st
  Goes-refl st = record { fewer = omega arith; balance = omega arith; kept = λ h. h }

  pub Goes-trans :
      (i j : ℕ) {a b c : SchedulerState World} → Goes i a b → Goes j b c → Goes (i + j) a c
  Goes-trans i j g h =
      let f₁ = g.fewer in
      let f₂ = h.fewer in
      let b₁ = g.balance in
      let b₂ = h.balance in
      record { fewer = omega arith; balance = omega arith; kept = λ k. h.kept (g.kept k) }

  pub and_then-Ran :
      {A B : Type 0} (i j : ℕ) (Q : A → SchedulerState World → Type 0)
      (R : B → SchedulerState World → Type 0) (st : SchedulerState World)
      (out : SchedulerState World × Result A) (next : A → Step World B)
      → Ran i Q st out
      → ((a : A) (st' : SchedulerState World) → Goes i st st' → Q a st' → Ran j R st' (next a st'))
      → Ran (i + j) R st (and_then out next)
  and_then-Ran i j Q R st (st', ok a) next ran step =
      let after = step a st' ran.goes ran.ends in
      record { goes = Goes-trans i j ran.goes after.goes; ends = after.ends }
  and_then-Ran i j Q R st (st', raise e) next ran step =
      let g = ran.goes in
      let b = g.balance in
      record {
        goes = record { fewer = g.fewer; balance = omega arith; kept = g.kept };
        ends = ran.ends;
      }

  pub Ran-after :
      {A : Type 0} (i j : ℕ) (Q : A → SchedulerState World → Type 0) {st st' : SchedulerState World}
      {out : SchedulerState World × Result A}
      → Goes i st st'
      → Ran j Q st' out
      → Ran (i + j) Q st out
  Ran-after i j Q g ran = record { goes = Goes-trans i j g ran.goes; ends = ran.ends }

  pub Ran-weaken :
      {A : Type 0} (i : ℕ) (Q R : A → SchedulerState World → Type 0) (st : SchedulerState World)
      (out : SchedulerState World × Result A)
      → ((a : A) → Q a out.0 → R a out.0)
      → Ran i Q st out
      → Ran i R st out
  Ran-weaken i Q R st (st', ok a) f ran = record { goes = ran.goes; ends = f a ran.ends }
  Ran-weaken i Q R st (st', raise e) f ran = record { goes = ran.goes; ends = ran.ends }

  pub Ran-cost :
      {A : Type 0} (i j : ℕ) (Q : A → SchedulerState World → Type 0) (st : SchedulerState World)
      (out : SchedulerState World × Result A)
      → i ≡ j
      → Ran i Q st out
      → Ran j Q st out
  Ran-cost i j Q st out e = subst (λ n. Ran n Q st out) e

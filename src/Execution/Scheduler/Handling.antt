-- ===== src/Execution/Scheduler/Handling.antt =====
-- What the loop of `_run_to_completion` does with the results of one batch.
use minispark.Common.{
  ℕ, suc, ◌+◌, ◌≤◌, ◌<◌, ltb→lt, arith, Bool, true, false, ◌&&◌, Option, none, some, List, [], ◌∷◌,
  ◌++◌, map, All, All-map, All-append, ltb, ◌≡◌, refl, ap, sym, ◌∙◌, subst, ◌⊎◌, inl, inr,
  if◌then◌else◌,
}
use minispark.Common.Dicts.{
  add_id, set_item, find_item, find_item-set_item, find_item-set_item_other, set_item-All,
}
use minispark.Execution.Tasks.{Task, TaskResult, is_failed}
use minispark.Execution.Scheduler.{SchedulerState, Progress, run_batch, retry_or_finish, place_task}
use minispark.Execution.Scheduler.Outcomes.{Setting, GivesUp, IsRooted, Keeps, left}

-- A task of this id waits in the list.
abbrev pub Waits : ℕ → List (Task × ℕ) → Type 0
Waits i [] = ⊥
Waits i ((t, a) ∷ rest) = (t.task_id ≡ i) ⊎ Waits i rest

Waits-left : (i : ℕ) (xs ys : List (Task × ℕ)) → Waits i xs → Waits i (xs ++ ys)
Waits-left i [] ys h = absurd h
Waits-left i ((t, a) ∷ xs) ys (inl e) = inl e
Waits-left i ((t, a) ∷ xs) ys (inr h) = inr (Waits-left i xs ys h)

Waits-right : (i : ℕ) (xs ys : List (Task × ℕ)) → Waits i ys → Waits i (xs ++ ys)
Waits-right i [] ys h = h
Waits-right i (x ∷ xs) ys h = inr (Waits-right i xs ys h)

-- A task's result is there, or it is pending, or it is among the rest of the batch.
abbrev pub Placed : List (Task × ℕ) → Progress → ℕ → Type 0
Placed rest progress i =
    ((r : TaskResult) × (find_item i progress.done ≡ some r))
    ⊎ (Waits i progress.pending ⊎ Waits i rest)

-- What recovery gives back: the same task, and one stage less to recompute.
abbrev pub Recovered : Task → ℕ → Option Task → ℕ → Type 0
Recovered t before none after = Unit
Recovered t before (some t') after =
    (t'.task_id ≡ t.task_id) × (suc after ≤ before) × (t'.shuffle_root_dir ≡ t.shuffle_root_dir)

module _ {World : Type 0} (m : Setting World) where
  -- The rounds that a pending task may still need, and the directory it has.
  abbrev pub Due : ℕ → ℕ → Task × ℕ → Type 0
  Due rounds stages_left x =
      (x.1 ≤ m.max_retries) × (m.max_retries + 1 + stages_left ≤ rounds + x.1) × IsRooted m x.0

  -- A failure that is kept is one of a last attempt.
  abbrev pub Final : TaskResult → Type 0
  Final r = is_failed r ≡ true → GivesUp m

  abbrev pub Attempted : (Task × ℕ) × TaskResult → Type 0
  Attempted ((t, a), r) = (w : World) × (r ≡ (m.run_task t a w).1)

  pub record Sound (rounds : ℕ) (ids : List ℕ) (rest : List (Task × ℕ)) (progress : Progress)
      (st : SchedulerState World) : Type 0 where
    pub due : All (Due rounds (left m st)) progress.pending
    pub finals : All (λ d. Final d.1) progress.done
    pub placed : All (Placed rest progress) ids

  Due-less :
      (rounds i j : ℕ) (xs : List (Task × ℕ))
      → j ≤ i
      → All (Due rounds i) xs
      → All (Due rounds j) xs
  Due-less rounds i j xs h due =
      All-map {P = Due rounds i} {Q = Due rounds j}
        (λ x d. let (d₀, d₁, d₂) = d in (d₀, omega arith, d₂)) xs due

  pub run_batch-Keeps :
      (batch : List (Task × ℕ)) (w : World)
      → Keeps m
      → All (λ x. (x.1 ≤ m.max_retries) × IsRooted m x.0) batch
      → m.Kept w
      → m.Kept (run_batch m.run_task m.max_retries batch w).0
  unfolding run_batch
  run_batch-Keeps [] w keeps h k = k
  run_batch-Keeps ((t, a) ∷ batch) w keeps h k =
      run_batch-Keeps batch _ keeps h.1 (keeps t a w h.0.1 h.0.0 k)

  pub run_batch-Attempted :
      (batch : List (Task × ℕ)) (w : World)
      → All Attempted (run_batch m.run_task m.max_retries batch w).1
  unfolding run_batch
  run_batch-Attempted [] w = tt
  run_batch-Attempted ((t, a) ∷ batch) w = ((w, refl), run_batch-Attempted batch _)

  pub run_batch-items :
      (batch : List (Task × ℕ)) (w : World)
      → map (λ x. x.0) (run_batch m.run_task m.max_retries batch w).1 ≡ batch
  unfolding run_batch
  run_batch-items [] w = refl
  run_batch-items ((t, a) ∷ batch) w = ap (λ xs. (t, a) ∷ xs) (run_batch-items batch _)

  Placed-requeue :
      (t t' : Task) (a a' : ℕ) (rest : List (Task × ℕ)) (progress : Progress) (i : ℕ)
      → t'.task_id ≡ t.task_id
      → Placed ((t, a) ∷ rest) progress i
      → Placed rest (record progress { pending = progress.pending ++ ((t', a') ∷ []) }) i
  Placed-requeue t t' a a' rest progress i same (inl found) = inl found
  Placed-requeue t t' a a' rest progress i same (inr (inl waits)) =
      inr (inl (Waits-left i progress.pending _ waits))
  Placed-requeue t t' a a' rest progress i same (inr (inr (inl e))) =
      inr (inl (Waits-right i progress.pending _ (inl (same ∙ e))))
  Placed-requeue t t' a a' rest progress i same (inr (inr (inr waits))) = inr (inr waits)

  Placed-finish :
      (t : Task) (a : ℕ) (r : TaskResult) (rest : List (Task × ℕ)) (progress : Progress) (i : ℕ)
      → Placed ((t, a) ∷ rest) progress i
      → Placed rest (record progress { done = set_item t.task_id r progress.done }) i
  Placed-finish t a r rest progress i (inl (s, found)) =
      inl (find_item-set_item_other t.task_id i r progress.done found)
  Placed-finish t a r rest progress i (inr (inl waits)) = inr (inl waits)
  Placed-finish t a r rest progress i (inr (inr (inl e))) = inl (
    r,
    subst (λ k. find_item k (set_item t.task_id r progress.done) ≡ some r) e
        (find_item-set_item t.task_id r progress.done),
  )
  Placed-finish t a r rest progress i (inr (inr (inr waits))) = inr (inr waits)

  Sound-requeue :
      (rounds : ℕ) (ids : List ℕ) (t t' : Task) (a a' : ℕ) (rest : List (Task × ℕ))
      (progress : Progress) (st st' : SchedulerState World)
      → left m st' ≤ left m st
      → t'.task_id ≡ t.task_id
      → Due rounds (left m st') (t', a')
      → Sound rounds ids ((t, a) ∷ rest) progress st
      → Sound rounds ids rest
          (record progress { pending = progress.pending ++ ((t', a') ∷ []) })
          st'
  Sound-requeue rounds ids t t' a a' rest progress st st' fewer same due sound = record {
    due =
        All-append (Due rounds (left m st')) progress.pending ((t', a') ∷ [])
          (Due-less rounds (left m st) (left m st') progress.pending fewer sound.due) (due, tt);
    finals = sound.finals;
    placed = All-map (λ i. Placed-requeue t t' a a' rest progress i same) ids sound.placed;
  }

  retry_or_finish-Sound :
      (rounds : ℕ) (ids : List ℕ) (t : Task) (a : ℕ) (r : TaskResult) (rest : List (Task × ℕ))
      (progress : Progress) (st st' : SchedulerState World)
      → left m st' ≤ left m st
      → Due (suc rounds) (left m st) (t, a)
      → Attempted ((t, a), r)
      → Sound rounds ids ((t, a) ∷ rest) progress st
      → Sound rounds ids rest (retry_or_finish m.max_retries t a r progress) st'
  unfolding retry_or_finish
  retry_or_finish-Sound rounds ids t a r rest progress st st' fewer due (w, tried) sound =
      go (is_failed r) refl (ltb a m.max_retries) refl
    where
      finish :
          Final r
          → Sound rounds ids rest
              (record progress { done = set_item t.task_id r progress.done })
              st'
      finish final = record {
        due = Due-less rounds (left m st) (left m st') progress.pending fewer sound.due;
        finals = set_item-All Final t.task_id r progress.done final sound.finals;
        placed = All-map (λ i. Placed-finish t a r rest progress i) ids sound.placed;
      }

      go :
          (bad : Bool)
          → is_failed r ≡ bad
          → (again : Bool) → ltb a m.max_retries ≡ again
          → Sound rounds ids rest
              (if bad && again
                then record progress {
                  retried_task_ids = add_id t.task_id progress.retried_task_ids;
                  pending = progress.pending ++ ((t, a + 1) ∷ []);
                }
                else record progress { done = set_item t.task_id r progress.done })
              st'
      go true e true h =
          let (due₀, due₁, due₂) = due in
          let below : a < m.max_retries = ltb→lt a m.max_retries h in
          let s =
            Sound-requeue rounds ids t t a (a + 1) rest progress st st' fewer refl
              (omega arith, omega arith, due₂) sound in
          record { due = s.due; finals = s.finals; placed = s.placed }
      go true e false h = finish (λ _. (t, w, last))
        where
          last : is_failed (m.run_task t m.max_retries w).1 ≡ true
          last =
              let full : a ≡ m.max_retries = ground arith in
              subst (λ k. is_failed (m.run_task t k w).1 ≡ true) full (ap is_failed (sym tried) ∙ e)
      go false e again h = finish (λ bad. absurd (ground arith))

  pub place_task-Sound :
      (rounds : ℕ) (ids : List ℕ) (t : Task) (a : ℕ) (r : TaskResult) (rest : List (Task × ℕ))
      (progress : Progress) (st st' : SchedulerState World) (recovered : Option Task)
      → left m st' ≤ left m st
      → Due (suc rounds) (left m st) (t, a)
      → Attempted ((t, a), r)
      → Recovered t (left m st) recovered (left m st')
      → Sound rounds ids ((t, a) ∷ rest) progress st
      → Sound rounds ids rest (place_task m.max_retries t a r progress recovered) st'
  unfolding place_task
  place_task-Sound rounds ids t a r rest progress st st' none fewer due tried back sound =
      retry_or_finish-Sound rounds ids t a r rest progress st st' fewer due tried sound
  place_task-Sound rounds ids t a r rest progress st st' (some t') fewer due tried back sound =
      let (due₀, due₁, due₂) = due in
      let (same, less, rooted) = back in
      Sound-requeue rounds ids t t' a a rest progress st st' fewer same
        (due₀, omega arith, rooted ∙ due₂) sound

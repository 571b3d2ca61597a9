-- ===== src/Execution/Stages/Building.antt =====
-- What `build_stages` gives for a plan of the physical planner.
use minispark.Common.{
  ℕ, suc, arith, false, List, [], ◌∷◌, ◌++◌, All, length, ◌≡◌, refl, ap, ◌∙◌, subst, Result, ok,
  ◌>>=◌, ok-injective, sym, append_nil,
}
use minispark.Physical.Plan.{
  PhysicalPlan, scan_exec, filter_exec, project_exec, hash_aggregate_exec, exchange_exec,
  shuffle_write_exec, shuffle_read_exec, hash_join_exec, sort_exec, schema_of,
}
use minispark.Execution.Dag.{has_wide_dependency, build_dag}
use minispark.Execution.Stages.{Stage, Split, with_child, join_sides, split, build_stages}
use minispark.Execution.Stages.Order.{
  IsPlanned, exchanges, ReadsBelow, IsNumbered, IsNumbered-append,
}
use minispark.Execution.Stages.Splitting.{
  IsSplit, Splits, Splits-bind, rebuild-Splits, close_stage-Splits, join_sides-Splits,
}

split-Splits : (p : PhysicalPlan) (ss : List Stage) → IsPlanned p → Splits p ss (split p ss)
unfolding split with_child schema_of
split-Splits (scan_exec d n) ss h = (
  _,
  refl,
  record {
    closed = [];
    appended = sym (append_nil ss);
    counted = refl;
    numbered = tt;
    reads = tt;
    schemas = refl;
    original = λ e. refl;
  },
)
split-Splits (filter_exec c e) ss h =
    Splits-bind c (filter_exec c e) ss _ _ (split-Splits c ss h)
      (rebuild-Splits (λ x. filter_exec x e) c ss (λ x. refl) (λ n x k. k) (λ x k. k) refl)
split-Splits (project_exec c es s) ss h =
    Splits-bind c (project_exec c es s) ss _ _ (split-Splits c ss h)
      (rebuild-Splits (λ x. project_exec x es s) c ss (λ x. refl) (λ n x k. k) (λ x k. refl) refl)
split-Splits (hash_aggregate_exec c gs as' s part t) ss h =
    Splits-bind c (hash_aggregate_exec c gs as' s part t) ss _ _ (split-Splits c ss h) (
      rebuild-Splits (λ x. hash_aggregate_exec x gs as' s part t) c ss (λ x. refl) (λ n x k. k)
        (λ x k. refl) refl)
split-Splits (exchange_exec c n es b rs) ss h =
    Splits-bind c (exchange_exec c n es b rs) ss _ _ (split-Splits c ss h)
      (close_stage-Splits c n es b rs ss)
split-Splits (shuffle_write_exec c n es rs) ss h = absurd h
split-Splits (shuffle_read_exec i s b) ss h = absurd h
split-Splits (hash_join_exec l r lk rk on s) ss h =
    Splits-bind l (hash_join_exec l r lk rk on s) ss _ _ (split-Splits l ss h.0)
      (λ a i. join_right a i (split-Splits r a.stages h.1))
  where
    join_right :
        (a : Split)
        → IsSplit l ss a
        → Splits r a.stages (split r a.stages)
        → Splits
            (hash_join_exec l r lk rk on s)
            ss
            (split r a.stages >>= join_sides (hash_join_exec l r lk rk on s) a)
    join_right a i (b, e, j) = rw e (join_sides-Splits l r lk rk on s ss a b i j)
split-Splits (sort_exec c es asc s t) ss h =
    Splits-bind c (sort_exec c es asc s t) ss _ _ (split-Splits c ss h) (
      rebuild-Splits (λ x. sort_exec x es asc s t) c ss (λ x. refl) (λ n x k. k) (λ x k. refl) refl)

-- A plan of the physical planner is cut into stages without an exception: one more than it has
-- exchanges, numbered from 0 in order. Each stage reads only what stages of lower numbers wrote and
-- has no exchange left, and the last stage has the schema of the plan.
pub build_stages-IsNumbered :
    (p : PhysicalPlan)
    → IsPlanned p
    → (upstream : List Stage) × (last : Stage) × (build_stages p ≡ ok (upstream ++ (last ∷ [])))
      × (length upstream ≡ exchanges p)
      × IsNumbered 0 (upstream ++ (last ∷ []))
      × (schema_of last.plan ≡ schema_of p)
unfolding build_stages
build_stages-IsNumbered p h = go (split p []) (split-Splits p [] h)
  where
    go :
        (m : Result Split)
        → Splits p [] m
        → (upstream : List Stage) × (last : Stage) × ((m >>= λ r. ok (
              r.stages
              ++ (record {
                stage_id = length r.stages;
                plan = r.fragment;
                num_partitions = r.partitions;
              }
                  ∷ [])))
            ≡ ok (upstream ++ (last ∷ [])))
          × (length upstream ≡ exchanges p)
          × IsNumbered 0 (upstream ++ (last ∷ []))
          × (schema_of last.plan ≡ schema_of p)
    go m (r, e, i) =
        let last : Stage = record {
          stage_id = length r.stages;
          plan = r.fragment;
          num_partitions = r.partitions;
        } in
        (
          r.stages,
          last,
          rw e refl,
          ap length i.appended ∙ i.counted,
          IsNumbered-append 0 r.stages (last ∷ [])
              (subst (IsNumbered 0) (sym i.appended) i.numbered)
              (omega arith, subst (λ k. ReadsBelow k r.fragment) (omega arith) i.reads, tt),
          i.schemas,
        )

ReadsBelow-narrow :
    (n : ℕ) (p : PhysicalPlan) → ReadsBelow n p → has_wide_dependency (build_dag p) ≡ false
unfolding has_wide_dependency build_dag
ReadsBelow-narrow n (scan_exec d x) h = refl
ReadsBelow-narrow n (filter_exec c e) h = rw (ReadsBelow-narrow n c h) refl
ReadsBelow-narrow n (project_exec c es s) h = rw (ReadsBelow-narrow n c h) refl
ReadsBelow-narrow n (hash_aggregate_exec c gs as' s part t) h = rw (ReadsBelow-narrow n c h) refl
ReadsBelow-narrow n (exchange_exec c x es b rs) h = absurd h
ReadsBelow-narrow n (shuffle_write_exec c x es rs) h = rw (ReadsBelow-narrow n c h) refl
ReadsBelow-narrow n (shuffle_read_exec i s b) h = refl
ReadsBelow-narrow n (hash_join_exec l r lk rk on s) h =
    rw (ReadsBelow-narrow n l h.0, ReadsBelow-narrow n r h.1) refl
ReadsBelow-narrow n (sort_exec c es asc s t) h = rw (ReadsBelow-narrow n c h) refl

IsNumbered-narrow :
    (k : ℕ) (ss : List Stage)
    → IsNumbered k ss
    → All (λ s. has_wide_dependency (build_dag s.plan) ≡ false) ss
IsNumbered-narrow k [] h = tt
IsNumbered-narrow k (s ∷ ss) h = (ReadsBelow-narrow k s.plan h.1, IsNumbered-narrow (suc k) ss h.2)

-- The dependency graph of no stage of a planner's plan has a wide dependency.
pub build_stages-narrow :
    (p : PhysicalPlan) {ss : List Stage}
    → IsPlanned p
    → build_stages p ≡ ok ss
    → All (λ s. has_wide_dependency (build_dag s.plan) ≡ false) ss
build_stages-narrow p h e =
    let (upstream, last, built, _, numbered, _) = build_stages-IsNumbered p h in
    subst (All (λ s. has_wide_dependency (build_dag s.plan) ≡ false)) (ok-injective (sym built ∙ e))
      (IsNumbered-narrow 0 (upstream ++ (last ∷ [])) numbered)

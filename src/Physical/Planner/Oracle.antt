-- ===== src/Physical/Planner/Oracle.antt =====
-- Where the planner runs a plan itself: the physical `execute` is the naive executor.
use minispark.Common.{
  ℕ, true, false, List, ◌∷◌, ◌≡◌, refl, ap, sym, ◌∙◌, subst, Result, ok, ◌>>=◌, >>=-eq-ok, arith,
  String, ok-injective, Bool,
}
use minispark.Core.Value.{Host}
use minispark.Core.Schema.{Schema}
use minispark.Core.Dataset.{Dataset}
use minispark.Optimizer.Statistics.{SizeHost}
use minispark.Expressions.Syntax.{Expression, column}
use minispark.Logical.Nodes.{LogicalPlan, scan, filter, project, aggregation, join, sort, schema}
use minispark.Execution.Executor.{execute}
use minispark.Physical.Plan.{PhysicalPlan, scan_exec, filter_exec, project_exec}
use minispark.Physical.Operators.{filtered_dataset, projected_dataset, execute_whole_dataset}
use minispark.Physical.Planner.{
  plan_join, partial_aggregate_schema, plan_aggregate, plan_sort, translate,
}
use minispark.Physical.Planner.SortRange.{sort_range_boundaries}
use minispark.Physical.Planner.SortRange.{is_oracle_executable}

bind_both :
    {A B C : Type 0} (m : Result A) (k : Result B) (f : A → B → Result C) {a : A} {b : B}
    → m ≡ ok a
    → k ≡ ok b
    → (m >>= λ x. k >>= λ y. f x y) ≡ f a b
bind_both m k f p q = rw (p, q) refl

module _ ⦃py : Host⦄ where
  -- Scans, Filters and Projects alone are what `execute` runs.
  pub execute_whole_dataset-total :
      (q : PhysicalPlan)
      → is_oracle_executable q ≡ true
      → (d : Dataset) × (execute_whole_dataset q ≡ ok d)
  unfolding execute_whole_dataset is_oracle_executable
  execute_whole_dataset-total (scan_exec d n) h = (d, refl)
  execute_whole_dataset-total (filter_exec c e) h =
      let (d, e₁) = execute_whole_dataset-total c h in (filtered_dataset e d, rw e₁ refl)
  execute_whole_dataset-total (project_exec c es s) h =
      let (d, e₁) = execute_whole_dataset-total c h in (projected_dataset s es d, rw e₁ refl)
  execute_whole_dataset-total _ h = cc

  plan_join-is_no_oracle :
      (n : ℕ) (on : List String) (broadcast : Bool) (s : Schema) (l r : PhysicalPlan)
      → is_oracle_executable (plan_join n on broadcast s l r) ≡ false
  unfolding plan_join is_oracle_executable
  plan_join-is_no_oracle n on true s l r = refl
  plan_join-is_no_oracle n on false s l r = refl

  plan_aggregate-is_no_oracle :
      (n t : ℕ) (c : LogicalPlan) (gs as' : List Expression) (child : PhysicalPlan)
      {q : PhysicalPlan}
      → plan_aggregate n t c gs as' child ≡ ok q
      → is_oracle_executable q ≡ false
  unfolding plan_aggregate is_oracle_executable
  plan_aggregate-is_no_oracle n t c gs as' child h =
      let (s, e₁, h₁) = >>=-eq-ok (schema c) _ h in
      let (part, e₂, h₂) = >>=-eq-ok (partial_aggregate_schema gs as' s) _ h₁ in
      let (full, e₃, h₃) = >>=-eq-ok (schema (aggregation c gs as')) _ h₂ in
      subst (λ q. is_oracle_executable q ≡ false) (ok-injective h₃) refl

  module _ ⦃memory : SizeHost⦄ where
    plan_sort-is_no_oracle :
        (n t : ℕ) (c : LogicalPlan) (es : List Expression) (asc : List Bool) (child : PhysicalPlan)
        {q : PhysicalPlan}
        → plan_sort n t c es asc child ≡ ok q
        → is_oracle_executable q ≡ false
    unfolding plan_sort is_oracle_executable
    plan_sort-is_no_oracle n t c (column key ∷ es) (up ∷ asc) child h =
        let (s, e₁, h₁) = >>=-eq-ok (schema c) _ h in
        let (choice, e₂, h₂) = >>=-eq-ok (sort_range_boundaries child key up s n) _ h₁ in
        subst (λ q. is_oracle_executable q ≡ false) (ok-injective h₂) refl
    plan_sort-is_no_oracle n t c _ _ child h = absurd (ground arith)

    -- A translated plan that the planner may run before the shuffle gives, without an exception, the
    -- dataset that the naive executor gives for the logical plan.
    pub execute_whole_dataset-execute :
        (n t : ℕ) (p : LogicalPlan) {q : PhysicalPlan}
        → translate n t p ≡ ok q
        → is_oracle_executable q ≡ true
        → (d : Dataset) × (execute_whole_dataset q ≡ ok d) × (execute p ≡ ok d)
    unfolding translate execute execute_whole_dataset is_oracle_executable
    execute_whole_dataset-execute n t (scan d name s) h k =
        (d, rw (sym (ok-injective h)) refl, refl)
    execute_whole_dataset-execute n t (filter c e) {q} h k =
        let (c', e₁, h₁) = >>=-eq-ok (translate n t c) _ h in
        let same : filter_exec c' e ≡ q = ok-injective h₁ in
        let (d, e₂, e₃) =
          execute_whole_dataset-execute n t c e₁
            (subst (λ x. is_oracle_executable x ≡ true) (sym same) k) in
        (filtered_dataset e d, ap execute_whole_dataset (sym same) ∙ rw e₂ refl, rw e₃ refl)
    execute_whole_dataset-execute n t (project c es) {q} h k =
        let (c', e₁, h₁) = >>=-eq-ok (translate n t c) _ h in
        let (s, e₂, h₂) = >>=-eq-ok (schema (project c es)) _ h₁ in
        let same : project_exec c' es s ≡ q = ok-injective h₂ in
        let (d, e₃, e₄) =
          execute_whole_dataset-execute n t c e₁
            (subst (λ x. is_oracle_executable x ≡ true) (sym same) k) in
        (
          projected_dataset s es d,
          ap execute_whole_dataset (sym same) ∙ rw e₃ refl,
          bind_both (execute c) (schema (project c es)) (λ d s. ok (projected_dataset s es d)) e₄
              e₂,
        )
    execute_whole_dataset-execute n t (aggregation c gs as') h k =
        let (c', e₁, h₁) = >>=-eq-ok (translate n t c) _ h in
        let no = plan_aggregate-is_no_oracle n t c gs as' c' h₁ in cc
    execute_whole_dataset-execute n t (join l r on how b) h k =
        let (l', e₁, h₁) = >>=-eq-ok (translate n t l) _ h in
        let (r', e₂, h₂) = >>=-eq-ok (translate n t r) _ h₁ in
        let (s, e₃, h₃) = >>=-eq-ok (schema (join l r on how b)) _ h₂ in
        let same = ok-injective h₃ in let no = plan_join-is_no_oracle n on b s l' r' in cc
    execute_whole_dataset-execute n t (sort c es asc) h k =
        let (c', e₁, h₁) = >>=-eq-ok (translate n t c) _ h in
        let no = plan_sort-is_no_oracle n t c es asc c' h₁ in cc

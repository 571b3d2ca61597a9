-- ===== src/Optimizer/Rules/Fold/Plans.antt =====
-- Constant folding of a whole plan.
use minispark.Common.{
  All, map_result-All₂, ◌≡◌, sym, ap, ok, map_result, >>=-eq-ok, ok-injective, subst,
}
use minispark.Core.Value.{Host}
use minispark.Logical.Nodes.{LogicalPlan, scan, filter, project, aggregation, join, sort, schema}
use minispark.Execution.Executor.{execute}
use minispark.Optimizer.MapExpressions.{map_expressions}
use minispark.Optimizer.Rules.Fold.{fold, constant_folding}
use minispark.Execution.Executor.Equality.{SameRun, filter-SameRun, project-SameRun}
use minispark.Optimizer.Rules.Fold.Columns.{
  HasName, SameColumn, fold-SameValues, fold-SameColumn, columns_SameValues, columns_output_fields,
}

abbrev pub IsNamedChain : LogicalPlan → Type 0
IsNamedChain (scan d n s) = Unit
IsNamedChain (filter c e) = IsNamedChain c
IsNamedChain (project c es) = All HasName es × IsNamedChain c
IsNamedChain _ = ⊥

module _ ⦃py : Host⦄ where
  -- Folding the constants of a chain of Filters and Projects on a Scan, whose projected columns are
  -- plain or aliased: where folding raises nothing, the plan that it gives has the schema of the
  -- original, and its execution is the same, rows, exceptions and all.
  pub constant_folding-execute :
      (p : LogicalPlan) {q : LogicalPlan}
      → IsNamedChain p
      → constant_folding p ≡ ok q
      → (schema q ≡ schema p) × (execute q ≡ execute p)
  unfolding constant_folding map_expressions
  constant_folding-execute (scan d n s) {q} h e =
      (ap (λ x. schema x) (sym (ok-injective e)), ap (λ x. execute x) (sym (ok-injective e)))
  constant_folding-execute (filter c e) {q} h k =
      let (c', p, k₁) = >>=-eq-ok (map_expressions fold c) _ k in
      let (e', r, k₂) = >>=-eq-ok (fold e) _ k₁ in
      subst (SameRun (filter c e)) (ok-injective k₂)
        (filter-SameRun c c' e e' (constant_folding-execute c h p) (fold-SameValues e e' r))
  constant_folding-execute (project c es) {q} h k =
      let (c', p, k₁) = >>=-eq-ok (map_expressions fold c) _ k in
      let (es', r, k₂) = >>=-eq-ok (map_result fold es) _ k₁ in
      let same = map_result-All₂ SameColumn fold es es' fold-SameColumn r in
      subst (SameRun (project c es)) (ok-injective k₂) (
        project-SameRun c c' es es' (constant_folding-execute c h.1 p)
          (columns_SameValues es es' h.0 same) (λ m. columns_output_fields es es' m h.0 same))
  constant_folding-execute (aggregation c gs as') h k = absurd h
  constant_folding-execute (join a b on how br) h k = absurd h
  constant_folding-execute (sort c es asc) h k = absurd h

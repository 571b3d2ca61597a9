-- ===== src/Optimizer/Rules/Simplify/Plans.antt =====
-- Filter simplification of a plan that the naive executor runs.
use minispark.Common.{List, [], ◌∷◌, All, ◌≡◌, refl, ok, map_result}
use minispark.Core.Value.{Host}
use minispark.Expressions.Syntax.{Expression}
use minispark.Logical.Nodes.{LogicalPlan, scan, filter, project}
use minispark.Execution.Executor.Refinement.{PlanRefines, PlanRefines-refl}
use minispark.Execution.Executor.Congruence.{filter-PlanRefines, project-PlanRefines}
use minispark.Optimizer.MapExpressions.{map_expressions}
use minispark.Optimizer.Rules.Simplify.{simplify_bool, filter_simplification}
use minispark.Optimizer.Rules.Simplify.Conditions.{
  IsPlain, IsCondition, simplify_bool-IsPlain, simplify_bool-SameTest,
}

-- A chain of Filters and Projects on a Scan, whose Filters hold conditions and whose Projects hold no
-- AND, OR or NOT.
abbrev pub IsSimplifiable : LogicalPlan → Type 0
IsSimplifiable (scan d n s) = Unit
IsSimplifiable (filter c e) = IsCondition e × IsSimplifiable c
IsSimplifiable (project c es) = All IsPlain es × IsSimplifiable c
IsSimplifiable _ = ⊥

module _ ⦃py : Host⦄ where
  simplify_columns :
      (es : List Expression) → All IsPlain es → map_result (λ e. ok (simplify_bool e)) es ≡ ok es
  simplify_columns [] h = refl
  simplify_columns (e ∷ es) h = rw (simplify_bool-IsPlain e h.0, simplify_columns es h.1)

  -- The rule succeeds on a chain whose Filters hold conditions and whose Projects hold no AND, OR or
  -- NOT, and the rewritten plan has the rows and the column names of the original wherever collecting
  -- the original's rows raises nothing.
  pub filter_simplification-PlanRefines :
      (p : LogicalPlan)
      → IsSimplifiable p
      → (q : LogicalPlan) × (filter_simplification p ≡ ok q) × PlanRefines p q
  unfolding filter_simplification map_expressions
  filter_simplification-PlanRefines (scan d n s) h =
      (scan d n s, refl, PlanRefines-refl (scan d n s))
  filter_simplification-PlanRefines (filter c e) h =
      let (c', p, k) = filter_simplification-PlanRefines c h.1 in
      (
        filter c' (simplify_bool e),
        rw p,
        filter-PlanRefines e (simplify_bool e) (simplify_bool-SameTest e h.0) k,
      )
  filter_simplification-PlanRefines (project c es) h =
      let (c', p, k) = filter_simplification-PlanRefines c h.1 in
      (project c' es, rw (p, simplify_columns es h.0), project-PlanRefines es k)
  filter_simplification-PlanRefines _ h = absurd h

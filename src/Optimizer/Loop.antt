-- ===== src/Optimizer/Loop.antt =====
-- minispark/optimizer/optimizer.py: the rules in order, again and again until the printed plan stays.
use minispark.Common.{
  ℕ, zero, suc, String, Bool, true, false, ◌&&◌, List, [], ◌∷◌, ◌++◌, str_eq, if◌then◌else◌, Result,
  ok, ◌>>=◌,
}
use minispark.Core.Value.{Host}
use minispark.Logical.Nodes.{LogicalPlan}
use minispark.Logical.Explain.{explain_string}
use minispark.Optimizer.Rules.Fold.{constant_folding}
use minispark.Optimizer.Rules.Simplify.{filter_simplification}
use minispark.Optimizer.Rules.Pushdown.{pushdown}
use minispark.Optimizer.Rules.Prune.{projection_pruning}
use minispark.Optimizer.Rules.Eliminate.{eliminate}

-- minispark/config/config.py.
pub record OptimizerConfig : Type 0 where
  pub predicate_pushdown : Bool
  pub projection_pruning : Bool

abbrev pub Rule : Type 0
Rule = LogicalPlan → Result LogicalPlan

unfoldable pub lines_equal : List String → List String → Bool
lines_equal [] [] = true
lines_equal (s ∷ ss) (t ∷ ts) = str_eq s t && lines_equal ss ts
lines_equal _ _ = false

unfoldable pub apply_rules : List Rule → LogicalPlan → Result LogicalPlan
apply_rules [] p = ok p
apply_rules (r ∷ rs) p = do p' ← r p; apply_rules rs p'

abbrev pub max_iterations : ℕ
max_iterations = 10

module _ ⦃py : Host⦄ where
  unfoldable pub default_rules : OptimizerConfig → List Rule
  default_rules config =
      constant_folding
      ∷ filter_simplification
      ∷ ((if config.predicate_pushdown then pushdown ∷ [] else [])
          ++ ((if config.projection_pruning then projection_pruning ∷ [] else [])
              ++ eliminate ∷ []))

  -- `for _ in range(iterations)`.
  unfoldable pub optimize : ℕ → List Rule → LogicalPlan → Result LogicalPlan
  unfolding apply_rules lines_equal
  optimize zero rules p = ok p
  optimize (suc n) rules p = do
    before ← explain_string p
    p' ← apply_rules rules p
    after ← explain_string p'
    elim (lines_equal after before) [ true ↦ ok p' | false ↦ optimize n rules p' ]

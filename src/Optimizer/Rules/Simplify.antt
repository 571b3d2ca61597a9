-- ===== src/Optimizer/Rules/Simplify.antt =====
-- FilterSimplification of minispark/optimizer/rules.py.
pub mod Conditions
pub mod Plans
pub mod Projection
use minispark.Common.{true, false, Result, ok, if◌then◌else◌}
use minispark.Core.Value.{bool, Host, truthy}
use minispark.Expressions.Syntax.{
  BinaryOp, and, or, Expression, column, literal, alias, binary, not, is_null, is_not_null,
  aggregate, count_all,
}
use minispark.Logical.Nodes.{LogicalPlan}
use minispark.Optimizer.MapExpressions.{map_expressions}

-- `Not(child)`, where the `Not` of a `Not` cancels out.
unfoldable pub simplify_not : Expression → Expression
simplify_not (not e) = e
simplify_not e = not e

module _ ⦃py : Host⦄ where
  unfoldable pub simplify_and : Expression → Expression → Expression
  simplify_and (literal v) r = if truthy v then r else literal (bool false)
  simplify_and l (literal w) = if truthy w then l else literal (bool false)
  simplify_and l r = binary and l r

  unfoldable pub simplify_or : Expression → Expression → Expression
  simplify_or (literal v) r = if truthy v then literal (bool true) else r
  simplify_or l (literal w) = if truthy w then literal (bool true) else l
  simplify_or l r = binary or l r

  unfoldable pub simplify_binary : BinaryOp → Expression → Expression → Expression
  unfolding simplify_and simplify_or
  simplify_binary and l r = simplify_and l r
  simplify_binary or l r = simplify_or l r
  simplify_binary op l r = binary op l r

  unfoldable pub simplify_bool : Expression → Expression
  unfolding simplify_binary simplify_not
  simplify_bool (binary op l r) = simplify_binary op (simplify_bool l) (simplify_bool r)
  simplify_bool (not e) = simplify_not (simplify_bool e)
  simplify_bool (alias e n) = alias (simplify_bool e) n
  simplify_bool (column n) = column n
  simplify_bool (literal v) = literal v
  simplify_bool (is_null e) = is_null e
  simplify_bool (is_not_null e) = is_not_null e
  simplify_bool (aggregate f e) = aggregate f e
  simplify_bool count_all = count_all

  unfoldable pub filter_simplification : LogicalPlan → Result LogicalPlan
  unfolding simplify_bool
  filter_simplification p = map_expressions (λ e. ok (simplify_bool e)) p

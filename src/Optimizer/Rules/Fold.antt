-- ===== src/Optimizer/Rules/Fold.antt =====
-- ConstantFolding of minispark/optimizer/rules.py.
pub mod Values
pub mod Columns
pub mod Plans
use minispark.Common.{Result, ok, ◌>>=◌, negb}
use minispark.Core.Value.{bool, Host, truthy}
use minispark.Expressions.Syntax.{
  BinaryOp, Expression, column, literal, alias, binary, not, is_null, is_not_null, aggregate,
  count_all,
}
use minispark.Expressions.Evaluate.{apply_op, is_null_value}
use minispark.Logical.Nodes.{LogicalPlan}
use minispark.Optimizer.MapExpressions.{map_expressions}

module _ ⦃py : Host⦄ where
  -- The operator runs where both folded operands are literals.
  unfoldable pub fold_binary : BinaryOp → Expression → Expression → Result Expression
  fold_binary op (literal v) (literal w) = do u ← apply_op op v w; ok (literal u)
  fold_binary op l r = ok (binary op l r)

  unfoldable pub fold_not : Expression → Expression
  fold_not (literal v) = literal (bool (negb (truthy v)))
  fold_not e = not e

  unfoldable pub fold_is_null : Expression → Expression
  fold_is_null (literal v) = literal (bool (is_null_value v))
  fold_is_null e = is_null e

  unfoldable pub fold_is_not_null : Expression → Expression
  fold_is_not_null (literal v) = literal (bool (negb (is_null_value v)))
  fold_is_not_null e = is_not_null e

  unfoldable pub fold : Expression → Result Expression
  unfolding fold_binary fold_not fold_is_null fold_is_not_null
  fold (binary op l r) = do l' ← fold l; r' ← fold r; fold_binary op l' r'
  fold (alias e n) = do e' ← fold e; ok (alias e' n)
  fold (not e) = do e' ← fold e; ok (fold_not e')
  fold (is_null e) = do e' ← fold e; ok (fold_is_null e')
  fold (is_not_null e) = do e' ← fold e; ok (fold_is_not_null e')
  fold (column n) = ok (column n)
  fold (literal v) = ok (literal v)
  fold (aggregate f e) = ok (aggregate f e)
  fold count_all = ok count_all

  unfoldable pub constant_folding : LogicalPlan → Result LogicalPlan
  unfolding fold
  constant_folding p = map_expressions fold p

-- ===== src/Expressions/Evaluate.antt =====
-- `Expression.evaluate`: the value of an expression on one row.
pub mod Locality
use minispark.Common.{
  String, Bool, true, false, ◌&&◌, ◌||◌, Option, none, some, List, [], ◌∷◌, negb, str_eq,
  if◌then◌else◌, Result, ok, raise, ◌>>=◌, map_result, key_error, not_implemented,
}
use minispark.Core.Value
use minispark.Core.Value.{
  Value, null, bool, Record, Host, greater, greater_eq, less, less_eq, plus, minus, times, truthy,
  values_equal, compare_values, arithmetic,
}
use minispark.Expressions.Syntax.{
  BinaryOp, greater_than, greater_equal, less_than, less_equal, equal, not_equal, and, or, add,
  subtract, multiply, divide, Expression, column, literal, alias, binary, not, is_null, is_not_null,
  aggregate, count_all,
}

-- `record[name]`, with a KeyError on a missing name.
unfoldable pub lookup : String → Record → Option Value
lookup n [] = none
lookup n ((m, v) ∷ r) = if str_eq n m then some v else lookup n r

unfoldable pub get_item : Record → String → Result Value
unfolding lookup
get_item r n = elim (lookup n r) [ some v ↦ ok v | none ↦ raise (key_error n) ]

abbrev pub is_null_value : Value → Bool
is_null_value null = true
is_null_value _ = false

module _ ⦃py : Host⦄ where
  abbrev pub as_bool : Result Bool → Result Value
  as_bool m = m >>= λ b. ok (bool b)

  -- The `op` of each subclass of BinaryExpression.
  unfoldable pub apply_op : BinaryOp → Value → Value → Result Value
  unfolding truthy
  apply_op greater_than a b = as_bool (compare_values greater a b)
  apply_op greater_equal a b = as_bool (compare_values greater_eq a b)
  apply_op less_than a b = as_bool (compare_values less a b)
  apply_op less_equal a b = as_bool (compare_values less_eq a b)
  apply_op equal a b = ok (bool (values_equal a b))
  apply_op not_equal a b = ok (bool (negb (values_equal a b)))
  apply_op and a b = ok (bool (truthy a && truthy b))
  apply_op or a b = ok (bool (truthy a || truthy b))
  apply_op add a b = arithmetic plus a b
  apply_op subtract a b = arithmetic minus a b
  apply_op multiply a b = arithmetic times a b
  apply_op divide a b = Value.divide a b

  -- Both operands are evaluated, the left one first, also those of AND and OR.
  unfoldable pub evaluate : Expression → Record → Result Value
  unfolding get_item apply_op
  evaluate (column n) r = get_item r n
  evaluate (literal v) r = ok v
  evaluate (alias e n) r = evaluate e r
  evaluate (binary op a b) r = do v ← evaluate a r; w ← evaluate b r; apply_op op v w
  evaluate (not e) r = do v ← evaluate e r; ok (bool (negb (truthy v)))
  evaluate (is_null e) r = do v ← evaluate e r; ok (bool (is_null_value v))
  evaluate (is_not_null e) r = do v ← evaluate e r; ok (bool (negb (is_null_value v)))
  evaluate (aggregate f e) r = raise not_implemented
  evaluate count_all r = raise not_implemented

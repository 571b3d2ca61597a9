-- ===== src/Expressions/Repr.antt =====
-- `__repr__` of the expression classes, and `output_name` of logical/nodes.py, which falls back on it.
use minispark.Common.{String, List, [], ◌∷◌, append_text}
use minispark.Core.Value.{Host, str}
use minispark.Expressions.Syntax.{
  BinaryOp, greater_than, greater_equal, less_than, less_equal, equal, not_equal, and, or, add,
  subtract, multiply, divide, AggregateFunction, count, sum, avg, min, max, Expression, column,
  literal, alias, binary, not, is_null, is_not_null, aggregate, count_all,
}

unfoldable pub join : List String → String
join [] = ""
join (s ∷ ss) = append_text s (join ss)

-- `type(self).__name__`.
unfoldable pub class_name : BinaryOp → String
class_name greater_than = "GreaterThan"
class_name greater_equal = "GreaterEqual"
class_name less_than = "LessThan"
class_name less_equal = "LessEqual"
class_name equal = "Equal"
class_name not_equal = "NotEqual"
class_name and = "And"
class_name or = "Or"
class_name add = "Add"
class_name subtract = "Subtract"
class_name multiply = "Multiply"
class_name divide = "Divide"

unfoldable pub aggregate_name : AggregateFunction → String
aggregate_name count = "Count"
aggregate_name sum = "Sum"
aggregate_name avg = "Avg"
aggregate_name min = "Min"
aggregate_name max = "Max"

module _ ⦃py : Host⦄ where
  unfoldable pub repr : Expression → String
  unfolding join class_name aggregate_name
  repr (column n) = join ("Column(" ∷ py.repr_value (str n) ∷ ")" ∷ [])
  repr (literal v) = join ("Literal(" ∷ py.repr_value v ∷ ")" ∷ [])
  repr (alias e n) = join ("Alias(" ∷ repr e ∷ ", " ∷ py.repr_value (str n) ∷ ")" ∷ [])
  repr (binary op l r) = join (class_name op ∷ "(" ∷ repr l ∷ ", " ∷ repr r ∷ ")" ∷ [])
  repr (not e) = join ("Not(" ∷ repr e ∷ ")" ∷ [])
  repr (is_null e) = join ("IsNull(" ∷ repr e ∷ ")" ∷ [])
  repr (is_not_null e) = join ("IsNotNull(" ∷ repr e ∷ ")" ∷ [])
  repr (aggregate f e) = join (aggregate_name f ∷ "(" ∷ repr e ∷ ")" ∷ [])
  repr count_all = "Count(*)"

  unfoldable pub output_name : Expression → String
  output_name (alias e n) = n
  output_name (column n) = n
  output_name e = repr e

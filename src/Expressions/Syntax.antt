-- ===== src/Expressions/Syntax.antt =====
-- minispark/expressions/{base,binary,column,literal,predicates,aggregate}.py: the classes of an
-- expression tree, and the walks over it that need no row.
use minispark.Common.{String, Bool, true, false, Option, none, some, List, [], ◌∷◌, ◌++◌}
use minispark.Core.Value.{Value}

-- The subclasses of BinaryExpression.
pub data BinaryOp : Type 0 where
  greater_than greater_equal less_than less_equal equal not_equal : BinaryOp
  and or : BinaryOp
  add subtract multiply divide : BinaryOp

-- The subclasses of AggregateFunction.
pub data AggregateFunction : Type 0 where
  count sum avg min max : AggregateFunction

pub data Expression : Type 0 where
  column : String → Expression
  literal : Value → Expression
  alias : Expression → String → Expression
  binary : BinaryOp → Expression → Expression → Expression
  not is_null is_not_null : Expression → Expression
  aggregate : AggregateFunction → Expression → Expression
  -- `Count(None)`, which is `count(*)`.
  count_all : Expression

unfoldable pub children : Expression → List Expression
children (column n) = []
children (literal v) = []
children (alias e n) = e ∷ []
children (binary op l r) = l ∷ r ∷ []
children (not e) = e ∷ []
children (is_null e) = e ∷ []
children (is_not_null e) = e ∷ []
children (aggregate f e) = e ∷ []
children count_all = []

-- Every column name in the tree. The set is a list, of which only membership is read.
unfoldable pub referenced_columns : Expression → List String
referenced_columns (column n) = n ∷ []
referenced_columns (literal v) = []
referenced_columns (alias e n) = referenced_columns e
referenced_columns (binary op l r) = referenced_columns l ++ referenced_columns r
referenced_columns (not e) = referenced_columns e
referenced_columns (is_null e) = referenced_columns e
referenced_columns (is_not_null e) = referenced_columns e
referenced_columns (aggregate f e) = referenced_columns e
referenced_columns count_all = []

unfoldable pub referenced_by_all : List Expression → List String
unfolding referenced_columns
referenced_by_all [] = []
referenced_by_all (e ∷ es) = referenced_columns e ++ referenced_by_all es

-- `expr.child if isinstance(expr, Alias) else expr`.
unfoldable pub unalias : Expression → Expression
unalias (alias e n) = e
unalias e = e

unfoldable pub is_column : Expression → Bool
is_column (column n) = true
is_column _ = false

unfoldable pub column_name : Expression → Option String
column_name (column n) = some n
column_name _ = none

unfoldable pub is_aggregate : Expression → Bool
is_aggregate (aggregate f e) = true
is_aggregate count_all = true
is_aggregate _ = false

-- ===== src/Optimizer/MapExpressions.antt =====
-- `map_expressions` of minispark/optimizer/rules.py.
use minispark.Common.{Result, ok, ◌>>=◌, map_result}
use minispark.Expressions.Syntax.{Expression}
use minispark.Logical.Nodes.{LogicalPlan, scan, filter, project, aggregation, join, sort, make_sort}

-- Rebuilds a plan with `fn` applied to every expression that it holds.
unfoldable pub map_expressions : (Expression → Result Expression) → LogicalPlan → Result LogicalPlan
unfolding make_sort
map_expressions fn (scan d n s) = ok (scan d n s)
map_expressions fn (filter c e) = do c' ← map_expressions fn c; e' ← fn e; ok (filter c' e')
map_expressions fn (project c es) = do
  c' ← map_expressions fn c
  es' ← map_result fn es
  ok (project c' es')
map_expressions fn (aggregation c gs as') = do
  c' ← map_expressions fn c
  gs' ← map_result fn gs
  as'' ← map_result fn as'
  ok (aggregation c' gs' as'')
map_expressions fn (join l r on how b) = do
  l' ← map_expressions fn l
  r' ← map_expressions fn r
  ok (join l' r' on how b)
map_expressions fn (sort c es asc) = do
  c' ← map_expressions fn c
  es' ← map_result fn es
  make_sort c' es' asc

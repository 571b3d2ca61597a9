-- ===== src/Optimizer/Rules/Prune.antt =====
-- ProjectionPruning of minispark/optimizer/rules.py.
use minispark.Common.{
  String, ◌&&◌, Option, none, some, List, ◌++◌, map, length, keep_if, any, negb, ltb, if◌then◌else◌,
  mem_name, Result, ok, ◌>>=◌,
}
use minispark.Core.Value.{Host}
use minispark.Core.Schema.{field_names}
use minispark.Core.Dataset.{Dataset}
use minispark.Expressions.Syntax.{column, referenced_columns, referenced_by_all}
use minispark.Logical.Nodes.{
  LogicalPlan, ScanSource, scan, filter, project, aggregation, join, sort, make_sort, schema,
}

-- `None` is no restriction so far. `needed | names`.
unfoldable pub widen : Option (List String) → List String → Option (List String)
widen none names = none
widen (some needed) names = some (needed ++ names)

unfoldable pub keep_columns : List String → List String → List String
keep_columns cols needed = keep_if (λ c. mem_name c needed) cols

-- A Project above the Scan, where a column is left out and one is kept.
unfoldable pub prune_scan :
    Dataset → String → Option ScanSource → Option (List String) → LogicalPlan
unfolding keep_columns
prune_scan d n s none = scan d n s
prune_scan d n s (some needed) =
    let cols = field_names d.schema in
    let keep = keep_columns cols needed in
    if any (λ c. negb (mem_name c needed)) cols
      && (ltb 0 (length keep) && ltb (length keep) (length cols))
    then project (scan d n s) (map column keep)
    else scan d n s

-- `(needed & fields) | on`, or all the fields where nothing restricts them.
unfoldable pub side_needed : Option (List String) → List String → List String → List String
side_needed none fields on = fields
side_needed (some needed) fields on = keep_if (λ c. mem_name c fields) needed ++ on

module _ ⦃py : Host⦄ where
  unfoldable pub prune : LogicalPlan → Option (List String) → Result LogicalPlan
  unfolding widen prune_scan side_needed make_sort referenced_by_all
  prune (scan d n s) needed = ok (prune_scan d n s needed)
  prune (filter c e) needed = do
    c' ← prune c (widen needed (referenced_columns e))
    ok (filter c' e)
  prune (project c es) needed = do c' ← prune c (some (referenced_by_all es)); ok (project c' es)
  prune (aggregation c gs as') needed = do
    c' ← prune c (some (referenced_by_all gs ++ referenced_by_all as'))
    ok (aggregation c' gs as')
  prune (join l r on how b) needed = do
    ls ← schema l
    rs ← schema r
    l' ← prune l (some (side_needed needed (field_names ls) on))
    r' ← prune r (some (side_needed needed (field_names rs) on))
    ok (join l' r' on how b)
  prune (sort c es asc) needed = do
    c' ← prune c (widen needed (referenced_by_all es))
    make_sort c' es asc

  unfoldable pub projection_pruning : LogicalPlan → Result LogicalPlan
  unfolding prune
  projection_pruning p = prune p none

-- ===== src/Physical/Planner/ScanReads.antt =====
-- The scan pushdown of minispark/physical/planner.py: each source is read again, with the columns and
-- the filter that the nodes above it imply.
use minispark.Common.{
  String, Option, none, some, List, [], ◌∷◌, ◌++◌, if◌then◌else◌, str_eq, codes, ltb_codes, Result,
  ok, ◌>>=◌,
}
use minispark.Expressions.Syntax.{Expression, binary, and, referenced_columns, referenced_by_all}
use minispark.Core.Dataset.{Dataset}
use minispark.Logical.Nodes.{
  LogicalPlan, ScanSource, scan, filter, project, aggregation, join, sort, make_sort,
}
use minispark.Optimizer.Rules.Prune.{widen}

unfoldable pub insert_name : String → List String → List String
insert_name n [] = n ∷ []
insert_name n (m ∷ ms) =
    let rest = insert_name n ms in
    if str_eq n m then m ∷ ms else if ltb_codes (codes n) (codes m) then n ∷ m ∷ ms else m ∷ rest

-- `sorted(names)`, for a set of names.
unfoldable pub sorted_names : List String → List String
unfolding insert_name
sorted_names [] = []
sorted_names (n ∷ ns) = insert_name n (sorted_names ns)

unfoldable pub columns_with_filter : Option (List String) → Option Expression → Option (List String)
columns_with_filter (some columns) (some e) = some (columns ++ referenced_columns e)
columns_with_filter columns e = columns

unfoldable pub reread_scan :
    String → ScanSource → Option (List String) → Option Expression → Result LogicalPlan
unfolding columns_with_filter sorted_names
reread_scan name source columns e = do
  d ←
      source.read
        (elim (columns_with_filter columns e) [ some ns ↦ some (sorted_names ns) | none ↦ none ]) e
  ok (scan d name (some source))

-- `plan.condition if filter_expr is None else And(filter_expr, plan.condition)`.
unfoldable pub combine_filters : Option Expression → Expression → Expression
combine_filters none e = e
combine_filters (some f) e = binary and f e

-- A walk gives `none` where its result is the object that went in (`new_child is plan.child`).
abbrev pub or_same : LogicalPlan → Option LogicalPlan → LogicalPlan
or_same p none = p
or_same p (some p') = p'

-- A node of one child, once the child is walked.
unfoldable pub with_new_child :
    (LogicalPlan → Result LogicalPlan) → Option LogicalPlan → Result (Option LogicalPlan)
with_new_child node none = ok none
with_new_child node (some c) = do p ← node c; ok (some p)

-- A Join, once both sides are walked.
unfoldable pub with_new_sides :
    LogicalPlan
    → LogicalPlan
    → (LogicalPlan → LogicalPlan → LogicalPlan)
    → Option LogicalPlan
    → Option LogicalPlan
    → Option LogicalPlan
with_new_sides l r node none none = none
with_new_sides l r node l' r' = some (node (or_same l l') (or_same r r'))

unfoldable pub walk_scan :
    Dataset
    → String
    → Option ScanSource
    → Option (List String)
    → Option Expression
    → Result (Option LogicalPlan)
unfolding reread_scan
walk_scan d name none columns e = ok none
walk_scan d name (some s) none none = ok none
walk_scan d name (some s) columns e = do p ← reread_scan name s columns e; ok (some p)

unfoldable pub walk_for_pushdown :
    LogicalPlan → Option (List String) → Option Expression → Result (Option LogicalPlan)
unfolding walk_scan with_new_child with_new_sides combine_filters widen
walk_for_pushdown (scan d name s) columns f = walk_scan d name s columns f
walk_for_pushdown (filter c e) columns f =
    walk_for_pushdown c (widen columns (referenced_columns e)) (some (combine_filters f e))
    >>= with_new_child (λ c'. ok (filter c' e))
walk_for_pushdown (project c es) columns f =
    walk_for_pushdown c (some (referenced_by_all es)) none
    >>= with_new_child (λ c'. ok (project c' es))
walk_for_pushdown (aggregation c gs as') columns f =
    walk_for_pushdown c none none >>= with_new_child (λ c'. ok (aggregation c' gs as'))
walk_for_pushdown (join l r on how b) columns f = do
  l' ← walk_for_pushdown l none none
  r' ← walk_for_pushdown r none none
  ok (with_new_sides l r (λ x y. join x y on how b) l' r')
walk_for_pushdown (sort c es asc) columns f =
    walk_for_pushdown c none none >>= with_new_child (λ c'. make_sort c' es asc)

unfoldable pub pushdown_scan_reads : LogicalPlan → Result LogicalPlan
unfolding walk_for_pushdown
pushdown_scan_reads p = do r ← walk_for_pushdown p none none; ok (or_same p r)

-- ===== src/Logical/Analyzer.antt =====
-- minispark/logical/analyzer.py: the checks of a plan before it is optimized.
use minispark.Common.{
  String, Bool, true, false, ◌&&◌, Option, none, some, List, [], ◌∷◌, if◌then◌else◌, negb, any,
  str_eq, mem_name, Result, ok, raise, ◌>>=◌, ◌>>◌, guard, analysis_exception,
}
use minispark.Core.Value.{Host}
use minispark.Core.Schema.{Schema, field_names, has_field}
use minispark.Expressions.Syntax.{
  Expression, aggregate, count_all, is_column, unalias, referenced_columns,
}
use minispark.Expressions.Repr.{output_name}
use minispark.Logical.Nodes.{LogicalPlan, scan, filter, project, aggregation, join, sort, schema}

unfoldable pub check_names : List String → Schema → Result (Unit {0})
unfolding has_field
check_names [] s = ok tt
check_names (n ∷ ns) s = guard (has_field s n) analysis_exception >> check_names ns s

unfoldable pub check_columns_exist : Expression → Schema → Result (Unit {0})
unfolding check_names
check_columns_exist e s = check_names (referenced_columns e) s

-- The names seen, with the new one, or an AnalysisException.
unfoldable pub reject_duplicate_name : String → List String → Result (List String)
reject_duplicate_name n seen = if mem_name n seen then raise analysis_exception else ok (n ∷ seen)

-- The child of an aggregate without its alias, `none` for `count(*)`; other expressions are refused.
unfoldable pub aggregate_child : Expression → Result (Option Expression)
aggregate_child (aggregate f e) = ok (some e)
aggregate_child count_all = ok none
aggregate_child e = raise analysis_exception

unfoldable pub check_join_columns : List String → (ls rs : Schema) → Result (Unit {0})
unfolding has_field
check_join_columns [] ls rs = ok tt
check_join_columns (n ∷ ns) ls rs =
    guard (has_field ls n) analysis_exception
    >> guard (has_field rs n) analysis_exception
    >> check_join_columns ns ls rs

-- The names on both sides that are not join columns.
unfoldable pub has_collision : (ls rs : Schema) → List String → Bool
unfolding has_field
has_collision ls rs on = any (λ n. has_field rs n && negb (mem_name n on)) (field_names ls)

module _ ⦃py : Host⦄ where
  -- The schema of the child is computed again for each expression.
  unfoldable pub analyze_columns :
      List String → List Expression → Result Schema → Result (List String)
  unfolding check_columns_exist reject_duplicate_name
  analyze_columns seen [] child = ok seen
  analyze_columns seen (e ∷ es) child = do
    s ← child
    check_columns_exist e s
    seen' ← reject_duplicate_name (output_name e) seen
    analyze_columns seen' es child

  unfoldable pub analyze_group_by :
      List String → List Expression → Result Schema → Result (List String)
  unfolding check_columns_exist reject_duplicate_name is_column
  analyze_group_by seen [] child = ok seen
  analyze_group_by seen (g ∷ gs) child = do
    guard (is_column g) analysis_exception
    s ← child
    check_columns_exist g s
    seen' ← reject_duplicate_name (output_name g) seen
    analyze_group_by seen' gs child

  unfoldable pub analyze_aggregates :
      List String → List Expression → Result Schema → Result (List String)
  unfolding aggregate_child unalias check_columns_exist reject_duplicate_name
  analyze_aggregates seen [] child = ok seen
  analyze_aggregates seen (a ∷ as') child = do
    inner ← aggregate_child (unalias a)
    elim inner [ some e ↦ do s ← child; check_columns_exist e s | none ↦ ok tt ]
    seen' ← reject_duplicate_name (output_name a) seen
    analyze_aggregates seen' as' child

  unfoldable pub analyze_join : (ls rs : Result Schema) → List String → String → Result (Unit {0})
  unfolding check_join_columns has_collision
  analyze_join left right on how = do
    guard (str_eq how "inner") analysis_exception
    guard (elim on [ [] ↦ false | n ∷ ns ↦ true ]) analysis_exception
    ls ← left
    rs ← right
    check_join_columns on ls rs
    guard (negb (has_collision ls rs on)) analysis_exception

  unfoldable pub analyze_sort : List Expression → Result Schema → Result (Unit {0})
  unfolding check_columns_exist is_column
  analyze_sort [] child = ok tt
  analyze_sort (e ∷ es) child = do
    guard (is_column e) analysis_exception
    s ← child
    check_columns_exist e s
    analyze_sort es child

  -- The children first; a plan that passes comes back unchanged.
  unfoldable pub analyze : LogicalPlan → Result LogicalPlan
  unfolding analyze_columns analyze_group_by analyze_aggregates analyze_join analyze_sort
  analyze (scan d n s) = ok (scan d n s)
  analyze (filter c e) = do _ ← analyze c; s ← schema c; check_columns_exist e s; ok (filter c e)
  analyze (project c es) = do _ ← analyze c; _ ← analyze_columns [] es (schema c); ok (project c es)
  analyze (aggregation c gs as') = do
    _ ← analyze c
    seen ← analyze_group_by [] gs (schema c)
    _ ← analyze_aggregates seen as' (schema c)
    ok (aggregation c gs as')
  analyze (join l r on how b) = do
    _ ← analyze l
    _ ← analyze r
    analyze_join (schema l) (schema r) on how
    ok (join l r on how b)
  analyze (sort c es asc) = do _ ← analyze c; analyze_sort es (schema c); ok (sort c es asc)

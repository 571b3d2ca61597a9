-- ===== src/Logical/Explain.antt =====
-- minispark/logical/plan.py: the printed form of a plan, which the optimizer compares. A line is a
-- text; `explain_string` is the list of lines, before they are joined by newlines.
use minispark.Common.{
  String, Bool, List, [], ◌∷◌, ◌++◌, map, append_text, if◌then◌else◌, Result, ok, raise, ◌>>=◌,
  value_error,
}
use minispark.Core.Value.{Host}
use minispark.Core.Schema.{field_names}
use minispark.Expressions.Syntax.{Expression}
use minispark.Expressions.Repr.{repr, output_name}
use minispark.Expressions.Repr as R
use minispark.Logical.Nodes.{LogicalPlan, scan, filter, project, aggregation, join, sort}

-- `", ".join(texts)`.
unfoldable pub comma_join : List String → String
comma_join [] = ""
comma_join (s ∷ []) = s
comma_join (s ∷ t ∷ ts) = append_text s (append_text ", " (comma_join (t ∷ ts)))

module _ ⦃py : Host⦄ where
  -- `zip(..., strict=True)`: a ValueError where the lists differ in length.
  unfoldable pub sort_items : List Expression → List Bool → Result (List String)
  sort_items [] [] = ok []
  sort_items (e ∷ es) (a ∷ as') = do
    rest ← sort_items es as'
    ok (append_text (output_name e) (if a then " ASC" else " DESC") ∷ rest)
  sort_items _ _ = raise value_error

  unfoldable pub node_label : LogicalPlan → Result String
  unfolding comma_join sort_items R.join
  node_label (scan d n s) =
      ok (R.join ("Scan[" ∷ n ∷ "] (" ∷ comma_join (field_names d.schema) ∷ ")" ∷ []))
  node_label (filter c e) = ok (R.join ("Filter[" ∷ repr e ∷ "]" ∷ []))
  node_label (project c es) =
      ok (R.join ("Project[" ∷ comma_join (map (λ e. output_name e) es) ∷ "]" ∷ []))
  node_label (aggregation c gs as') = ok (
      R.join (
        "Aggregate[groupBy=("
        ∷ comma_join (map (λ e. output_name e) gs)
        ∷ "), aggregates=("
        ∷ comma_join (map (λ e. output_name e) as')
        ∷ ")]"
        ∷ []))
  node_label (join l r on how b) = ok (
      R.join
        ("Join[" ∷ how ∷ ", on=(" ∷ comma_join on ∷ ")]" ∷ (if b then " broadcast" else "") ∷ []))
  node_label (sort c es asc) = do
    items ← sort_items es asc
    ok (R.join ("Sort[" ∷ comma_join items ∷ "]" ∷ []))

  unfoldable pub render : String → LogicalPlan → Result (List String)
  unfolding node_label
  render prefix (scan d n s) = do l ← node_label (scan d n s); ok (append_text prefix l ∷ [])
  render prefix (filter c e) = do
    l ← node_label (filter c e)
    rest ← render (append_text prefix "  ") c
    ok (append_text prefix l ∷ rest)
  render prefix (project c es) = do
    l ← node_label (project c es)
    rest ← render (append_text prefix "  ") c
    ok (append_text prefix l ∷ rest)
  render prefix (aggregation c gs as') = do
    l ← node_label (aggregation c gs as')
    rest ← render (append_text prefix "  ") c
    ok (append_text prefix l ∷ rest)
  render prefix (join a b on how br) = do
    l ← node_label (join a b on how br)
    left ← render (append_text prefix "  ") a
    right ← render (append_text prefix "  ") b
    ok (append_text prefix l ∷ (left ++ right))
  render prefix (sort c es asc) = do
    l ← node_label (sort c es asc)
    rest ← render (append_text prefix "  ") c
    ok (append_text prefix l ∷ rest)

  unfoldable pub explain_string : LogicalPlan → Result (List String)
  unfolding render
  explain_string p = render "" p

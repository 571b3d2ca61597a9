-- ===== src/Physical/Plan.antt =====
-- minispark/physical/plan.py: the physical nodes, with what each derives from its fields.
use minispark.Common.{
  ℕ, String, Bool, Option, none, some, List, [], ◌∷◌, ◌++◌, map, if◌then◌else◌, Result, ok, ◌>>=◌,
}
use minispark.Common.Int.{pos}
use minispark.Core.Value.{Value, int, Host}
use minispark.Core.Schema.{Schema, field_names}
use minispark.Core.Dataset.{Dataset}
use minispark.Expressions.Syntax.{Expression}
use minispark.Expressions.Repr.{output_name}
use minispark.Expressions.Repr as R
use minispark.Logical.Explain.{comma_join, sort_items}

pub data PhysicalPlan : Type 0 where
  scan_exec : (dataset : Dataset) (source_name : String) → PhysicalPlan
  filter_exec : (child : PhysicalPlan) (condition : Expression) → PhysicalPlan
  project_exec : (child : PhysicalPlan) (columns : List Expression) (schema : Schema) → PhysicalPlan
  hash_aggregate_exec :
      (child : PhysicalPlan) (group_by aggregates : List Expression) (schema : Schema)
      (is_partial : Bool) (spill_threshold_bytes : ℕ)
      → PhysicalPlan
  exchange_exec :
      (child : PhysicalPlan) (num_partitions : ℕ) (partition_exprs : List Expression)
      (is_broadcast : Bool) (range_boundaries : Option (List Value))
      → PhysicalPlan
  shuffle_write_exec :
      (child : PhysicalPlan) (num_partitions : ℕ) (partition_exprs : List Expression)
      (range_boundaries : Option (List Value))
      → PhysicalPlan
  shuffle_read_exec : (from_stage_id : ℕ) (schema : Schema) (is_broadcast : Bool) → PhysicalPlan
  hash_join_exec :
      (left right : PhysicalPlan) (left_keys right_keys : List Expression) (on : List String)
      (schema : Schema)
      → PhysicalPlan
  sort_exec :
      (child : PhysicalPlan) (sort_exprs : List Expression) (ascending : List Bool)
      (schema : Schema) (spill_threshold_bytes : ℕ)
      → PhysicalPlan

unfoldable pub schema_of : PhysicalPlan → Schema
schema_of (scan_exec d n) = d.schema
schema_of (filter_exec c e) = schema_of c
schema_of (project_exec c es s) = s
schema_of (hash_aggregate_exec c gs as' s part t) = s
schema_of (exchange_exec c n es b rs) = schema_of c
schema_of (shuffle_write_exec c n es rs) = schema_of c
schema_of (shuffle_read_exec i s b) = s
schema_of (hash_join_exec l r lk rk on s) = s
schema_of (sort_exec c es asc s t) = s

unfoldable pub children_of : PhysicalPlan → List PhysicalPlan
children_of (scan_exec d n) = []
children_of (filter_exec c e) = c ∷ []
children_of (project_exec c es s) = c ∷ []
children_of (hash_aggregate_exec c gs as' s part t) = c ∷ []
children_of (exchange_exec c n es b rs) = c ∷ []
children_of (shuffle_write_exec c n es rs) = c ∷ []
children_of (shuffle_read_exec i s b) = []
children_of (hash_join_exec l r lk rk on s) = l ∷ r ∷ []
children_of (sort_exec c es asc s t) = c ∷ []

-- Every node that has no children, from left to right.
unfoldable pub leaves : PhysicalPlan → List PhysicalPlan
leaves (scan_exec d n) = scan_exec d n ∷ []
leaves (filter_exec c e) = leaves c
leaves (project_exec c es s) = leaves c
leaves (hash_aggregate_exec c gs as' s part t) = leaves c
leaves (exchange_exec c n es b rs) = leaves c
leaves (shuffle_write_exec c n es rs) = leaves c
leaves (shuffle_read_exec i s b) = shuffle_read_exec i s b ∷ []
leaves (hash_join_exec l r lk rk on s) = leaves l ++ leaves r
leaves (sort_exec c es asc s t) = leaves c

module _ ⦃py : Host⦄ where
  -- `", ".join(output_name(e) for e in es)`.
  unfoldable pub names_text : List Expression → String
  unfolding comma_join
  names_text es = comma_join (map (λ e. output_name e) es)

  -- The kind of an exchange with its keys and its number of partitions.
  unfoldable pub exchange_text : Option (List Value) → List Expression → ℕ → String
  unfolding R.join names_text
  exchange_text boundaries es n = R.join (
      (elim boundaries [ some bs ↦ "range" | none ↦ "hash" ])
      ∷ "("
      ∷ names_text es
      ∷ "), "
      ∷ py.repr_value (int (pos n))
      ∷ " partitions]"
      ∷ [])

  unfoldable pub exec_label : PhysicalPlan → Result String
  unfolding comma_join sort_items R.join names_text exchange_text
  exec_label (scan_exec d n) =
      ok (R.join ("ScanExec[" ∷ n ∷ "] (" ∷ comma_join (field_names d.schema) ∷ ")" ∷ []))
  exec_label (filter_exec c e) = ok (R.join ("FilterExec[" ∷ R.repr e ∷ "]" ∷ []))
  exec_label (project_exec c es s) = ok (R.join ("ProjectExec[" ∷ names_text es ∷ "]" ∷ []))
  exec_label (hash_aggregate_exec c gs as' s part t) = ok (
      R.join (
        "HashAggregateExec["
        ∷ (if part then "partial" else "final")
        ∷ "](groupBy=("
        ∷ names_text gs
        ∷ "), aggregates=("
        ∷ names_text as'
        ∷ "))"
        ∷ []))
  exec_label (exchange_exec c n es b rs) =
      ok (if b then "Exchange[broadcast]" else R.join ("Exchange[" ∷ exchange_text rs es n ∷ []))
  exec_label (shuffle_write_exec c n es rs) =
      ok (R.join ("ShuffleWriteExec[" ∷ exchange_text rs es n ∷ []))
  exec_label (shuffle_read_exec i s b) = ok (
      R.join (
        "ShuffleReadExec[stage "
        ∷ py.repr_value (int (pos i))
        ∷ "]"
        ∷ (if b then " broadcast" else "")
        ∷ []))
  exec_label (hash_join_exec l r lk rk on s) =
      ok (R.join ("HashJoinExec[inner, on=(" ∷ comma_join on ∷ ")]" ∷ []))
  exec_label (sort_exec c es asc s t) = do
    items ← sort_items es asc
    ok (R.join ("SortExec[" ∷ comma_join items ∷ "]" ∷ []))

-- ===== src/Tests.antt =====
-- Sample rows, plans and a Python for the examples, and each theorem at one of them.
pub mod Shuffle
pub mod Stages
pub mod Aggregate
pub mod Planning
pub mod Operators
use minispark.Common.{
  Bool, true, false, none, some, List, [], ◌∷◌, ◌++◌, All, length, ◌≡◌, ◌≢◌, refl, ok, ◌>>=◌,
  has_duplicates, mem_name, subset_names,
}
use minispark.Common.Int.{pos, ◌+ℤ◌}
use minispark.Core.Value.{
  Value, bool, int, str, Record, Host, truthy, arithmetic, number_arithmetic, both_numbers,
  int_arithmetic, compare_values, compare_numbers, compare_ints,
}
use minispark.Core.Types.{int_type}
use minispark.Core.Schema.{Schema, make_schema, find_field}
use minispark.Core.Dataset.{Dataset, from_list, to_list, iter_partitions, iter_records}
use minispark.Expressions.Syntax.{
  Expression, column, literal, alias, binary, not, add, greater_than, and, referenced_columns,
  unalias,
}
use minispark.Expressions.Repr.{output_name}
use minispark.Expressions.Evaluate.{lookup, get_item, apply_op, evaluate}
use minispark.Expressions.Evaluate.Locality.{Agrees, evaluate-Agrees}
use minispark.Logical.Nodes.{
  LogicalPlan, scan, filter, project, schema, output_fields, output_field, column_field,
}
use minispark.Physical.Plan.{
  PhysicalPlan, scan_exec, hash_aggregate_exec, exchange_exec, shuffle_write_exec,
  shuffle_read_exec, schema_of,
}
use minispark.Execution.Executor.{
  execute, filter_row, filter_rows, project_record, project_row, project_rows, filtered_partition,
  projected_partition,
}
use minispark.Execution.Executor.Refinement.{PlanRefines}
use minispark.Execution.Executor.Congruence.{SameTest}
use minispark.Execution.Dag.{build_dag, has_wide_dependency}
use minispark.Execution.Stages.{Stage, build_stages, split, close_stage, rebuild, with_child}
use minispark.Execution.Stages.Order.{IsNumbered}
use minispark.Execution.Stages.Building.{build_stages-IsNumbered, build_stages-narrow}
use minispark.Optimizer.MapExpressions.{map_expressions}
use minispark.Optimizer.Rules.Fold.{fold, fold_binary, constant_folding}
use minispark.Optimizer.Rules.Fold.Values.{FoldsTo, fold-FoldsTo}
use minispark.Optimizer.Rules.Fold.Plans.{constant_folding-execute}
use minispark.Optimizer.Rules.Simplify.{simplify_bool, filter_simplification}
use minispark.Optimizer.Rules.Simplify.Conditions.{simplify_bool-SameTest}
use minispark.Optimizer.Rules.Simplify.Projection.{
  and_true_plan, filter_simplification_changes_rows,
}
use minispark.Optimizer.Rules.Simplify.Plans.{filter_simplification-PlanRefines}
use minispark.Optimizer.Rules.Pushdown.{push_filter, pushdown}
use minispark.Optimizer.Rules.Pushdown.Plans.{IsUnshadowedChain, pushdown-PlanRefines}
use minispark.Optimizer.Rules.Pushdown.Shadowing.{shadowing_plan, pushdown_loses_row}

-- A Python in which every operation on a float gives the same float.
instance sample_host : Host
sample_host = record {
  compare_floats = λ c a b. false;
  floats_equal = λ a b. true;
  float_arithmetic = λ o a b. Value.float 0;
  true_divide = λ a b. ok (Value.float 0);
  float_is_nonzero = λ x. false;
  repr_value = λ v. "value";
}

abbrev one : Expression
one = literal (int (pos 1))

abbrev two : Expression
two = literal (int (pos 2))

abbrev age_schema : Schema
age_schema = record { fields = record { name = "age"; data_type = int_type; nullable = true } ∷ [] }

abbrev ages : Dataset
ages = record {
  schema = age_schema;
  partitions =
      record {
        partition_id = 0;
        schema = age_schema;
        records = from_list ((("age", int (pos 1)) ∷ []) ∷ (("age", int (pos 5)) ∷ []) ∷ []);
        row_count = some 2;
      }
      ∷ [];
}

abbrev scanned : LogicalPlan
scanned = scan ages "ages" none

-- SELECT age + 1 AS next, age FROM ages, filtered by age > 1 + 1.
abbrev next_columns : List Expression
next_columns = alias (binary add (column "age") one) "next" ∷ column "age" ∷ []

abbrev adult : Expression
adult = binary greater_than (column "age") two

abbrev projected : LogicalPlan
projected = filter (project scanned next_columns) adult

unshadowed : IsUnshadowedChain [] projected
unfolding output_name referenced_columns
unshadowed = ((refl, tt), tt)

pushed : pushdown projected ≡ ok (project (filter scanned adult) next_columns)
unfolding pushdown push_filter schema output_fields output_field output_name make_schema
    has_duplicates mem_name subset_names referenced_columns column_field unalias find_field
pushed = refl

pushdown-PlanRefines_example : PlanRefines projected (project (filter scanned adult) next_columns)
pushdown-PlanRefines_example = pushdown-PlanRefines projected unshadowed pushed

pushdown_loses_row_example :
    ((execute (shadowing_plan "n" (int (pos 0)) (int (pos 1))) >>= iter_records)
      ≡ ok ((("n", int (pos 1)) ∷ []) ∷ []))
    × (q : LogicalPlan) × (pushdown (shadowing_plan "n" (int (pos 0)) (int (pos 1))) ≡ ok q)
    × ((execute q >>= iter_records) ≡ ok [])
unfolding truthy
pushdown_loses_row_example = pushdown_loses_row "n" (int (pos 0)) (int (pos 1)) refl refl

-- NOT NOT (age > 2) AND True.
abbrev wordy : Expression
wordy = binary and (not (not adult)) (literal (bool true))

abbrev wordy_plan : LogicalPlan
wordy_plan = filter scanned wordy

filter_simplification-PlanRefines_example :
    (q : LogicalPlan) × (filter_simplification wordy_plan ≡ ok q) × PlanRefines wordy_plan q
filter_simplification-PlanRefines_example =
    filter_simplification-PlanRefines wordy_plan (((tt, tt), tt), tt)

simplify_bool-SameTest_example : SameTest wordy (simplify_bool wordy)
simplify_bool-SameTest_example = simplify_bool-SameTest wordy ((tt, tt), tt)

abbrev child : Record
child = ("age", int (pos 1)) ∷ []

abbrev named_child : Record
named_child = ("name", str "Ada") ∷ ("age", int (pos 1)) ∷ []

child_age : get_item child "age" ≡ ok (int (pos 1))
unfolding get_item lookup
child_age = refl

filter_simplification_changes_rows_example :
    ((execute (and_true_plan "age" "flag" (int (pos 5))) >>= iter_records)
      ≡ ok ((("flag", bool true) ∷ []) ∷ []))
    × (q : LogicalPlan) × (filter_simplification (and_true_plan "age" "flag" (int (pos 5))) ≡ ok q)
    × ((execute q >>= iter_records) ≡ ok ((("flag", int (pos 5)) ∷ []) ∷ []))
unfolding truthy
filter_simplification_changes_rows_example =
    filter_simplification_changes_rows "age" "flag" (int (pos 5))

child_next : evaluate (binary add (column "age") one) child ≡ ok (int (pos 2))
unfolding evaluate get_item lookup apply_op arithmetic number_arithmetic both_numbers int_arithmetic
    ◌+ℤ◌
child_next = refl

named-Agrees : All (Agrees child named_child) (referenced_columns (binary add (column "age") one))
unfolding referenced_columns lookup
named-Agrees = ((λ v h. h), tt)

evaluate-Agrees_example : evaluate (binary add (column "age") one) named_child ≡ ok (int (pos 2))
evaluate-Agrees_example =
    evaluate-Agrees (binary add (column "age") one) child named_child named-Agrees child_next

abbrev constants : Expression
constants = binary greater_than (column "age") (binary add one one)

fold-FoldsTo_example : FoldsTo constants (fold constants)
fold-FoldsTo_example = fold-FoldsTo constants

constants_folded : constant_folding (filter scanned constants) ≡ ok (filter scanned adult)
unfolding constant_folding map_expressions fold fold_binary apply_op arithmetic number_arithmetic
    both_numbers int_arithmetic ◌+ℤ◌
constants_folded = refl

constant_folding-execute_example :
    (schema (filter scanned adult) ≡ schema (filter scanned constants))
    × (execute (filter scanned adult) ≡ execute (filter scanned constants))
constant_folding-execute_example =
    constant_folding-execute (filter scanned constants) tt constants_folded

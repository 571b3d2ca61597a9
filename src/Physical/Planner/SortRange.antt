-- ===== src/Physical/Planner/SortRange.antt =====
-- `_sort_range_boundaries` of minispark/physical/planner.py: the cut points of a range exchange, from
-- the least and the greatest key of the rows below it.
use minispark.Common.{
  ℕ, zero, suc, String, Bool, true, false, ◌||◌, Option, none, some, List, [], ◌∷◌, leb, negb, ◌-◌,
  if◌then◌else◌, str_eq, Result, ok, raise, ◌>>=◌, key_error,
}
use minispark.Common.Int.{ℤ, pos, negsuc}
use minispark.Core.Value.{
  Value, int, Host, less, plus, minus, times, arithmetic, divide, compare_values, values_equal,
}
use minispark.Core.Types.{int_type, float_type, same_type}
use minispark.Core.Schema.{Schema, find_field}
use minispark.Expressions.Syntax.{Expression, column, literal, binary, multiply}
use minispark.Expressions.Evaluate.{is_null_value}
use minispark.Optimizer.Statistics.{SizeHost, ColumnStatistics, compute_statistics}
use minispark.Physical.Plan.{PhysicalPlan, scan_exec, filter_exec, project_exec}
use minispark.Physical.Operators.{execute_whole_dataset}

-- The triple that `_sort_range_boundaries` returns.
pub record RangeChoice : Type 0 where
  pub boundaries : Option (List Value)
  pub num_partitions : ℕ
  pub partition_key : Expression

unfoldable pub is_oracle_executable : PhysicalPlan → Bool
is_oracle_executable (scan_exec d n) = true
is_oracle_executable (filter_exec c e) = is_oracle_executable c
is_oracle_executable (project_exec c es s) = is_oracle_executable c
is_oracle_executable _ = false

-- The type of the key is INT or FLOAT.
unfoldable pub is_numeric_key : Schema → String → Bool
is_numeric_key s key = elim (find_field key s.fields) [
  | some f ↦ same_type f.data_type int_type || same_type f.data_type float_type
  | none ↦ false
]

abbrev pub single_partition : String → RangeChoice
single_partition key = record { boundaries = none; num_partitions = 1; partition_key = column key }

-- `1 if ascending else -1`.
abbrev pub sign_of : Bool → ℤ
sign_of true = pos 1
sign_of false = negsuc 0

abbrev pub range_key : Bool → String → Expression
range_key true key = column key
range_key false key = binary multiply (column key) (literal (int (negsuc 0)))

-- `stats.columns[key]`.
unfoldable pub column_stats : String → List (String × ColumnStatistics) → Result ColumnStatistics
column_stats key [] = raise (key_error key)
column_stats key ((n, c) ∷ rest) = if str_eq key n then ok c else column_stats key rest

-- `[v] * n`.
unfoldable pub replicate_value : ℕ → Value → List Value
replicate_value zero v = []
replicate_value (suc n) v = v ∷ replicate_value n v

module _ ⦃py : Host⦄ where
  -- `sorted([a, b])`.
  unfoldable pub sort_two : Value → Value → Result (Value × Value)
  sort_two a b = do swapped ← compare_values less b a; ok (if swapped then (b, a) else (a, b))

  -- `[lo + step * i for i in range(i, i + count)]`.
  unfoldable pub boundaries_from : (count i : ℕ) → (lo step : Value) → Result (List Value)
  boundaries_from zero i lo step = ok []
  boundaries_from (suc count) i lo step = do
    offset ← arithmetic times step (int (pos i))
    b ← arithmetic plus lo offset
    bs ← boundaries_from count (suc i) lo step
    ok (b ∷ bs)

  -- The list of boundaries, between the two signed ends.
  unfoldable pub cut_range : ℕ → Value → Value → Result (List Value)
  unfolding boundaries_from replicate_value
  cut_range n lo hi =
      let stepped = do
        width ← arithmetic minus hi lo
        step ← divide width (int (pos n))
        boundaries_from (n - 1) 1 lo step
      in if values_equal lo hi then ok (replicate_value (n - 1) hi) else stepped

  -- The choice for keys from the first value to the second, of which neither is None.
  unfoldable pub signed_range : String → Bool → ℕ → Value → Value → Result RangeChoice
  unfolding sort_two cut_range
  signed_range key ascending n least greatest = do
    a ← arithmetic times (int (sign_of ascending)) least
    b ← arithmetic times (int (sign_of ascending)) greatest
    ends ← sort_two a b
    bs ← cut_range n ends.0 ends.1
    ok (record {
      boundaries = some bs;
      num_partitions = n;
      partition_key = range_key ascending key;
    })

  unfoldable pub range_choice : String → Bool → ℕ → ColumnStatistics → Result RangeChoice
  unfolding signed_range
  range_choice key ascending n stats =
      let ranged = signed_range key ascending n stats.min_value stats.max_value in
      if is_null_value stats.min_value || is_null_value stats.max_value
      then ok (single_partition key)
      else ranged

  module _ ⦃memory : SizeHost⦄ where
    -- The choice that the rows of the child lead to.
    unfoldable pub observed_range : PhysicalPlan → String → Bool → ℕ → Result RangeChoice
    unfolding range_choice column_stats
    observed_range child key ascending n = do
      d ← execute_whole_dataset child
      stats ← compute_statistics d (some (key ∷ []))
      c ← column_stats key stats.columns
      range_choice key ascending n c

    unfoldable pub sort_range_boundaries :
        PhysicalPlan → String → Bool → Schema → ℕ → Result RangeChoice
    unfolding is_oracle_executable is_numeric_key observed_range
    sort_range_boundaries child key ascending s n =
        let ranged = observed_range child key ascending n in
        if leb n 1 || (negb (is_numeric_key s key) || negb (is_oracle_executable child))
        then ok (single_partition key)
        else ranged

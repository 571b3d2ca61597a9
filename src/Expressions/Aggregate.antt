-- ===== src/Expressions/Aggregate.antt =====
-- minispark/expressions/aggregate.py: the four steps of each aggregate function.
pub mod Partial
use minispark.Common.{
  ℕ, ◌+◌, ◌==◌, true, false, Option, none, some, if◌then◌else◌, Result, ok, raise, ◌>>=◌,
  type_error,
}
use minispark.Common.Int.{pos}
use minispark.Core.Value
use minispark.Core.Value.{
  Value, null, int, Record, Host, less, greater, plus, compare_values, arithmetic,
}
use minispark.Core.Types.{DataType, int_type, float_type}
use minispark.Expressions.Syntax.{AggregateFunction, count, sum, avg, min, max, Expression}
use minispark.Expressions.Evaluate.{evaluate, is_null_value}

-- The state of a group: Count keeps an int, Sum, Min and Max a value or None, and Avg a pair.
pub data State : Type 0 where
  counted : ℕ → State
  running : Value → State
  totalled : Value → ℕ → State

-- An aggregate with the child expression that it reads; `none` is the child of `count(*)`.
pub record Aggregator : Type 0 where
  pub function : AggregateFunction
  pub child : Option Expression

unfoldable pub initialize : AggregateFunction → State
initialize count = counted 0
initialize sum = running null
initialize avg = totalled (int (pos 0)) 0
initialize min = running null
initialize max = running null

module _ ⦃py : Host⦄ where
  -- `value if state is None else state + value`.
  unfoldable pub add_value : Value → Value → Result State
  add_value null v = ok (running v)
  add_value s v = do t ← arithmetic plus s v; ok (running t)

  -- `value if state is None or value < state else state`, with `>` for Max.
  unfoldable pub better_value : Value.Comparison → Value → Value → Result State
  better_value c null v = ok (running v)
  better_value c s v = do b ← compare_values c v s; ok (running (if b then v else s))

  -- What `update` does with the value of the child.
  unfoldable pub update_value : AggregateFunction → State → Value → Result State
  unfolding add_value better_value
  update_value count (counted n) v = ok (counted (if is_null_value v then n else n + 1))
  update_value sum (running s) v = elim (is_null_value v) [
    | true ↦ ok (running s)
    | false ↦ add_value s v
  ]
  update_value avg (totalled t n) v = elim (is_null_value v) [
    | true ↦ ok (totalled t n)
    | false ↦ do t' ← arithmetic plus t v; ok (totalled t' (n + 1))
  ]
  update_value min (running s) v = elim (is_null_value v) [
    | true ↦ ok (running s)
    | false ↦ better_value less s v
  ]
  update_value max (running s) v = elim (is_null_value v) [
    | true ↦ ok (running s)
    | false ↦ better_value greater s v
  ]
  update_value _ _ _ = raise type_error

  -- `count(*)` counts the row whatever it holds.
  unfoldable pub update_row : AggregateFunction → State → Result State
  update_row count (counted n) = ok (counted (n + 1))
  update_row _ _ = raise type_error

  unfoldable pub update : Aggregator → State → Record → Result State
  unfolding update_value update_row
  update a s r = elim a.child [
    | some e ↦ do v ← evaluate e r; update_value a.function s v
    | none ↦ update_row a.function s
  ]

  -- `state_b` where `state_a` is None, `state_a` where `state_b` is None, and else the sum.
  unfoldable pub merge_sums : Value → Value → Result State
  merge_sums null b = ok (running b)
  merge_sums a null = ok (running a)
  merge_sums a b = do t ← arithmetic plus a b; ok (running t)

  unfoldable pub merge_best : Value.Comparison → Value → Value → Result State
  merge_best c null b = ok (running b)
  merge_best c a null = ok (running a)
  merge_best c a b = do t ← compare_values c a b; ok (running (if t then a else b))

  unfoldable pub merge : AggregateFunction → State → State → Result State
  unfolding merge_sums merge_best
  merge count (counted a) (counted b) = ok (counted (a + b))
  merge sum (running a) (running b) = merge_sums a b
  merge avg (totalled a m) (totalled b n) = do t ← arithmetic plus a b; ok (totalled t (m + n))
  merge min (running a) (running b) = merge_best less a b
  merge max (running a) (running b) = merge_best greater a b
  merge _ _ _ = raise type_error

  unfoldable pub finalize : AggregateFunction → State → Result Value
  finalize avg (totalled t n) = if n == 0 then ok null else Value.divide t (int (pos n))
  finalize count (counted n) = ok (int (pos n))
  finalize _ (running v) = ok v
  finalize _ _ = raise type_error

unfoldable pub result_type : AggregateFunction → DataType → DataType
result_type count t = int_type
result_type avg t = float_type
result_type _ t = t

-- ===== src/Physical/Operators/Grouping.antt =====
-- The hash aggregation of one partition (minispark/physical/operators.py).
use minispark.Common.{
  ℕ, suc, String, Bool, true, false, Option, none, some, List, [], ◌∷◌, ◌++◌, map, if◌then◌else◌,
  append_text, Result, ok, raise, ◌>>=◌, assertion, type_error, value_error,
}
use minispark.Common.Int.{pos}
use minispark.Core.Value.{Value, int, total_and_count, Record, Host}
use minispark.Core.Dataset.{Rows, done, fail, yield}
use minispark.Expressions.Syntax.{
  AggregateFunction, count, sum, avg, min, max, Expression, aggregate, count_all, unalias,
}
use minispark.Expressions.Evaluate.{get_item}
use minispark.Expressions.Aggregate.{
  State, counted, running, totalled, Aggregator, initialize, update, merge, finalize,
}
use minispark.Physical.Operators.Joining.{keys_equal}

abbrev pub aggregate_spill_buckets : ℕ
aggregate_spill_buckets = 32

-- A group of a table: its key and the states of its aggregates.
abbrev pub Group : Type 0
Group = List Value × List State

unfoldable pub unwrap_aggregate : Expression → Result Aggregator
unfolding unalias
unwrap_aggregate e = elim (unalias e) [
  | aggregate f x ↦ ok (record { function = f; child = some x })
  | count_all ↦ ok (record { function = count; child = none })
  | _ ↦ raise assertion
]

-- A state is a Python value, which a row can hold.
unfoldable pub state_value : State → Value
state_value (counted n) = int (pos n)
state_value (running v) = v
state_value (totalled t n) = total_and_count t n

-- The value of a row, as the state that an aggregate goes on with.
unfoldable pub value_state : AggregateFunction → Value → Result State
value_state count (int (pos n)) = ok (counted n)
value_state avg (total_and_count t n) = ok (totalled t n)
value_state sum v = ok (running v)
value_state min v = ok (running v)
value_state max v = ok (running v)
value_state _ _ = raise type_error

module _ ⦃py : Host⦄ where
  -- `groups.get(key)`.
  unfoldable pub find_group : List Value → List Group → Option (List State)
  unfolding keys_equal
  find_group key [] = none
  find_group key ((k, ss) ∷ groups) =
      let rest = find_group key groups in if keys_equal k key then some ss else rest

  -- `groups[key] = state`.
  unfoldable pub set_group : List Value → List State → List Group → List Group
  unfolding keys_equal
  set_group key ss [] = (key, ss) ∷ []
  set_group key ss ((k, old) ∷ groups) =
      let rest = set_group key ss groups in
      if keys_equal k key then (k, ss) ∷ groups else (k, old) ∷ rest

  -- `__agg_state_{i}`.
  unfoldable pub state_name : ℕ → String
  state_name i = append_text "__agg_state_" (py.repr_value (int (pos i)))

  unfoldable pub update_states : List Aggregator → List State → Record → Result (List State)
  update_states [] [] r = ok []
  update_states (a ∷ as') (s ∷ ss) r = do
    s' ← update a s r
    ss' ← update_states as' ss r
    ok (s' ∷ ss')
  update_states _ _ r = raise value_error

  unfoldable pub merge_states : List Aggregator → List State → List State → Result (List State)
  merge_states [] [] [] = ok []
  merge_states (a ∷ as') (s ∷ ss) (t ∷ ts) = do
    s' ← merge a.function s t
    ss' ← merge_states as' ss ts
    ok (s' ∷ ss')
  merge_states _ _ _ = raise value_error

  -- `[record[f"__agg_state_{i}"] for i in range(len(aggregates))]`, from `i` on.
  unfoldable pub incoming_states : ℕ → List Aggregator → Record → Result (List State)
  unfolding state_name value_state
  incoming_states i [] r = ok []
  incoming_states i (a ∷ as') r = do
    v ← get_item r (state_name i)
    s ← value_state a.function v
    ss ← incoming_states (suc i) as' r
    ok (s ∷ ss)

  -- The new state of a group, from the one it has, if any.
  unfoldable pub merge_into :
      List Aggregator → Option (List State) → List State → Result (List State)
  unfolding merge_states
  merge_into as' none incoming = ok incoming
  merge_into as' (some ss) incoming = merge_states as' ss incoming

  unfoldable pub next_states :
      Bool → List Aggregator → Option (List State) → Record → Result (List State)
  unfolding update_states incoming_states merge_into initialize
  next_states true as' none r = update_states as' (map (λ a. initialize a.function) as') r
  next_states true as' (some ss) r = update_states as' ss r
  next_states false as' existing r = incoming_states 0 as' r >>= merge_into as' existing

  -- The fields of the states, from `i` on.
  unfoldable pub partial_fields : ℕ → List State → Record
  unfolding state_name state_value
  partial_fields i [] = []
  partial_fields i (s ∷ ss) = (state_name i, state_value s) ∷ partial_fields (suc i) ss

  unfoldable pub final_fields : List String → List Aggregator → List State → Result Record
  unfolding finalize
  final_fields [] [] [] = ok []
  final_fields (n ∷ ns) (a ∷ as') (s ∷ ss) = do
    v ← finalize a.function s
    rest ← final_fields ns as' ss
    ok ((n, v) ∷ rest)
  final_fields _ _ _ = raise value_error

  -- `dict(zip(group_names, key, strict=True))`.
  unfoldable pub key_fields : List String → List Value → Result Record
  key_fields [] [] = ok []
  key_fields (n ∷ ns) (v ∷ vs) = do rest ← key_fields ns vs; ok ((n, v) ∷ rest)
  key_fields _ _ = raise value_error

  -- The row of a group. The schema has refused a name that stands twice.
  unfoldable pub group_row :
      Bool → List String → List String → List Aggregator → Group → Result Record
  unfolding key_fields partial_fields final_fields
  group_row true group_names names as' (key, ss) = do
    fields ← key_fields group_names key
    ok (fields ++ partial_fields 0 ss)
  group_row false group_names names as' (key, ss) = do
    fields ← key_fields group_names key
    more ← final_fields names as' ss
    ok (fields ++ more)

  unfoldable pub group_rows : Bool → List String → List String → List Aggregator → List Group → Rows
  unfolding group_row
  group_rows is_partial group_names names as' [] = done
  group_rows is_partial group_names names as' (g ∷ groups) =
      let rest = group_rows is_partial group_names names as' groups in
      elim (group_row is_partial group_names names as' g) [
        | ok row ↦ yield row rest
        | raise e ↦ fail e
      ]

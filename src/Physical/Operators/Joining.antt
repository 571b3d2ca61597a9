-- ===== src/Physical/Operators/Joining.antt =====
-- The hash join of one partition (minispark/physical/operators.py).
pub mod IntKeys
pub mod NestedLoop
use minispark.Common.{
  ℕ, String, Bool, true, false, ◌&&◌, Option, none, List, [], ◌∷◌, ◌++◌, map, keep_if, negb,
  if◌then◌else◌, mem_name, str_eq, Result, ok, raise, ◌>>=◌, map_result,
}
use minispark.Core.Value.{Value, Record, Host, values_equal}
use minispark.Core.Schema.{Schema}
use minispark.Core.Dataset.{Rows, done, fail, yield, to_list, Partition}
use minispark.Expressions.Syntax.{Expression}
use minispark.Expressions.Evaluate.{evaluate}
use minispark.Shuffle.Reader.{append_rows}

-- `row[name] = value`.
unfoldable pub set_field : String → Value → Record → Record
set_field n v [] = (n, v) ∷ []
set_field n v ((m, w) ∷ r) =
    let rest = set_field n v r in if str_eq n m then (m, v) ∷ r else (m, w) ∷ rest

-- The left row with the fields of the right row that are not joined on.
unfoldable pub merge_rows : List String → Record → Record → Record
unfolding set_field mem_name
merge_rows on left [] = left
merge_rows on left ((n, v) ∷ right) =
    merge_rows on (if mem_name n on then left else set_field n v left) right

-- The keys of a dict are in the order of insertion.
abbrev pub JoinTable : Type 0
JoinTable = List (List Value × List Record)

module _ ⦃py : Host⦄ where
  -- `==` of two tuples.
  unfoldable pub keys_equal : List Value → List Value → Bool
  keys_equal [] [] = true
  keys_equal (v ∷ vs) (w ∷ ws) = values_equal v w && keys_equal vs ws
  keys_equal _ _ = false

  -- `tuple(e.evaluate(record) for e in keys)`.
  unfoldable pub row_key : List Expression → Record → Result (List Value)
  row_key es r = map_result (λ e. evaluate e r) es

  -- `table.setdefault(key, []).append(record)`.
  unfoldable pub add_row : List Value → Record → JoinTable → JoinTable
  unfolding keys_equal
  add_row key r [] = (key, r ∷ []) ∷ []
  add_row key r ((k, rs) ∷ table) =
      let rest = add_row key r table in
      if keys_equal k key then (k, rs ++ (r ∷ [])) ∷ table else (k, rs) ∷ rest

  -- `table.get(key, ())`.
  unfoldable pub rows_of : List Value → JoinTable → List Record
  unfolding keys_equal
  rows_of key [] = []
  rows_of key ((k, rs) ∷ table) =
      let rest = rows_of key table in if keys_equal k key then rs else rest

  unfoldable pub build_table : List Expression → Rows → JoinTable → Result JoinTable
  unfolding row_key add_row
  build_table es done table = ok table
  build_table es (fail e) table = raise e
  build_table es (yield r rest) table =
      row_key es r >>= λ key. build_table es rest (add_row key r table)

  unfoldable pub yield_matches : List String → Record → List Record → Rows → Rows
  unfolding merge_rows
  yield_matches on right [] rest = rest
  yield_matches on right (left ∷ lefts) rest =
      yield (merge_rows on left right) (yield_matches on right lefts rest)

  -- The matches of one right row, given its key, and then the rows of the others.
  unfoldable pub probe_row : List String → JoinTable → Record → Result (List Value) → Rows → Rows
  unfolding rows_of yield_matches
  probe_row on table right (raise e) rest = fail e
  probe_row on table right (ok key) rest = yield_matches on right (rows_of key table) rest

  unfoldable pub probe_rows : List String → List Expression → JoinTable → List Record → Rows
  unfolding probe_row row_key
  probe_rows on es table [] = done
  probe_rows on es table (right ∷ rights) =
      probe_row on table right (row_key es right) (probe_rows on es table rights)

  -- `_execute_hash_join_partition`, once both sides are executed.
  unfoldable pub execute_hash_join :
      ℕ
      → Schema
      → List Expression
      → List Expression
      → List String
      → Partition
      → Partition
      → Result Partition
  unfolding build_table probe_rows
  execute_hash_join partition_id s left_keys right_keys on left right = do
    table ← build_table left_keys left.records []
    rights ← to_list right.records
    ok (record {
      partition_id = partition_id;
      schema = s;
      records = probe_rows on right_keys table rights;
      row_count = none;
    })

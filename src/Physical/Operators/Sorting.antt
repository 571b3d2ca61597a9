-- ===== src/Physical/Operators/Sorting.antt =====
-- The sort of one partition (minispark/physical/operators.py). `list.sort` and `heapq.merge` are
-- modelled by what they give: a stable sort, and the least head again and again.
pub mod Ordered
pub mod Keys
pub mod Sorted
use minispark.Common.{
  ℕ, zero, suc, ◌+◌, Bool, true, false, ◌==◌, ltb, leb, negb, Option, none, some, List, [], ◌∷◌,
  ◌++◌, map, length, if◌then◌else◌, Result, ok, raise, ◌>>=◌, map_result, value_error,
}
use minispark.Common.Int.{pos}
use minispark.Core.Value.{
  Comparison, less, Value, null, int, Record, Host, values_equal, compare_values,
}
use minispark.Core.Schema.{Schema}
use minispark.Core.Dataset.{Rows, done, fail, yield, from_list, Partition}
use minispark.Expressions.Syntax.{Expression}
use minispark.Expressions.Evaluate.{evaluate, is_null_value}
use minispark.Optimizer.Statistics.{SizeHost, record_size}
use minispark.Physical.Spill.{SpillHost, write_spill_file, read_spill_file}

-- `(seq, record)`.
abbrev pub Numbered : Type 0
Numbered = ℕ × Record

-- A key of `_null_last_sort_key`: the sentinel, and the value or 0.
abbrev pub SortKey : Type 0
SortKey = Bool × Value

-- The tuple of `_composite_sort_key`: for each key its null flag, its direction and its value, and then
-- the number of the row.
abbrev pub CompositeKey : Type 0
CompositeKey = List (Bool × Bool × Value) × ℕ

module _ {A : Type 0} where
  -- A stable sort puts an item before those behind it, but for the ones that come first by `before`.
  unfoldable pub insert_item : (A → A → Result Bool) → A → List A → Result (List A)
  insert_item before x [] = ok (x ∷ [])
  insert_item before x (y ∷ ys) = before y x >>= λ first. elim first [
    | true ↦ do rest ← insert_item before x ys; ok (y ∷ rest)
    | false ↦ ok (x ∷ y ∷ ys)
  ]

  unfoldable pub stable_sort : (A → A → Result Bool) → List A → Result (List A)
  unfolding insert_item
  stable_sort before [] = ok []
  stable_sort before (x ∷ xs) = do rest ← stable_sort before xs; insert_item before x rest

  -- Two sorted runs, on fuel for all their items; the first run's head goes first, unless the other's
  -- comes before it.
  unfoldable pub merge_two : (A → A → Result Bool) → ℕ → List A → List A → Result (List A)
  merge_two before zero xs ys = ok []
  merge_two before (suc fuel) [] ys = ok ys
  merge_two before (suc fuel) (x ∷ xs) [] = ok (x ∷ xs)
  merge_two before (suc fuel) (x ∷ xs) (y ∷ ys) = before y x >>= λ first. elim first [
    | true ↦ do rest ← merge_two before fuel (x ∷ xs) ys; ok (y ∷ rest)
    | false ↦ do rest ← merge_two before fuel xs (y ∷ ys); ok (x ∷ rest)
  ]

  -- `heapq.merge(*runs)`.
  unfoldable pub merge_runs : (A → A → Result Bool) → List (List A) → Result (List A)
  unfolding merge_two
  merge_runs before [] = ok []
  merge_runs before (run ∷ runs) = do
    rest ← merge_runs before runs
    merge_two before (suc (length run + length rest)) run rest

module _ ⦃py : Host⦄ where
  unfoldable pub null_last_sort_key : Expression → Bool → Record → Result SortKey
  null_last_sort_key e ascending r = do
    v ← evaluate e r
    ok (
      (if ascending then is_null_value v else negb (is_null_value v)),
      (if is_null_value v then int (pos 0) else v),
    )

  -- `v < w` for the values of two tuples that are equal before them; equal values are not less.
  unfoldable pub less_or_equal : Value → Value → Result Bool → Result Bool
  less_or_equal v w equal = if values_equal v w then equal else compare_values less v w

  -- `k < l` on tuples of a bool and a value.
  unfoldable pub key_less : SortKey → SortKey → Result Bool
  unfolding less_or_equal
  key_less (true, v) (true, w) = less_or_equal v w (ok false)
  key_less (false, v) (false, w) = less_or_equal v w (ok false)
  key_less (false, v) (true, w) = ok true
  key_less (true, v) (false, w) = ok false

  -- `reverse=not asc`.
  unfoldable pub comes_before : Bool → SortKey × Numbered → SortKey × Numbered → Result Bool
  unfolding key_less
  comes_before true a b = key_less a.0 b.0
  comes_before false a b = key_less b.0 a.0

  unfoldable pub with_key : Expression → Bool → Numbered → Result (SortKey × Numbered)
  unfolding null_last_sort_key
  with_key e ascending pair = do k ← null_last_sort_key e ascending pair.1; ok (k, pair)

  -- One `rows.sort(key=..., reverse=...)`.
  unfoldable pub sort_pass : Expression → Bool → List Numbered → Result (List Numbered)
  unfolding stable_sort comes_before with_key
  sort_pass e ascending rows = do
    keyed ← map_result (with_key e ascending) rows
    sorted ← stable_sort (comes_before ascending) keyed
    ok (map (λ k. k.1) sorted)

  -- The last key is sorted by first.
  unfoldable pub sort_rows : List Numbered → List Expression → List Bool → Result (List Numbered)
  unfolding sort_pass
  sort_rows rows [] [] = ok rows
  sort_rows rows (e ∷ es) (up ∷ ascending) = do
    later ← sort_rows rows es ascending
    sort_pass e up later
  sort_rows rows _ _ = raise value_error

  unfoldable pub composite_parts :
      List Expression → List Bool → Record → Result (List (Bool × Bool × Value))
  composite_parts [] [] r = ok []
  composite_parts (e ∷ es) (up ∷ ascending) r = do
    v ← evaluate e r
    rest ← composite_parts es ascending r
    ok ((is_null_value v, up, (if is_null_value v then int (pos 0) else v)) ∷ rest)
  composite_parts _ _ r = raise value_error

  unfoldable pub composite_sort_key :
      List Expression → List Bool → Numbered → Result (CompositeKey × Numbered)
  unfolding composite_parts
  composite_sort_key es ascending pair = do
    parts ← composite_parts es ascending pair.1
    ok ((parts, pair.0), pair)

  -- `<` of two keys; a value of a descending key stands in `_Desc`.
  unfoldable pub parts_less :
      List (Bool × Bool × Value) → List (Bool × Bool × Value) → Bool → Result Bool
  unfolding less_or_equal
  parts_less ((false, up, v) ∷ ps) ((true, up', w) ∷ qs) last = ok true
  parts_less ((true, up, v) ∷ ps) ((false, up', w) ∷ qs) last = ok false
  parts_less ((flag, up, v) ∷ ps) ((flag', up', w) ∷ qs) last =
      let rest = parts_less ps qs last in
      if up then less_or_equal v w rest else less_or_equal w v rest
  parts_less _ _ last = ok last

  unfoldable pub composite_less : CompositeKey × Numbered → CompositeKey × Numbered → Result Bool
  unfolding parts_less
  composite_less ((ps, i), a) ((qs, j), b) = parts_less ps qs (ltb i j)

  -- The variables of the loop over the rows.
  pub record SortBuffer : Type 0 where
    pub buffer : List Numbered
    pub buffer_bytes : ℕ
    pub total_rows : ℕ
    pub spilled : List (List ℕ)

  module _ ⦃memory : SizeHost⦄ ⦃pickle : SpillHost Numbered⦄ where
    -- The buffer is sorted and spilled, once it has reached the threshold.
    unfoldable pub spill_buffer : List Expression → List Bool → ℕ → SortBuffer → Result SortBuffer
    unfolding sort_rows
    spill_buffer es ascending threshold st =
        let spilling = do
          chunk ← sort_rows st.buffer es ascending
          ok (record {
            buffer = [];
            buffer_bytes = 0;
            total_rows = st.total_rows;
            spilled = st.spilled ++ (write_spill_file chunk ∷ []);
          })
        in if leb threshold st.buffer_bytes then spilling else ok st

    unfoldable pub buffer_rows :
        List Expression → List Bool → ℕ → Rows → SortBuffer → Result SortBuffer
    unfolding spill_buffer
    buffer_rows es ascending threshold done st = ok st
    buffer_rows es ascending threshold (fail e) st = raise e
    buffer_rows es ascending threshold (yield r rest) st =
        spill_buffer es ascending threshold (record {
          buffer = st.buffer ++ ((st.total_rows, r) ∷ []);
          buffer_bytes = st.buffer_bytes + record_size r;
          total_rows = st.total_rows + 1;
          spilled = st.spilled;
        })
        >>= buffer_rows es ascending threshold rest

    -- The rows of all runs, merged; an exception comes before them.
    unfoldable pub merged_rows :
        List Expression → List Bool → List Numbered → List (List ℕ) → Result (List Numbered)
    unfolding merge_runs composite_less composite_sort_key
    merged_rows es ascending final_run spilled = do
      files ← map_result read_spill_file spilled
      runs ← map_result (map_result (composite_sort_key es ascending)) (final_run ∷ files)
      merged ← merge_runs composite_less runs
      ok (map (λ k. k.1) merged)

    -- The records of the source can be read once where nothing was spilled (`partial(iter, generator)`),
    -- and each time anew otherwise; here they can be read anew in both cases.
    unfoldable pub sorted_partition :
        ℕ → Schema → List Expression → List Bool → SortBuffer → Result Partition
    unfolding sort_rows merged_rows
    sorted_partition partition_id s es ascending st = do
      last_run ← sort_rows st.buffer es ascending
      ok (elim st.spilled [
        | [] ↦ record {
          partition_id = partition_id;
          schema = s;
          records = from_list (map (λ pair. pair.1) last_run);
          row_count = some (length last_run);
        }
        | file ∷ files ↦ record {
          partition_id = partition_id;
          schema = s;
          records = elim (merged_rows es ascending last_run (file ∷ files)) [
            | ok rows ↦ from_list (map (λ pair. pair.1) rows)
            | raise e ↦ fail e
          ];
          row_count = some st.total_rows;
        }
      ])

    -- `_execute_sort_partition`, once the child is executed.
    unfoldable pub execute_sort :
        ℕ → Schema → List Expression → List Bool → ℕ → Partition → Result Partition
    unfolding buffer_rows sorted_partition
    execute_sort partition_id s es ascending threshold parent =
        buffer_rows es ascending threshold parent.records
          (record { buffer = []; buffer_bytes = 0; total_rows = 0; spilled = [] })
        >>= sorted_partition partition_id s es ascending

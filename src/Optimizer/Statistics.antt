-- ===== src/Optimizer/Statistics.antt =====
-- minispark/optimizer/statistics.py: one scan of a dataset. `sys.getsizeof` belongs to Python.
pub mod Extremes
use minispark.Common.{
  ℕ, ◌+◌, String, Option, none, some, List, [], ◌∷◌, map, length, any, if◌then◌else◌, Result, ok,
  raise, ◌>>=◌,
}
use minispark.Core.Value.{
  Comparison, less, greater, Value, null, Record, Host, values_equal, compare_values,
}
use minispark.Core.Schema.{field_names}
use minispark.Core.Dataset.{Rows, done, fail, yield, Partition, Dataset}
use minispark.Expressions.Evaluate.{lookup}

pub record SizeHost : Type 0 where
  pub getsizeof : Value → ℕ

pub record ColumnStatistics : Type 0 where
  pub null_count : ℕ
  pub distinct_count : ℕ
  pub min_value : Value
  pub max_value : Value

pub record TableStatistics : Type 0 where
  pub row_count : ℕ
  pub estimated_size_bytes : ℕ
  pub columns : List (String × ColumnStatistics)

-- The entries of the four dicts at one column name.
pub record ColumnScan : Type 0 where
  pub name : String
  pub distinct_values : List Value
  pub null_count : ℕ
  pub min_value : Value
  pub max_value : Value

-- The state of the loop over the rows.
pub record TableScan : Type 0 where
  pub row_count : ℕ
  pub estimated_size_bytes : ℕ
  pub columns : List ColumnScan

-- `record.get(name)`.
unfoldable pub get_or_none : Record → String → Value
unfolding lookup
get_or_none r n = elim (lookup n r) [ some v ↦ v | none ↦ null ]

unfoldable pub column_statistics : ColumnScan → String × ColumnStatistics
column_statistics c = (
  c.name,
  record {
    null_count = c.null_count;
    distinct_count = length c.distinct_values;
    min_value = c.min_value;
    max_value = c.max_value;
  },
)

abbrev pub new_column : String → ColumnScan
new_column n = record {
  name = n;
  distinct_values = [];
  null_count = 0;
  min_value = null;
  max_value = null;
}

module _ ⦃py : Host⦄ where
  -- `value if kept is None or value < kept else kept`, with `>` for the maximum.
  unfoldable pub pick_value : Comparison → Value → Value → Result Value
  pick_value c null v = ok v
  pick_value c kept v = do b ← compare_values c v kept; ok (if b then v else kept)

  -- `distinct_values[name].add(value)`.
  unfoldable pub add_distinct : Value → List Value → List Value
  add_distinct v vs = if any (values_equal v) vs then vs else v ∷ vs

  unfoldable pub observe : ColumnScan → Value → Result ColumnScan
  unfolding pick_value add_distinct
  observe c null = ok (record c { null_count = c.null_count + 1 })
  observe c v = do
    lo ← pick_value less c.min_value v
    hi ← pick_value greater c.max_value v
    ok (record {
      name = c.name;
      distinct_values = add_distinct v c.distinct_values;
      null_count = c.null_count;
      min_value = lo;
      max_value = hi;
    })

  unfoldable pub observe_columns : List ColumnScan → Record → Result (List ColumnScan)
  unfolding observe get_or_none
  observe_columns [] r = ok []
  observe_columns (c ∷ cs) r = do
    c' ← observe c (get_or_none r c.name)
    cs' ← observe_columns cs r
    ok (c' ∷ cs')

  module _ ⦃memory : SizeHost⦄ where
    -- `sum(sys.getsizeof(v) for v in record.values())`.
    unfoldable pub record_size : Record → ℕ
    record_size [] = 0
    record_size ((n, v) ∷ r) = memory.getsizeof v + record_size r

    unfoldable pub scan_row : TableScan → Record → Result TableScan
    unfolding observe_columns record_size
    scan_row t r = do
      cs ← observe_columns t.columns r
      ok (record {
        row_count = t.row_count + 1;
        estimated_size_bytes = t.estimated_size_bytes + record_size r;
        columns = cs;
      })

    unfoldable pub scan_rows : Rows → TableScan → Result TableScan
    unfolding scan_row
    scan_rows done t = ok t
    scan_rows (fail e) t = raise e
    scan_rows (yield r rest) t = scan_row t r >>= scan_rows rest

    unfoldable pub scan_partitions : List Partition → TableScan → Result TableScan
    unfolding scan_rows
    scan_partitions [] t = ok t
    scan_partitions (p ∷ ps) t = scan_rows p.records t >>= scan_partitions ps

    -- The column names given are distinct, like those of a schema.
    unfoldable pub compute_statistics : Dataset → Option (List String) → Result TableStatistics
    unfolding scan_partitions column_statistics
    compute_statistics d columns = do
      t ← scan_partitions d.partitions (record {
        row_count = 0;
        estimated_size_bytes = 0;
        columns = map new_column (elim columns [ some ns ↦ ns | none ↦ field_names d.schema ]);
      })
      ok (record {
        row_count = t.row_count;
        estimated_size_bytes = t.estimated_size_bytes;
        columns = map column_statistics t.columns;
      })

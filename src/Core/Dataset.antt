-- ===== src/Core/Dataset.antt =====
-- minispark/core/partition.py and dataset.py. A partition's `records_fn` makes an iterator that can
-- raise in the middle of its rows; it is modelled by what iterating it gives.
use minispark.Common.{
  ℕ, zero, suc, ◌+◌, ◌%◌, ◌==◌, Option, none, some, List, [], ◌∷◌, ◌++◌, length, get_elem?,
  if◌then◌else◌, ltb, Result, ok, raise, ◌>>=◌, Exception, value_error, index_error,
}
use minispark.Core.Value.{Record}
use minispark.Core.Schema.{Schema}

-- The run of an iterator: rows, and then its end or an exception.
pub data Rows : Type 0 where
  done : Rows
  fail : Exception → Rows
  yield : Record → Rows → Rows

-- `iter(rows)` for a list.
unfoldable pub from_list : List Record → Rows
from_list [] = done
from_list (r ∷ rs) = yield r (from_list rs)

-- `list(partition)`: the first exception ends it.
unfoldable pub to_list : Rows → Result (List Record)
to_list done = ok []
to_list (fail e) = raise e
to_list (yield r rest) = do rs ← to_list rest; ok (r ∷ rs)

pub record Partition : Type 0 where
  pub partition_id : ℕ
  pub schema : Schema
  pub records : Rows
  pub row_count : Option ℕ

pub record Dataset : Type 0 where
  pub schema : Schema
  pub partitions : List Partition

abbrev pub num_partitions : Dataset → ℕ
num_partitions d = length d.partitions

-- `dataset.partition(i)`, for an index that is not negative.
unfoldable pub partition : Dataset → ℕ → Result Partition
partition d i = elim (get_elem? d.partitions i) [ some p ↦ ok p | none ↦ raise index_error ]

-- `list(dataset.iter_records())`.
unfoldable pub iter_partitions : List Partition → Result (List Record)
unfolding to_list
iter_partitions [] = ok []
iter_partitions (p ∷ ps) = do rs ← to_list p.records; more ← iter_partitions ps; ok (rs ++ more)

unfoldable pub iter_records : Dataset → Result (List Record)
unfolding iter_partitions
iter_records d = iter_partitions d.partitions

-- `row_count()`: the metadata where it is known, and a scan where it is not.
unfoldable pub count_partitions : List Partition → Result ℕ
unfolding to_list
count_partitions [] = ok 0
count_partitions (p ∷ ps) = do
  n ← elim p.row_count [ some n ↦ ok n | none ↦ do rs ← to_list p.records; ok (length rs) ]
  total ← count_partitions ps
  ok (n + total)

unfoldable pub row_count : Dataset → Result ℕ
unfolding count_partitions
row_count d = count_partitions d.partitions

-- The rows whose position `i`, counted from the first argument, has `i % n` equal to `b`.
unfoldable pub bucket : (i n b : ℕ) → List Record → List Record
bucket i n b [] = []
bucket i n b (r ∷ rs) = let rest = bucket (suc i) n b rs in if (i % n) == b then r ∷ rest else rest

-- The partitions of the buckets from `b` on, `left` of them.
unfoldable pub bucket_partitions : (left n b : ℕ) → Schema → List Record → List Partition
unfolding bucket from_list
bucket_partitions zero n b s rs = []
bucket_partitions (suc left) n b s rs =
    let rows = bucket 0 n b rs in
    record {
      partition_id = b;
      schema = s;
      records = from_list rows;
      row_count = some (length rows);
    }
    ∷ bucket_partitions left n (suc b) s rs

-- Round-robin over `n` partitions.
unfoldable pub repartition : Dataset → ℕ → Result Dataset
unfolding iter_records bucket_partitions
repartition d n =
    let work = do
      rs ← iter_records d
      ok (record { schema = d.schema; partitions = bucket_partitions n n 0 d.schema rs })
    in if ltb n 1 then raise value_error else work

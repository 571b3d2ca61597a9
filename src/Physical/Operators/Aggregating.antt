-- ===== src/Physical/Operators/Aggregating.antt =====
-- The table of a hash aggregation, with its spilling (minispark/physical/operators.py). The number of a
-- spill round, which only names a file, is left out.
use minispark.Common.{
  ℕ, zero, suc, ◌+◌, ◌-◌, leb, String, Bool, true, false, Option, none, some, List, [], ◌∷◌, ◌++◌,
  map, length, if◌then◌else◌, Result, ok, raise, ◌>>=◌, map_result,
}
use minispark.Core.Value.{Value, Record, Host}
use minispark.Core.Schema.{Schema}
use minispark.Core.Dataset.{Rows, done, fail, yield, Partition}
use minispark.Expressions.Syntax.{Expression}
use minispark.Expressions.Repr.{output_name}
use minispark.Expressions.Aggregate.{State, Aggregator}
use minispark.Optimizer.Statistics.{SizeHost}
use minispark.Physical.Spill.{SpillHost, write_spill_file, read_spill_file}
use minispark.Physical.Operators.Joining.{row_key}
use minispark.Shuffle.Partitioner.{KeyHost, hash_partitioner, partition_for}
use minispark.Shuffle.Reader.{append_rows}
use minispark.Physical.Operators.Grouping.{
  aggregate_spill_buckets, Group, unwrap_aggregate, state_value, find_group, set_group, merge_into,
  next_states, group_rows,
}

module _ ⦃py : Host⦄ where
  -- The variables of the loop over the rows. There is a list of spill files for each bucket.
  pub record GroupTable : Type 0 where
    pub groups : List Group
    pub groups_bytes : ℕ
    pub has_spilled : Bool
    pub spill_paths : List (List (List ℕ))

  module _ ⦃memory : SizeHost⦄ ⦃hashing : KeyHost (List Value)⦄ ⦃pickle : SpillHost Group⦄ where
    unfoldable pub sum_sizes : List Value → ℕ
    sum_sizes [] = 0
    sum_sizes (v ∷ vs) = memory.getsizeof v + sum_sizes vs

    unfoldable pub estimate_group_bytes : List Value → List State → ℕ
    unfolding sum_sizes state_value
    estimate_group_bytes key ss = sum_sizes key + sum_sizes (map state_value ss)

    unfoldable pub existing_bytes : List Value → Option (List State) → ℕ
    unfolding estimate_group_bytes
    existing_bytes key none = 0
    existing_bytes key (some ss) = estimate_group_bytes key ss

    -- A group goes to the bucket of this number.
    unfoldable pub add_to_bucket : {A : Type 0} → ℕ → A → List (List A) → List (List A)
    add_to_bucket i a [] = []
    add_to_bucket zero a (b ∷ bs) = (b ++ (a ∷ [])) ∷ bs
    add_to_bucket (suc i) a (b ∷ bs) = b ∷ add_to_bucket i a bs

    unfoldable pub empty_buckets : {A : Type 0} → ℕ → List (List A)
    empty_buckets zero = []
    empty_buckets (suc n) = [] ∷ empty_buckets n

    unfoldable pub split_groups : List Group → List (List Group) → Result (List (List Group))
    unfolding add_to_bucket partition_for
    split_groups [] buckets = ok buckets
    split_groups ((key, ss) ∷ groups) buckets = do
      b ← partition_for (hash_partitioner aggregate_spill_buckets) key
      split_groups groups (add_to_bucket b (key, ss) buckets)

    -- Each bucket that has groups is one more file.
    unfoldable pub add_files : List (List Group) → List (List (List ℕ)) → List (List (List ℕ))
    add_files ([] ∷ buckets) (files ∷ paths) = files ∷ add_files buckets paths
    add_files ((g ∷ gs) ∷ buckets) (files ∷ paths) =
        (files ++ (write_spill_file (g ∷ gs) ∷ [])) ∷ add_files buckets paths
    add_files _ paths = paths

    -- `_spill_groups`, once the threshold is reached.
    unfoldable pub spill_groups : ℕ → GroupTable → Result GroupTable
    unfolding split_groups add_files empty_buckets
    spill_groups threshold t =
        let spilling = do
          buckets ← split_groups t.groups (empty_buckets aggregate_spill_buckets)
          ok (record {
            groups = [];
            groups_bytes = 0;
            has_spilled = true;
            spill_paths = add_files buckets t.spill_paths;
          })
        in if leb threshold t.groups_bytes then spilling else ok t

    unfoldable pub group_record :
        Bool → List Expression → List Aggregator → ℕ → GroupTable → Record → Result GroupTable
    unfolding find_group next_states set_group existing_bytes estimate_group_bytes spill_groups
    group_record is_partial group_by as' threshold t r = do
      key ← row_key group_by r
      ss ← next_states is_partial as' (find_group key t.groups) r
      spill_groups threshold (record {
        groups = set_group key ss t.groups;
        groups_bytes =
            t.groups_bytes
            - existing_bytes key (find_group key t.groups)
            + estimate_group_bytes key ss;
        has_spilled = t.has_spilled;
        spill_paths = t.spill_paths;
      })

    unfoldable pub group_all :
        Bool → List Expression → List Aggregator → ℕ → Rows → GroupTable → Result GroupTable
    unfolding group_record
    group_all is_partial group_by as' threshold done t = ok t
    group_all is_partial group_by as' threshold (fail e) t = raise e
    group_all is_partial group_by as' threshold (yield r rest) t =
        group_record is_partial group_by as' threshold t r
        >>= group_all is_partial group_by as' threshold rest

    unfoldable pub merge_items : List Aggregator → List Group → List Group → Result (List Group)
    unfolding merge_into find_group set_group
    merge_items as' [] groups = ok groups
    merge_items as' ((key, incoming) ∷ items) groups = do
      ss ← merge_into as' (find_group key groups) incoming
      merge_items as' items (set_group key ss groups)

    unfoldable pub merge_files : List Aggregator → List (List ℕ) → List Group → Result (List Group)
    unfolding merge_items
    merge_files as' [] groups = ok groups
    merge_files as' (file ∷ files) groups = do
      items ← read_spill_file file
      merged ← merge_items as' items groups
      merge_files as' files merged

    -- The rows of each bucket: its groups that are still in memory, with those of its files.
    unfoldable pub bucket_rows :
        Bool
        → List String
        → List String
        → List Aggregator
        → List (List (List ℕ))
        → List (List Group)
        → Rows
    unfolding merge_files group_rows append_rows
    bucket_rows is_partial group_names names as' (files ∷ paths) (groups ∷ buckets) =
        let rest = bucket_rows is_partial group_names names as' paths buckets in
        elim (merge_files as' files groups) [
          | ok merged ↦ append_rows (group_rows is_partial group_names names as' merged) rest
          | raise e ↦ fail e
        ]
    bucket_rows is_partial group_names names as' _ _ = done

    unfoldable pub grouped_partition :
        ℕ → Schema → Bool → List String → List String → List Aggregator → GroupTable → Partition
    unfolding group_rows bucket_rows split_groups empty_buckets
    grouped_partition partition_id s is_partial group_names names as' t =
        if t.has_spilled
        then record {
          partition_id = partition_id;
          schema = s;
          records = elim (split_groups t.groups (empty_buckets aggregate_spill_buckets)) [
            | ok buckets ↦ bucket_rows is_partial group_names names as' t.spill_paths buckets
            | raise e ↦ fail e
          ];
          row_count = none;
        }
        else record {
          partition_id = partition_id;
          schema = s;
          records = group_rows is_partial group_names names as' t.groups;
          row_count = some (length t.groups);
        }

    -- `_execute_hash_aggregate_partition`, once the child is executed.
    unfoldable pub execute_hash_aggregate :
        ℕ → Schema → List Expression → List Expression → Bool → ℕ → Partition → Result Partition
    unfolding unwrap_aggregate group_all grouped_partition empty_buckets
    execute_hash_aggregate partition_id s group_by aggregates is_partial threshold parent = do
      as' ← map_result unwrap_aggregate aggregates
      t ← group_all is_partial group_by as' threshold parent.records (record {
        groups = [];
        groups_bytes = 0;
        has_spilled = false;
        spill_paths = empty_buckets aggregate_spill_buckets;
      })
      ok (
          grouped_partition partition_id s is_partial (map (λ g. output_name g) group_by)
            (map (λ a. output_name a) aggregates) as' t)

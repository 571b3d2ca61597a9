-- ===== src/Tests/Shuffle.antt =====
-- Sample rows and hosts for the shuffle, and each of its theorems at one of them.
use minispark.Common.{ℕ, ◌%◌, ◌<◌, arith, Bool, List, [], ◌∷◌, keep_if, ltb, ◌==◌, ◌≡◌, refl, ok}
use minispark.Common.Int.{pos}
use minispark.Core.Value.{int, Record}
use minispark.Core.Dataset.{from_list}
use minispark.Shuffle.Partitioner.{
  KeyHost, range_partitioner, partition_for, make_range_partitioner,
}
use minispark.Shuffle.Partitioner.Bisect.{IsComparable}
use minispark.Shuffle.Partitioner.Range.{partition_for-lt}
use minispark.Shuffle.Writer.{
  PickleHost, Loaded, end_of_file, loaded, Disk, ShuffleBlockMeta, write_shuffle_partition,
}
use minispark.Shuffle.Reader.{read_shuffle_blocks}
use minispark.Shuffle.Manager.{register_blocks, blocks_for, cleanup}
use minispark.Shuffle.Manager.Registering.{blocks_for-register_blocks}
use minispark.Shuffle.Contents.{PickleLaws}
use minispark.Shuffle.RoundTrip.{write_shuffle_partition-read_shuffle_blocks}

-- Numbers as keys.
instance sample_keys : KeyHost ℕ
sample_keys = record { key_bytes = λ k. k ∷ []; md5 = λ b. b; is_less = λ a b. ok (ltb a b) }

abbrev boundaries : List ℕ
boundaries = 10 ∷ []

abbrev key : ℕ
key = 15

comparable : (bs : List ℕ) (k : ℕ) → IsComparable bs k
unfolding sample_keys
comparable bs k j b h = (ltb k b, refl)

-- Boundaries out of order.
abbrev unsorted : List ℕ
unsorted = 20 ∷ 10 ∷ []

built : make_range_partitioner 3 unsorted ≡ ok (range_partitioner 3 unsorted)
unfolding make_range_partitioner
built = refl

partition_for-lt_example :
    (i : ℕ) × (partition_for (range_partitioner 3 unsorted) key ≡ ok i) × (i < 3)
partition_for-lt_example =
    partition_for-lt (range_partitioner 3 unsorted) key built (comparable unsorted key)

-- A format for rows of one column, age.
age_of : Record → ℕ
age_of ((n, int (pos k)) ∷ r) = k
age_of _ = 0

load_age : List ℕ → Loaded
load_age [] = end_of_file
load_age (k ∷ rest) = loaded (("age", int (pos k)) ∷ []) rest

instance pub sample_pickle : PickleHost
sample_pickle = record { dumps = λ r. age_of r ∷ []; load = load_age; hexdigest = λ b. "digest" }

abbrev rows : List Record
rows = (("age", int (pos 1)) ∷ []) ∷ (("age", int (pos 5)) ∷ []) ∷ (("age", int (pos 4)) ∷ []) ∷ []

abbrev parity : Record → ℕ
parity r = age_of r % 2

laws : PickleLaws sample_pickle rows
unfolding sample_pickle load_age age_of
laws = record {
  load_empty = refl;
  load_dumps = ((λ rest. refl), ((λ rest. refl), ((λ rest. refl), tt)));
  dumps_some = λ r. omega arith;
}

write_shuffle_partition-read_shuffle_blocks_example :
    (blocks : List ShuffleBlockMeta) × (after : Disk) × (write_shuffle_partition "tmp" 0 7
        (from_list rows)
        (λ r. ok (parity r))
        []
      ≡ (after, ok blocks))
    × ((t : ℕ) (verify : Bool)
        → read_shuffle_blocks after verify (keep_if (λ b. b.target_partition == t) blocks)
          ≡ from_list (keep_if (λ r. parity r == t) rows))
write_shuffle_partition-read_shuffle_blocks_example =
    write_shuffle_partition-read_shuffle_blocks "tmp" 0 7 parity (λ r. ok (parity r)) rows [] laws
      (refl, (refl, (refl, tt)))

abbrev block : ShuffleBlockMeta
block = record {
  stage_id = 0;
  source_task_id = 7;
  target_partition = 1;
  path = record { root_dir = "tmp"; stage = 0; partition = 1; task = 7 };
  record_count = 2;
  byte_length = 2;
  checksum = "digest";
}

blocks_for-register_blocks_example :
    (blocks_for (register_blocks 0 (block ∷ []) ((0, []) ∷ [])) 0 1
      ≡ keep_if (λ b. b.target_partition == 1) (block ∷ []))
    × (blocks_for (register_blocks 0 (block ∷ []) ((0, []) ∷ [])) 1 1
        ≡ blocks_for ((0, []) ∷ []) 1 1)
blocks_for-register_blocks_example =
    blocks_for-register_blocks 0 1 1 (block ∷ []) ((0, []) ∷ []) refl

-- The cleanup of one query's directory.
cleaned :
    cleanup "a" (
      (record { root_dir = "a"; stage = 0; partition = 0; task = 0 }, [])
      ∷ (record { root_dir = "b"; stage = 0; partition = 0; task = 0 }, 7 ∷ [])
      ∷ [])
    ≡ (record { root_dir = "b"; stage = 0; partition = 0; task = 0 }, 7 ∷ []) ∷ []
unfolding cleanup
cleaned = refl

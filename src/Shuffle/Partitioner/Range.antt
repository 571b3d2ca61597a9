-- ===== src/Shuffle/Partitioner/Range.antt =====
-- A partitioner sends each key to one of its partitions.
use native.Mathlib.Nat.{mod-lt}
use minispark.Common.{ℕ, ◌%◌, ◌<◌, arith, List, length, ◌≡◌, refl, ok}
use minispark.Shuffle.Partitioner.{
  KeyHost, Partitioner, hash_partitioner, range_partitioner, num_partitions, make_hash_partitioner,
  make_range_partitioner, stable_hash, partition_for,
}
use minispark.Shuffle.Partitioner.Bisect.{IsComparable, bisect_right-le}

module _ {Key : Type 0} where
  -- The constructor's checks let it pass.
  abbrev pub IsBuilt : Partitioner Key → Type 0
  IsBuilt (hash_partitioner n) = make_hash_partitioner {Key = Key} n ≡ ok (hash_partitioner n)
  IsBuilt (range_partitioner n bs) = make_range_partitioner n bs ≡ ok (range_partitioner n bs)

hash_positive :
    {Key : Type 0} (n : ℕ) → make_hash_partitioner {Key = Key} n ≡ ok (hash_partitioner n) → 0 < n
unfolding make_hash_partitioner
hash_positive n h = ground arith

range_built :
    {Key : Type 0} (n : ℕ) (bs : List Key)
    → make_range_partitioner n bs ≡ ok (range_partitioner n bs)
    → length bs < n
unfolding make_range_partitioner
range_built n bs h = ground arith

module _ {Key : Type 0} ⦃host : KeyHost Key⦄ where
  -- A range partitioner needs boundaries that compare with the key.
  abbrev pub IsReadyFor : Partitioner Key → Key → Type 0
  IsReadyFor (hash_partitioner n) key = Unit
  IsReadyFor (range_partitioner n bs) key = IsComparable bs key

  -- A partitioner that was built gives a key, which compares with the boundaries if there are any, a
  -- partition below the number of partitions.
  pub partition_for-lt :
      (p : Partitioner Key) (key : Key)
      → IsBuilt p
      → IsReadyFor p key
      → (i : ℕ) × (partition_for p key ≡ ok i) × (i < num_partitions p)
  unfolding partition_for
  partition_for-lt (hash_partitioner n) key h k =
      (stable_hash key % n, refl, mod-lt (stable_hash key) (hash_positive n h))
  partition_for-lt (range_partitioner n bs) key h k =
      let (i, e, l) = bisect_right-le bs key k in (i, e, omega (arith, range_built n bs h, l))

-- ===== src/Shuffle/Partitioner.antt =====
-- minispark/shuffle/partitioner.py: which target partition a key belongs to. The key's bytes
-- (`repr(key).encode("utf-8")`), MD5 and the order of keys belong to Python.
pub mod Bisect
pub mod Range
use minispark.Common.{
  ℕ, zero, suc, ◌+◌, ◌-◌, ◌*◌, ◌/◌, ◌%◌, Bool, true, false, Option, none, some, List, [], ◌∷◌,
  length, get_elem?, if◌then◌else◌, ltb, ◌==◌, Result, ok, raise, ◌>>=◌, value_error, index_error,
}

pub record KeyHost (Key : Type 0) : Type 0 where
  pub key_bytes : Key → List ℕ
  pub md5 : List ℕ → List ℕ
  pub is_less : Key → Key → Result Bool

pub data Partitioner (Key : Type 0) : Type 0 where
  hash_partitioner : (num_partitions : ℕ) → Partitioner Key
  range_partitioner : (num_partitions : ℕ) (boundaries : List Key) → Partitioner Key

abbrev pub num_partitions : {Key : Type 0} → Partitioner Key → ℕ
num_partitions (hash_partitioner n) = n
num_partitions (range_partitioner n bs) = n

-- `int.from_bytes(bytes, byteorder="big")`, after the digits read so far.
unfoldable pub from_bytes : ℕ → List ℕ → ℕ
from_bytes acc [] = acc
from_bytes acc (b ∷ bs) = from_bytes (acc * 256 + b) bs

unfoldable pub take : {A : Type 0} → ℕ → List A → List A
take zero xs = []
take (suc n) [] = []
take (suc n) (x ∷ xs) = x ∷ take n xs

-- In the loop of `bisect_right`: the half of an interval that the comparison with its middle leaves.
unfoldable pub halve : Bool → ℕ → ℕ → ℕ × ℕ
halve true lo hi = (lo, (lo + hi) / 2)
halve false lo hi = ((lo + hi) / 2 + 1, hi)

module _ {Key : Type 0} where
  -- The constructors, with their checks.
  unfoldable pub make_hash_partitioner : ℕ → Result (Partitioner Key)
  make_hash_partitioner n = if ltb n 1 then raise value_error else ok (hash_partitioner n)

  unfoldable pub make_range_partitioner : ℕ → List Key → Result (Partitioner Key)
  make_range_partitioner n bs =
      if ltb n 1
      then raise value_error
      else if length bs == n - 1
      then ok (range_partitioner n bs)
      else raise value_error

  module _ ⦃host : KeyHost Key⦄ where
    unfoldable pub stable_hash : Key → ℕ
    unfolding from_bytes take
    stable_hash key = from_bytes 0 (take 8 (host.md5 (host.key_bytes key)))

    unfoldable pub compare_middle : Option Key → Key → ℕ → ℕ → Result (Option (ℕ × ℕ))
    unfolding halve
    compare_middle none key lo hi = raise index_error
    compare_middle (some b) key lo hi = do below ← host.is_less key b; ok (some (halve below lo hi))

    -- The next interval; `none` where this one is empty.
    unfoldable pub narrow : Bool → List Key → Key → ℕ → ℕ → Result (Option (ℕ × ℕ))
    unfolding compare_middle
    narrow false a key lo hi = ok none
    narrow true a key lo hi = compare_middle (get_elem? a ((lo + hi) / 2)) key lo hi

    -- `bisect_right(a, key)`: the loop of the standard library, on fuel.
    unfoldable pub bisect_loop : ℕ → List Key → Key → ℕ → ℕ → Result ℕ
    unfolding narrow
    bisect_loop zero a key lo hi = ok lo
    bisect_loop (suc fuel) a key lo hi = elim (narrow (ltb lo hi) a key lo hi) [
      | raise e ↦ raise e
      | ok none ↦ ok lo
      | ok (some (l, h)) ↦ bisect_loop fuel a key l h
    ]

    unfoldable pub bisect_right : List Key → Key → Result ℕ
    unfolding bisect_loop
    bisect_right a key = bisect_loop (length a) a key 0 (length a)

    unfoldable pub partition_for : Partitioner Key → Key → Result ℕ
    unfolding stable_hash bisect_right
    partition_for (hash_partitioner n) key = ok (stable_hash key % n)
    partition_for (range_partitioner n bs) key = bisect_right bs key

-- ===== src/Execution/Worker/NullKeys.antt =====
-- A NULL among the sort keys of a range exchange.
use minispark.Common.{
  ℕ, suc, ◌+◌, ◌-◌, ◌/◌, ◌<◌, ltb, arith, String, Bool, true, false, none, some, List, [], ◌∷◌,
  length, ◌≡◌, refl, ap, ◌∙◌, Result, ok, raise, ◌>>=◌, type_error,
}
use minispark.Common.Int.{negsuc}
use minispark.Core.Value.{
  Value, null, int, Record, Host, less, compare_values, both_numbers, compare_others, arithmetic,
  text_arithmetic,
}
use minispark.Expressions.Syntax.{column}
use minispark.Expressions.Evaluate.{get_item, apply_op, evaluate}
use minispark.Optimizer.Statistics.{SizeHost}
use minispark.Physical.Planner.SortRange.{range_key}
use minispark.Physical.Spill.{SpillHost}
use minispark.Physical.Operators.Sorting.{Numbered}
use minispark.Physical.Operators.Grouping.{Group}
use minispark.Shuffle.Partitioner.{
  KeyHost, range_partitioner, make_range_partitioner, halve, compare_middle, narrow, bisect_loop,
  bisect_right, partition_for,
}
use minispark.Shuffle.Partitioner.Bisect.{get_elem?-lt}
use minispark.Shuffle.Writer.{PickleHost}
use minispark.Execution.Worker.{scalar_keys, target_of}

module _ ⦃py : Host⦄ where
  null-compare_values : (b : Value) → compare_values less null b ≡ raise type_error
  unfolding compare_values both_numbers compare_others
  null-compare_values b = refl

  null-range_key :
      (key : String) (r : Record)
      → get_item r key ≡ ok null
      → evaluate (range_key false key) r ≡ raise type_error
  unfolding evaluate apply_op arithmetic both_numbers text_arithmetic
  null-range_key key r h =
      ap (λ m. m >>= λ v. apply_op minispark.Expressions.Syntax.multiply v (int (negsuc 0))) h

module _ ⦃py : Host⦄ ⦃memory : SizeHost⦄ ⦃pickle : PickleHost⦄ ⦃hashing : KeyHost (List Value)⦄
    ⦃sorting : SpillHost Numbered⦄ ⦃grouping : SpillHost Group⦄ where
  null-bisect_right :
      (b : Value) (bs : List Value)
      → bisect_right ⦃host = scalar_keys⦄ (b ∷ bs) null ≡ raise type_error
  unfolding bisect_right bisect_loop narrow compare_middle
  null-bisect_right b bs =
      let (middle, e) = get_elem?-lt (b ∷ bs) ((0 + suc (length bs)) / 2) (omega arith) in
      let inside : ltb 0 (suc (length bs)) ≡ true = ground arith in
      ap
        (λ m. elim m as (λ _. Result ℕ) [
          | raise e ↦ raise e
          | ok none ↦ ok 0
          | ok (some (l, h)) ↦ bisect_loop ⦃host = scalar_keys⦄ (length bs) (b ∷ bs) null l h
        ])
        (ap (λ t. narrow ⦃host = scalar_keys⦄ t (b ∷ bs) null 0 (suc (length bs))) inside
          ∙ ap (λ o. compare_middle ⦃host = scalar_keys⦄ o null 0 (suc (length bs))) e
          ∙ ap (λ c. c >>= λ below. ok (some (halve below 0 (suc (length bs)))))
              (null-compare_values middle))

  range_made :
      (n : ℕ) (bs : List Value)
      → 1 < n
      → length bs ≡ n - 1
      → make_range_partitioner n bs ≡ ok (range_partitioner n bs)
  unfolding make_range_partitioner
  range_made n bs many h = ground arith

  -- A range exchange that has a boundary, ascending or descending, gives no target to a row whose sort
  -- key is NULL: a TypeError.
  pub null-target_of :
      (n : ℕ) (up : Bool) (key : String) (b : Value) (bs : List Value) (r : Record)
      → length (b ∷ bs) ≡ n - 1
      → get_item r key ≡ ok null
      → (target : Record → Result ℕ) × (target_of n (range_key up key ∷ []) (some (b ∷ bs))
          ≡ ok target)
        × (target r ≡ raise type_error)
  unfolding target_of partition_for evaluate
  null-target_of n true key b bs r fits h = (
    λ r.
        evaluate (column key) r
        >>= partition_for ⦃host = scalar_keys⦄ (range_partitioner n (b ∷ bs)),
    ap
        (λ m. m >>= λ p.
          ok (λ r. evaluate (range_key true key) r >>= partition_for ⦃host = scalar_keys⦄ p))
        (range_made n (b ∷ bs) (omega arith) fits),
    ap (λ m. m >>= partition_for ⦃host = scalar_keys⦄ (range_partitioner n (b ∷ bs))) h
        ∙ null-bisect_right b bs,
  )
  null-target_of n false key b bs r fits h = (
    λ r.
        evaluate (range_key false key) r
        >>= partition_for ⦃host = scalar_keys⦄ (range_partitioner n (b ∷ bs)),
    ap
        (λ m. m >>= λ p.
          ok (λ r. evaluate (range_key false key) r >>= partition_for ⦃host = scalar_keys⦄ p))
        (range_made n (b ∷ bs) (omega arith) fits),
    ap (λ m. m >>= partition_for ⦃host = scalar_keys⦄ (range_partitioner n (b ∷ bs)))
        (null-range_key key r h),
  )

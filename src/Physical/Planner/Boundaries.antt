-- ===== src/Physical/Planner/Boundaries.antt =====
-- The boundaries of a range exchange fit the partitioner that the worker makes of them.
use minispark.Common.{
  ℕ, zero, suc, ◌-◌, ◌≤◌, leb, Bool, true, false, ◌||◌, none, some, List, [], ◌∷◌, length, ◌≡◌,
  refl, ap, sym, ◌∙◌, subst, ok, ◌>>=◌, >>=-eq-ok, ok-injective, arith, String, if◌then◌else◌,
}
use minispark.Core.Value.{Value, Host, plus, minus, times, arithmetic, divide, values_equal, int}
use minispark.Common.Int.{pos}
use minispark.Core.Schema.{Schema}
use minispark.Optimizer.Statistics.{SizeHost, ColumnStatistics, compute_statistics}
use minispark.Expressions.Evaluate.{is_null_value}
use minispark.Physical.Plan.{PhysicalPlan}
use minispark.Physical.Operators.{execute_whole_dataset}
use minispark.Physical.Planner.SortRange.{
  RangeChoice, sign_of, column_stats, replicate_value, sort_two, boundaries_from, cut_range,
  signed_range, observed_range, single_partition, range_choice, sort_range_boundaries,
}
use minispark.Shuffle.Partitioner.{range_partitioner, make_range_partitioner}

length-replicate_value : (n : ℕ) (v : Value) → length (replicate_value n v) ≡ n
unfolding replicate_value
length-replicate_value zero v = refl
length-replicate_value (suc n) v = ap suc (length-replicate_value n v)

-- No boundaries, or one less than the partitions, of which there is one at least.
abbrev Fits : RangeChoice → Type 0
Fits c = elim c.boundaries [
  | some bs ↦ (1 ≤ c.num_partitions) × (length bs ≡ c.num_partitions - 1)
  | none ↦ Unit
]

module _ ⦃py : Host⦄ where
  length-boundaries_from :
      (count i : ℕ) (lo step : Value) {bs : List Value}
      → boundaries_from count i lo step ≡ ok bs
      → length bs ≡ count
  unfolding boundaries_from
  length-boundaries_from zero i lo step h = ap length (sym (ok-injective h))
  length-boundaries_from (suc count) i lo step h =
      let (o, e₁, h₁) = >>=-eq-ok (arithmetic times step (int (pos i))) _ h in
      let (b, e₂, h₂) = >>=-eq-ok (arithmetic plus lo o) _ h₁ in
      let (bs, e₃, h₃) = >>=-eq-ok (boundaries_from count (suc i) lo step) _ h₂ in
      ap length (sym (ok-injective h₃)) ∙ ap suc (length-boundaries_from count (suc i) lo step e₃)

  length-cut_range :
      (n : ℕ) (lo hi : Value) {bs : List Value} → cut_range n lo hi ≡ ok bs → length bs ≡ n - 1
  unfolding cut_range
  length-cut_range n lo hi h = go (values_equal lo hi) h
    where
      go :
          (same : Bool) {bs : List Value}
          → (if same
              then ok (replicate_value (n - 1) hi)
              else (arithmetic minus hi lo >>= λ width.
                  divide width (int (pos n)) >>= λ step. boundaries_from (n - 1) 1 lo step))
            ≡ ok bs
          → length bs ≡ n - 1
      go true h = ap length (sym (ok-injective h)) ∙ length-replicate_value (n - 1) hi
      go false h =
          let (w, e₁, h₁) = >>=-eq-ok (arithmetic minus hi lo) _ h in
          let (s, e₂, h₂) = >>=-eq-ok (divide w (int (pos n))) _ h₁ in
          length-boundaries_from (n - 1) 1 lo s h₂

  signed_range-Fits :
      (key : String) (up : Bool) (n : ℕ) (a b : Value) {c : RangeChoice}
      → 1 ≤ n
      → signed_range key up n a b ≡ ok c
      → Fits c
  unfolding signed_range
  signed_range-Fits key up n a b many h =
      let (x, e₁, h₁) = >>=-eq-ok (arithmetic times (int (sign_of up)) a) _ h in
      let (y, e₂, h₂) = >>=-eq-ok (arithmetic times (int (sign_of up)) b) _ h₁ in
      let (ends, e₃, h₃) = >>=-eq-ok (sort_two x y) _ h₂ in
      let (bs, e₄, h₄) = >>=-eq-ok (cut_range n ends.0 ends.1) _ h₃ in
      subst Fits (ok-injective h₄) (many, length-cut_range n ends.0 ends.1 e₄)

  range_choice-Fits :
      (key : String) (up : Bool) (n : ℕ) (stats : ColumnStatistics) {c : RangeChoice}
      → 1 ≤ n
      → range_choice key up n stats ≡ ok c
      → Fits c
  unfolding range_choice
  range_choice-Fits key up n stats many h =
      go (is_null_value stats.min_value || is_null_value stats.max_value) h
    where
      go :
          (unknown : Bool) {c : RangeChoice}
          → (if unknown
              then ok (single_partition key)
              else signed_range key up n stats.min_value stats.max_value)
            ≡ ok c
          → Fits c
      go true h = subst Fits (ok-injective h) tt
      go false h = signed_range-Fits key up n stats.min_value stats.max_value many h

  Fits-make_range_partitioner :
      (c : RangeChoice) {bs : List Value}
      → Fits c
      → c.boundaries ≡ some bs
      → make_range_partitioner c.num_partitions bs ≡ ok (range_partitioner c.num_partitions bs)
  unfolding make_range_partitioner
  Fits-make_range_partitioner c h e = ground arith

  module _ ⦃memory : SizeHost⦄ where
    observed_range-Fits :
        (child : PhysicalPlan) (key : String) (up : Bool) (n : ℕ) {c : RangeChoice}
        → 1 ≤ n
        → observed_range child key up n ≡ ok c
        → Fits c
    unfolding observed_range
    observed_range-Fits child key up n many h =
        let (d, e₁, h₁) = >>=-eq-ok (execute_whole_dataset child) _ h in
        let (stats, e₂, h₂) = >>=-eq-ok (compute_statistics d (some (key ∷ []))) _ h₁ in
        let (c, e₃, h₃) = >>=-eq-ok (column_stats key stats.columns) _ h₂ in
        range_choice-Fits key up n c many h₃

    sort_range_boundaries-Fits :
        (child : PhysicalPlan) (key : String) (up : Bool) (s : Schema) (n : ℕ) {c : RangeChoice}
        → sort_range_boundaries child key up s n ≡ ok c
        → Fits c
    unfolding sort_range_boundaries
    sort_range_boundaries-Fits child key up s n h = go (leb n 1) refl _ h
      where
        go :
            (few : Bool)
            → leb n 1 ≡ few
            → (other : Bool) {c : RangeChoice}
            → (if few || other then ok (single_partition key) else observed_range child key up n)
              ≡ ok c
            → Fits c
        go true e other h = subst Fits (ok-injective h) tt
        go false e true h = subst Fits (ok-injective h) tt
        go false e false h = observed_range-Fits child key up n (ground arith) h

    -- The boundaries that the planner chooses for a range exchange pass the checks of the range
    -- partitioner that is built from them.
    pub sort_range_boundaries-make_range_partitioner :
        (child : PhysicalPlan) (key : String) (up : Bool) (s : Schema) (n : ℕ) {c : RangeChoice}
        {bs : List Value}
        → sort_range_boundaries child key up s n ≡ ok c
        → c.boundaries ≡ some bs
        → make_range_partitioner c.num_partitions bs ≡ ok (range_partitioner c.num_partitions bs)
    sort_range_boundaries-make_range_partitioner child key up s n {c} h e =
        Fits-make_range_partitioner c (sort_range_boundaries-Fits child key up s n h) e

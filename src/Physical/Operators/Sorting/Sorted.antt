-- ===== src/Physical/Operators/Sorting/Sorted.antt =====
-- Sorting rows by keys that are ints or NULL.
use minispark.Common.{
  Bool, true, false, List, [], ◌∷◌, map, All, length, ◌≡◌, refl, ap, ap₂, sym, ◌∙◌, subst, ok,
  ◌>>=◌, arith, ◌⊎◌, inl, inr, ok-injective, negb, if◌then◌else◌,
}
use mathlib.Core.List.{Perm}
use minispark.Common.Int.{ℤ, pos, ltb_ℤ}
use minispark.Core.Value.{
  Value, null, int, Host, values_equal, compare_values, both_numbers, numbers_equal,
  compare_numbers, compare_ints,
}
use minispark.Expressions.Evaluate.{evaluate, is_null_value}
use minispark.Expressions.Syntax.{Expression}
use minispark.Physical.Operators.Sorting.{
  Numbered, SortKey, null_last_sort_key, less_or_equal, key_less, comes_before, sort_pass,
  sort_rows,
}
use minispark.Physical.Operators.Sorting.Ordered.{
  InOrder, stable_sort-All, stable_sort-InOrder, stable_sort-total,
}
use minispark.Physical.Operators.Sorting.Keys.{
  Keyed, IsIntKey, HasInt, with_key-Keyed, with_key-IsIntKey, comes_before-Compares,
  comes_before-IsAsymmetric, sort_rows-Perm,
}

module _ {A B : Type 0} (P : B → Type 0) (f : A → B) where
  All-from_map : (xs : List A) → All P (map f xs) → All (λ x. P (f x)) xs
  All-from_map [] h = tt
  All-from_map (x ∷ xs) h = (h.0, All-from_map xs h.1)

  All-to_map : (xs : List A) → All (λ x. P (f x)) xs → All P (map f xs)
  All-to_map [] h = tt
  All-to_map (x ∷ xs) h = (h.0, All-to_map xs h.1)

module _ ⦃py : Host⦄ where
  -- The first value may stand in front of the second: NULLs are last, and ints do not fall, or do not
  -- rise where the order is descending.
  abbrev pub NotAfter : Bool → Value → Value → Type 0
  NotAfter up v null = Unit
  NotAfter true (int a) (int b) = ltb_ℤ b a ≡ false
  NotAfter false (int a) (int b) = ltb_ℤ a b ≡ false
  NotAfter up _ _ = ⊥

  -- Neighbours have values in order.
  abbrev pub RowsInOrder : Expression → Bool → List Numbered → Type 0
  RowsInOrder e up [] = Unit
  RowsInOrder e up (x ∷ []) = Unit
  RowsInOrder e up (x ∷ y ∷ rows) =
      ((v : Value) × (w : Value) × (evaluate e x.1 ≡ ok v)
        × (evaluate e y.1 ≡ ok w)
        × NotAfter up v w)
      × RowsInOrder e up (y ∷ rows)

  -- The key that a value gives.
  abbrev key_of : Bool → Value → SortKey
  key_of up v = (
    (if up then is_null_value v else negb (is_null_value v)),
    (if is_null_value v then int (pos 0) else v),
  )

  abbrev IsInt : Value → Type 0
  IsInt v = (v ≡ null) ⊎ ((z : ℤ) × (v ≡ int z))

  ints_NotAfter :
      (up : Bool) (a b : ℤ) (x y : Numbered)
      → comes_before up (key_of up (int b), y) (key_of up (int a), x) ≡ ok false
      → NotAfter up (int a) (int b)
  unfolding comes_before key_less less_or_equal values_equal compare_values both_numbers
      numbers_equal compare_numbers compare_ints
  ints_NotAfter true a b x y h = ground arith
  ints_NotAfter false a b x y h = ground arith

  null_first :
      (up : Bool) (b : ℤ) (x y : Numbered)
      → comes_before up (key_of up (int b), y) (key_of up null, x) ≡ ok false
      → ⊥
  unfolding comes_before key_less
  null_first true b x y h = absurd (ground arith)
  null_first false b x y h = absurd (ground arith)

  comes_before-NotAfter :
      (up : Bool) (v w : Value) (x y : Numbered)
      → IsInt v
      → IsInt w
      → comes_before up (key_of up w, y) (key_of up v, x) ≡ ok false
      → NotAfter up v w
  comes_before-NotAfter up v w x y i (inl q) h = subst (NotAfter up v) (sym q) tt
  comes_before-NotAfter up v w x y (inl p) (inr (b, q)) h = absurd (
      null_first up b x y (
        subst (λ v. comes_before up (key_of up (int b), y) (key_of up v, x) ≡ ok false) p
          (subst (λ w. comes_before up (key_of up w, y) (key_of up v, x) ≡ ok false) q h)))
  comes_before-NotAfter up v w x y (inr (a, p)) (inr (b, q)) h =
      subst (λ v. NotAfter up v w) (sym p)
        (subst (NotAfter up (int a)) (sym q) (
          ints_NotAfter up a b x y (
            subst (λ v. comes_before up (key_of up (int b), y) (key_of up v, x) ≡ ok false) p
              (subst (λ w. comes_before up (key_of up w, y) (key_of up v, x) ≡ ok false) q h))))

  key_of-Keyed :
      (e : Expression) (up : Bool) (k : SortKey × Numbered) {v : Value}
      → Keyed e up k
      → evaluate e k.1.1 ≡ ok v
      → k.0 ≡ key_of up v
  unfolding null_last_sort_key
  key_of-Keyed e up k {v} h i = ok-injective (sym h ∙ ap (λ m. m >>= λ v. ok (key_of up v)) i)

  InOrder-RowsInOrder :
      (e : Expression) (up : Bool) (keyed : List (SortKey × Numbered))
      → All (λ k. HasInt e k.1) keyed
      → All (Keyed e up) keyed
      → InOrder (comes_before up) keyed
      → RowsInOrder e up (map (λ k. k.1) keyed)
  InOrder-RowsInOrder e up [] i h o = tt
  InOrder-RowsInOrder e up (x ∷ []) i h o = tt
  InOrder-RowsInOrder e up (x ∷ y ∷ keyed) i h o =
      let (v, e₁, iv) = i.0 in
      let (w, e₂, iw) = i.1.0 in
      let p = key_of-Keyed e up x h.0 e₁ in
      let q = key_of-Keyed e up y h.1.0 e₂ in
      (
        (
          v,
          w,
          e₁,
          e₂,
          comes_before-NotAfter up v w x.1 y.1 iv iw
              (sym (ap₂ (λ k l. comes_before up (l, y.1) (k, x.1)) p q) ∙ o.0),
        ),
        InOrder-RowsInOrder e up (y ∷ keyed) i.1 h.1 o.1,
      )

  -- One pass: it gives a list in order, whose rows have what all the rows had.
  sort_pass-RowsInOrder :
      (e : Expression) (up : Bool) (P : Numbered → Type 0) (rows : List Numbered)
      → All (HasInt e) rows
      → All P rows
      → (out : List Numbered) × (sort_pass e up rows ≡ ok out) × RowsInOrder e up out × All P out
  unfolding sort_pass
  sort_pass-RowsInOrder e up P rows ints ps =
      let (keyed, e₁, keys) = with_key-IsIntKey e up rows ints in
      let (same, all_keyed) = with_key-Keyed e up rows e₁ in
      let (sorted, e₂) =
        stable_sort-total (comes_before up) IsIntKey keyed (comes_before-Compares up) keys in
      (
        map (λ k. k.1) sorted,
        rw (sort_pass, e₁, e₂) refl,
        InOrder-RowsInOrder e up sorted
            (stable_sort-All (comes_before up) (λ k. HasInt e k.1) keyed e₂
              (All-from_map (HasInt e) (λ k. k.1) keyed (subst (All (HasInt e)) (sym same) ints)))
            (stable_sort-All (comes_before up) (Keyed e up) keyed e₂ all_keyed)
            (stable_sort-InOrder (comes_before up) IsIntKey keyed (comes_before-IsAsymmetric up)
              keys e₂),
        All-to_map P (λ k. k.1) sorted
            (stable_sort-All (comes_before up) (λ k. P k.1) keyed e₂
              (All-from_map P (λ k. k.1) keyed (subst (All P) (sym same) ps))),
      )

  -- All the sort keys have ints or NULLs on a row.
  abbrev pub HasInts : List Expression → Numbered → Type 0
  HasInts [] row = Unit
  HasInts (e ∷ es) row = HasInt e row × HasInts es row

  All-first :
      (e : Expression) (es : List Expression) (rows : List Numbered)
      → All (HasInts (e ∷ es)) rows
      → All (HasInt e) rows × All (HasInts es) rows
  All-first e es [] h = (tt, tt)
  All-first e es (r ∷ rows) h =
      let (a, b) = All-first e es rows h.1 in let (x, y) = h.0 in ((x, a), (y, b))

  sort_rows-All :
      (es : List Expression) (ups : List Bool) (P : Numbered → Type 0) (rows : List Numbered)
      → length es ≡ length ups
      → All (HasInts es) rows
      → All P rows
      → (out : List Numbered) × (sort_rows rows es ups ≡ ok out) × All P out
  unfolding sort_rows
  sort_rows-All [] [] P rows h ints ps = (rows, refl, ps)
  sort_rows-All (e ∷ es) (up ∷ ups) P rows h ints ps =
      let (first, others) = All-first e es rows ints in
      let (later, e₁, q) =
        sort_rows-All es ups (λ r. HasInt e r × P r) rows (omega arith) others
          (pair rows first ps) in
      let (a, b) = unpair later q in
      let (out, e₂, _, c) = sort_pass-RowsInOrder e up P later a b in
      (out, ap (λ m. m >>= sort_pass e up) e₁ ∙ e₂, c)
    where
      pair :
          (rows : List Numbered)
          → All (HasInt e) rows
          → All P rows
          → All (λ r. HasInt e r × P r) rows
      pair [] a b = tt
      pair (r ∷ rows) a b = ((a.0, b.0), pair rows a.1 b.1)

      unpair :
          (rows : List Numbered)
          → All (λ r. HasInt e r × P r) rows
          → All (HasInt e) rows × All P rows
      unpair [] q = (tt, tt)
      unpair (r ∷ rows) q = let (a, b) = unpair rows q.1 in let (x, y) = q.0 in ((x, a), (y, b))
  sort_rows-All [] (up ∷ ups) P rows h ints ps = absurd (omega arith)
  sort_rows-All (e ∷ es) [] P rows h ints ps = absurd (omega arith)

  -- Rows on which every sort key is an int or NULL are sorted without an exception: the result is a
  -- permutation of the rows, in the order of the first key, ascending or descending, with NULLs last.
  pub sort_rows-RowsInOrder :
      (e : Expression) (es : List Expression) (up : Bool) (ups : List Bool) (rows : List Numbered)
      → length es ≡ length ups
      → All (HasInts (e ∷ es)) rows
      → (out : List Numbered) × (sort_rows rows (e ∷ es) (up ∷ ups) ≡ ok out)
        × Perm out rows
        × RowsInOrder e up out
  unfolding sort_rows
  sort_rows-RowsInOrder e es up ups rows h ints =
      let (first, others) = All-first e es rows ints in
      let (later, e₁, a) = sort_rows-All es ups (HasInt e) rows h others first in
      let (out, e₂, ordered, _) =
        sort_pass-RowsInOrder e up (HasInts []) later a (anything later) in
      let sorted : sort_rows rows (e ∷ es) (up ∷ ups) ≡ ok out =
        ap (λ m. m >>= sort_pass e up) e₁ ∙ e₂ in
      (out, sorted, sort_rows-Perm rows (e ∷ es) (up ∷ ups) sorted, ordered)
    where
      anything : (rows : List Numbered) → All (HasInts []) rows
      anything [] = tt
      anything (r ∷ rows) = (tt, anything rows)

-- ===== src/Expressions/Aggregate/Partial.antt =====
-- Partial aggregation: a group's rows in two parts, each with a state of its own, and the merge.
use minispark.Common.{
  ◌+◌, arith, List, [], ◌∷◌, ◌++◌, All, ◌≡◌, refl, sym, ap, ap₂, ok-injective, ◌∙◌, subst, Result,
  ok, raise, ◌>>=◌,
}
use minispark.Common.Int.{pos, ◌+ℤ◌, +ℤ_assoc, +ℤ-zero, zero-+ℤ}
use minispark.Core.Value.{
  Value, null, int, Host, arithmetic, number_arithmetic, both_numbers, int_arithmetic,
}
use minispark.Expressions.Syntax.{AggregateFunction, count, sum, avg, min, max}
use minispark.Expressions.Aggregate.{
  State, counted, running, totalled, initialize, add_value, update_value, merge_sums, merge,
}

-- The functions whose states add up.
abbrev pub IsAdditive : AggregateFunction → Type 0
IsAdditive count = Unit
IsAdditive sum = Unit
IsAdditive avg = Unit
IsAdditive _ = ⊥

-- A column value that is an int or NULL.
abbrev pub IsWhole : Value → Type 0
IsWhole null = Unit
IsWhole (int z) = Unit
IsWhole _ = ⊥

-- The states that such values lead to.
abbrev IsState : AggregateFunction → State → Type 0
IsState count (counted n) = Unit
IsState sum (running v) = IsWhole v
IsState avg (totalled (int z) n) = Unit
IsState _ _ = ⊥

module _ ⦃py : Host⦄ where
  -- The rows of one part, from a state on.
  unfoldable pub update_all : AggregateFunction → State → List Value → Result State
  unfolding update_value
  update_all f s [] = ok s
  update_all f s (v ∷ vs) = update_value f s v >>= λ s'. update_all f s' vs

  -- One more value is the merge with the state of that value alone.
  step :
      (f : AggregateFunction) (s : State) (v : Value)
      → IsAdditive f
      → IsState f s
      → IsWhole v
      → (u s' : State) × (update_value f (initialize f) v ≡ ok u)
        × (update_value f s v ≡ ok s')
        × (merge f s u ≡ ok s')
        × IsState f u
        × IsState f s'
  unfolding update_value initialize merge merge_sums add_value arithmetic number_arithmetic
      both_numbers int_arithmetic
  step count (counted n) null a h w =
      (counted 0, counted n, refl, refl, ap (λ k. ok (counted k)) (omega arith), tt, tt)
  step count (counted n) (int z) a h w = (counted 1, counted (n + 1), refl, refl, refl, tt, tt)
  step sum (running null) null a h w = (running null, running null, refl, refl, refl, tt, tt)
  step sum (running null) (int z) a h w =
      (running (int z), running (int z), refl, refl, refl, tt, tt)
  step sum (running (int x)) null a h w = (running null, running (int x), refl, refl, refl, tt, tt)
  step sum (running (int x)) (int z) a h w =
      (running (int z), running (int (x +ℤ z)), refl, refl, refl, tt, tt)
  step avg (totalled (int x) n) null a h w = (
    totalled (int (pos 0)) 0,
    totalled (int x) n,
    refl,
    refl,
    ap₂ (λ y k. ok (totalled (int y) k)) (+ℤ-zero x) (omega arith),
    tt,
    tt,
  )
  step avg (totalled (int x) n) (int z) a h w = (
    totalled (int (pos 0 +ℤ z)) 1,
    totalled (int (x +ℤ z)) (n + 1),
    refl,
    refl,
    ap (λ y. ok (totalled (int (x +ℤ y)) (n + 1))) (zero-+ℤ z),
    tt,
    tt,
  )
  step _ _ _ a h w = absurd (ground arith)

  -- Merging is associative.
  merge_assoc :
      (f : AggregateFunction) (s u t : State)
      → IsAdditive f
      → IsState f s
      → IsState f u
      → IsState f t
      → (x y : State) × (merge f s u ≡ ok x)
        × (merge f u t ≡ ok y)
        × (merge f x t ≡ merge f s y)
        × IsState f y
  unfolding merge merge_sums arithmetic number_arithmetic both_numbers int_arithmetic
  merge_assoc count (counted a) (counted b) (counted c) i h k l =
      (counted (a + b), counted (b + c), refl, refl, ap (λ n. ok (counted n)) (omega arith), tt)
  merge_assoc sum (running null) (running null) (running c) i h k l =
      (running null, running c, refl, refl, refl, l)
  merge_assoc sum (running null) (running (int b)) (running null) i h k l =
      (running (int b), running (int b), refl, refl, refl, tt)
  merge_assoc sum (running null) (running (int b)) (running (int c)) i h k l =
      (running (int b), running (int (b +ℤ c)), refl, refl, refl, tt)
  merge_assoc sum (running (int a)) (running null) (running null) i h k l =
      (running (int a), running null, refl, refl, refl, tt)
  merge_assoc sum (running (int a)) (running null) (running (int c)) i h k l =
      (running (int a), running (int c), refl, refl, refl, tt)
  merge_assoc sum (running (int a)) (running (int b)) (running null) i h k l =
      (running (int (a +ℤ b)), running (int b), refl, refl, refl, tt)
  merge_assoc sum (running (int a)) (running (int b)) (running (int c)) i h k l = (
    running (int (a +ℤ b)),
    running (int (b +ℤ c)),
    refl,
    refl,
    ap (λ n. ok (running (int n))) (+ℤ_assoc a b c),
    tt,
  )
  merge_assoc avg (totalled (int a) m) (totalled (int b) n) (totalled (int c) o) i h k l = (
    totalled (int (a +ℤ b)) (m + n),
    totalled (int (b +ℤ c)) (n + o),
    refl,
    refl,
    ap₂ (λ y k. ok (totalled (int y) k)) (+ℤ_assoc a b c) (omega arith),
    tt,
  )
  merge_assoc _ _ _ _ i h k l = absurd search

  merge-initialize :
      (f : AggregateFunction) (s : State)
      → IsAdditive f
      → IsState f s
      → merge f s (initialize f) ≡ ok s
  unfolding merge merge_sums initialize arithmetic number_arithmetic both_numbers int_arithmetic
  merge-initialize count (counted n) a h = ap (λ k. ok (counted k)) (omega arith)
  merge-initialize sum (running null) a h = refl
  merge-initialize sum (running (int z)) a h = refl
  merge-initialize avg (totalled (int z) n) a h =
      ap₂ (λ y k. ok (totalled (int y) k)) (+ℤ-zero z) (omega arith)
  merge-initialize _ _ a h = absurd (omega arith)

  initialize-IsState : (f : AggregateFunction) → IsAdditive f → IsState f (initialize f)
  unfolding initialize
  initialize-IsState count a = tt
  initialize-IsState sum a = tt
  initialize-IsState avg a = tt
  initialize-IsState min a = absurd a
  initialize-IsState max a = absurd a

  -- Going on from a state is merging it with the state of what is left.
  update_all-merge :
      (f : AggregateFunction) (s : State) (vs : List Value)
      → IsAdditive f
      → IsState f s
      → All IsWhole vs
      → (u s' : State) × (update_all f (initialize f) vs ≡ ok u)
        × (update_all f s vs ≡ ok s')
        × (merge f s u ≡ ok s')
        × IsState f u
  unfolding update_all
  update_all-merge f s [] a h w =
      (initialize f, s, refl, refl, merge-initialize f s a h, initialize-IsState f a)
  update_all-merge f s (v ∷ vs) a h w =
      let (u₁, s₁, e₁, e₂, e₃, k, l) = step f s v a h w.0 in
      let (u₂, s₂, p₁, p₂, p₃, i) = update_all-merge f s₁ vs a l w.1 in
      let (u₃, y, q₁, q₂, q₃, j) = update_all-merge f u₁ vs a k w.1 in
      let (x, y', r₁, r₂, r₃, m) = merge_assoc f s u₁ u₂ a h k i in
      let same : u₃ ≡ u₂ = ok-injective (sym q₁ ∙ p₁) in
      let same_y : y' ≡ y = ok-injective (sym r₂ ∙ (ap (merge f u₁) (sym same) ∙ q₃)) in
      let same_x : x ≡ s₁ = ok-injective (sym r₁ ∙ e₃) in
      (
        y,
        s₂,
        ap (λ n. n >>= λ t. update_all f t vs) e₁ ∙ q₂,
        ap (λ n. n >>= λ t. update_all f t vs) e₂ ∙ p₂,
        ap (merge f s) (sym same_y) ∙ (sym r₃ ∙ (ap (λ z. merge f z u₂) same_x ∙ p₃)),
        subst (IsState f) same_y m,
      )

  update_all-append :
      (f : AggregateFunction) (s : State) (xs ys : List Value)
      → update_all f s (xs ++ ys) ≡ (update_all f s xs >>= λ s'. update_all f s' ys)
  unfolding update_all
  update_all-append f s [] ys = refl
  update_all-append f s (x ∷ xs) ys = go (update_value f s x) (λ s'. update_all-append f s' xs ys)
    where
      go :
          (m : Result State)
          → ((s' : State)
              → update_all f s' (xs ++ ys) ≡ (update_all f s' xs >>= λ t. update_all f t ys))
          → (m >>= λ s'. update_all f s' (xs ++ ys))
            ≡ ((m >>= λ s'. update_all f s' xs) >>= λ s'. update_all f s' ys)
      go (ok t) h = h t
      go (raise e) h = refl

  -- For Count, Sum and Avg over ints and NULLs, updating through a group's values raises nothing, and
  -- the state of all of them is the merge of the states of any two parts, in order.
  pub merge-update_all :
      (f : AggregateFunction) (xs ys : List Value)
      → IsAdditive f
      → All IsWhole xs
      → All IsWhole ys
      → (a b whole : State) × (update_all f (initialize f) xs ≡ ok a)
        × (update_all f (initialize f) ys ≡ ok b)
        × (update_all f (initialize f) (xs ++ ys) ≡ ok whole)
        × (merge f a b ≡ ok whole)
  merge-update_all f xs ys i wx wy =
      let (a, _, p, _, _, h) = update_all-merge f (initialize f) xs i (initialize-IsState f i) wx in
      let (b, whole, q, r, e, _) = update_all-merge f a ys i h wy in
      (
        a,
        b,
        whole,
        p,
        q,
        update_all-append f (initialize f) xs ys ∙ (ap (λ m. m >>= λ s'. update_all f s' ys) p ∙ r),
        e,
      )

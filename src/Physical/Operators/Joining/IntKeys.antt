-- ===== src/Physical/Operators/Joining/IntKeys.antt =====
-- Keys of ints: their equality is symmetric and transitive.
use minispark.Common.{
  Bool, true, false, ◌&&◌, List, [], ◌∷◌, map, ◌≡◌, refl, ap, ap₂, sym, ◌∙◌, arith, ok, and_left,
  and_right,
}
use minispark.Common.Int.{ℤ, eqb_ℤ}
use minispark.Core.Value.{Value, int, Record, Host, values_equal, both_numbers, numbers_equal}
use minispark.Expressions.Syntax.{Expression}
use minispark.Physical.Operators.Joining.{keys_equal, row_key}

module _ ⦃py : Host⦄ where
  -- A key of ints.
  abbrev pub IntKey : List Value → Type 0
  IntKey k = (zs : List ℤ) × (k ≡ map int zs)

  -- The key expressions have ints on the row.
  abbrev pub HasIntKey : List Expression → Record → Type 0
  HasIntKey es r = (k : List Value) × (row_key es r ≡ ok k) × IntKey k

  abbrev ints_equal : List ℤ → List ℤ → Bool
  ints_equal [] [] = true
  ints_equal (y ∷ ys) (z ∷ zs) = eqb_ℤ y z && ints_equal ys zs
  ints_equal _ _ = false

  keys_equal-ints : (ys zs : List ℤ) → keys_equal (map int ys) (map int zs) ≡ ints_equal ys zs
  unfolding keys_equal values_equal both_numbers numbers_equal
  keys_equal-ints [] [] = refl
  keys_equal-ints [] (z ∷ zs) = refl
  keys_equal-ints (y ∷ ys) [] = refl
  keys_equal-ints (y ∷ ys) (z ∷ zs) = ap (λ b. eqb_ℤ y z && b) (keys_equal-ints ys zs)

  eqb_ℤ-swap : (y z : ℤ) → eqb_ℤ y z ≡ eqb_ℤ z y
  eqb_ℤ-swap y z = ground arith

  eqb_ℤ-congruent : (x y z : ℤ) → eqb_ℤ x y ≡ true → eqb_ℤ x z ≡ eqb_ℤ y z
  eqb_ℤ-congruent x y z h = ground arith

  ints_equal-swap : (ys zs : List ℤ) → ints_equal ys zs ≡ ints_equal zs ys
  ints_equal-swap [] [] = refl
  ints_equal-swap [] (z ∷ zs) = refl
  ints_equal-swap (y ∷ ys) [] = refl
  ints_equal-swap (y ∷ ys) (z ∷ zs) = ap₂ (λ a b. a && b) (eqb_ℤ-swap y z) (ints_equal-swap ys zs)

  ints_equal-congruent :
      (xs ys zs : List ℤ) → ints_equal xs ys ≡ true → ints_equal xs zs ≡ ints_equal ys zs
  ints_equal-congruent [] [] zs h = refl
  ints_equal-congruent [] (y ∷ ys) zs h = cc
  ints_equal-congruent (x ∷ xs) [] zs h = cc
  ints_equal-congruent (x ∷ xs) (y ∷ ys) [] h = refl
  ints_equal-congruent (x ∷ xs) (y ∷ ys) (z ∷ zs) h =
      ap₂ (λ a b. a && b) (eqb_ℤ-congruent x y z (and_left (eqb_ℤ x y) (ints_equal xs ys) h))
        (ints_equal-congruent xs ys zs (and_right (eqb_ℤ x y) (ints_equal xs ys) h))

  pub keys_equal-swap : (k l : List Value) → IntKey k → IntKey l → keys_equal k l ≡ keys_equal l k
  keys_equal-swap k l (ys, p) (zs, q) =
      ap₂ keys_equal p q
      ∙ keys_equal-ints ys zs
      ∙ ints_equal-swap ys zs
      ∙ sym (ap₂ keys_equal q p ∙ keys_equal-ints zs ys)

  pub keys_equal-congruent :
      (k l j : List Value)
      → IntKey k
      → IntKey l
      → IntKey j
      → keys_equal k l ≡ true
      → keys_equal k j ≡ keys_equal l j
  keys_equal-congruent k l j (xs, p) (ys, q) (zs, s) h =
      ap₂ keys_equal p s
      ∙ keys_equal-ints xs zs
      ∙ ints_equal-congruent xs ys zs (sym (ap₂ keys_equal p q ∙ keys_equal-ints xs ys) ∙ h)
      ∙ sym (ap₂ keys_equal q s ∙ keys_equal-ints ys zs)

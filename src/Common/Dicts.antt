-- ===== src/Common/Dicts.antt =====
-- Python dicts with int keys, as lists of their items in the order of insertion, and sets of ints.
use Prim.Native.Nat.{ℕ}
use mathlib.Core.Path.{◌≡◌, subst}
use mathlib.Core.Logic.{inl, inr}
use native.Mathlib.Omega.{arith}
use mathlib.Core.Bool.{Bool, true, false, ◌||◌}
use mathlib.Core.List.{List, [], ◌∷◌}
use mathlib.Core.Option.{Option, none, some}
use minispark.Common.Lists.{All}
use minispark.Common.Tests.{Bool-cases, ◌==◌, if◌then◌else◌}

-- `i in ids`.
unfoldable pub mem_id : ℕ → List ℕ → Bool
mem_id i [] = false
mem_id i (j ∷ js) = (i == j) || mem_id i js

-- `ids.add(i)`.
unfoldable pub add_id : ℕ → List ℕ → List ℕ
unfolding mem_id
add_id i ids = if mem_id i ids then ids else i ∷ ids

module _ {A : Type 0} where
  -- `items[i] = a`.
  unfoldable pub set_item : ℕ → A → List (ℕ × A) → List (ℕ × A)
  set_item i a [] = (i, a) ∷ []
  set_item i a ((j, b) ∷ rest) =
      let later = set_item i a rest in if j == i then (j, a) ∷ rest else (j, b) ∷ later

  -- `items.get(i)`.
  unfoldable pub find_item : ℕ → List (ℕ × A) → Option A
  find_item i [] = none
  find_item i ((j, b) ∷ rest) = let later = find_item i rest in if j == i then some b else later

  pub find_item-set_item :
      (i : ℕ) (a : A) (d : List (ℕ × A)) → find_item i (set_item i a d) ≡ some a
  unfolding find_item set_item
  find_item-set_item i a [] = ground arith
  find_item-set_item i a ((j, b) ∷ rest) = let later = find_item-set_item i a rest in ground arith

  -- A key that is in the dict stays in it.
  pub find_item-set_item_other :
      (i j : ℕ) (a : A) (d : List (ℕ × A)) {b : A}
      → find_item j d ≡ some b
      → (c : A) × (find_item j (set_item i a d) ≡ some c)
  unfolding find_item set_item
  find_item-set_item_other i j a [] h = absurd (ground arith)
  find_item-set_item_other i j a ((k, b) ∷ rest) {b = d} h = elim (Bool-cases (k == i)) [
    | inl p ↦ elim (Bool-cases (k == j)) [ inl q ↦ (a, ground arith) | inr q ↦ (d, ground arith) ]
    | inr p ↦ elim (Bool-cases (k == j)) [
      | inl q ↦ (b, ground arith)
      | inr q ↦
          let before : find_item j rest ≡ some d = ground arith in
          let (c, after) = find_item-set_item_other i j a rest before in (c, ground arith)
    ]
  ]

  -- What holds of an item that is found.
  pub find_item-All :
      (P : A → Type 0) (i : ℕ) (d : List (ℕ × A)) {a : A}
      → All (λ item. P item.1) d
      → find_item i d ≡ some a
      → P a
  unfolding find_item
  find_item-All P i [] h e = absurd (ground arith)
  find_item-All P i ((j, b) ∷ rest) {a} h e =
      found (j == i) e (λ later. find_item-All P i rest h.1 later)
    where
      found :
          (same : Bool)
          → (if same then some b else find_item i rest) ≡ some a
          → (find_item i rest ≡ some a → P a)
          → P a
      found true e later = subst P (cc) h.0
      found false e later = later e

  pub set_item-All :
      (P : A → Type 0) (i : ℕ) (a : A) (d : List (ℕ × A))
      → P a
      → All (λ item. P item.1) d
      → All (λ item. P item.1) (set_item i a d)
  unfolding set_item
  set_item-All P i a [] p h = (p, tt)
  set_item-All P i a ((j, b) ∷ rest) p h = replace (j == i) (set_item-All P i a rest p h.1)
    where
      replace :
          (same : Bool)
          → All (λ item. P item.1) (set_item i a rest)
          → All (λ item. P item.1) (if same then (j, a) ∷ rest else (j, b) ∷ set_item i a rest)
      replace true later = (p, h.1)
      replace false later = (h.0, later)

-- ===== src/Physical/Operators/Sorting/Keys.antt =====
-- `_sort_rows` gives the rows again, ordered by the first key, with the NULLs last.
use minispark.Common.{
  Bool, true, false, List, [], ◌∷◌, map, All, ◌≡◌, refl, ap, ap₂, sym, ◌∙◌, subst, ◌⊎◌, inl, inr,
  arith, ok, >>=-eq-ok, ok-injective, map_result, negb, if◌then◌else◌,
}
use mathlib.Core.List.{Perm}
use mathlib.Core.List.Perm
use minispark.Common.Int.{ℤ, pos, ltb_ℤ, eqb_ℤ}
use minispark.Core.Value.{
  Value, null, int, Host, values_equal, compare_values, both_numbers, numbers_equal,
  compare_numbers, compare_ints,
}
use minispark.Expressions.Syntax.{Expression}
use minispark.Expressions.Evaluate.{evaluate, is_null_value}
use minispark.Physical.Operators.Sorting.{
  Numbered, SortKey, stable_sort, null_last_sort_key, less_or_equal, key_less, comes_before,
  with_key, sort_pass, sort_rows,
}
use minispark.Physical.Operators.Sorting.Ordered.{stable_sort-Perm}

module _ ⦃py : Host⦄ where
  -- The key that a row was given.
  abbrev pub Keyed : Expression → Bool → SortKey × Numbered → Type 0
  Keyed e up k = null_last_sort_key e up k.1.1 ≡ ok k.0

  pub with_key-Keyed :
      (e : Expression) (up : Bool) (rows : List Numbered) {keyed : List (SortKey × Numbered)}
      → map_result (with_key e up) rows ≡ ok keyed
      → (map (λ k. k.1) keyed ≡ rows) × All (Keyed e up) keyed
  unfolding with_key
  with_key-Keyed e up [] h =
      subst (λ ks. (map (λ k. k.1) ks ≡ []) × All (Keyed e up) ks) (ok-injective h) (refl, tt)
  with_key-Keyed e up (r ∷ rows) h =
      let (kr, e₁, h₁) = >>=-eq-ok (with_key e up r) _ h in
      let (k, e₂, h₂) = >>=-eq-ok (null_last_sort_key e up r.1) _ e₁ in
      let (ks, e₃, h₃) = >>=-eq-ok (map_result (with_key e up) rows) _ h₁ in
      let (same, all_keyed) = with_key-Keyed e up rows e₃ in
      let head : (k, r) ≡ kr = ok-injective h₂ in
      subst (λ ks. (map (λ k. k.1) ks ≡ r ∷ rows) × All (Keyed e up) ks) (ok-injective h₃)
        (
          ap (λ x. x.1 ∷ map (λ k. k.1) ks) (sym head) ∙ ap (λ l. r ∷ l) same,
          (subst (Keyed e up) head e₂, all_keyed),
        )

  -- What a pass gives: the keyed rows in order, of which it drops the keys.
  sort_pass-Keyed :
      (e : Expression) (up : Bool) (rows : List Numbered) {out : List Numbered}
      → sort_pass e up rows ≡ ok out
      → (keyed sorted : List (SortKey × Numbered)) × (map (λ k. k.1) keyed ≡ rows)
        × All (Keyed e up) keyed
        × (stable_sort (comes_before up) keyed ≡ ok sorted)
        × (map (λ k. k.1) sorted ≡ out)
  unfolding sort_pass
  sort_pass-Keyed e up rows h =
      let (keyed, e₁, h₁) = >>=-eq-ok (map_result (with_key e up) rows) _ h in
      let (sorted, e₂, h₂) = >>=-eq-ok (stable_sort (comes_before up) keyed) _ h₁ in
      let (same, all_keyed) = with_key-Keyed e up rows e₁ in
      (keyed, sorted, same, all_keyed, e₂, ok-injective h₂)

  sort_pass-Perm :
      (e : Expression) (up : Bool) (rows : List Numbered) {out : List Numbered}
      → sort_pass e up rows ≡ ok out
      → Perm out rows
  sort_pass-Perm e up rows {out} h =
      let (keyed, sorted, same, _, e₁, dropped) = sort_pass-Keyed e up rows h in
      subst (λ l. Perm l rows) dropped
        (subst (λ l. Perm (map (λ k. k.1) sorted) l) same
          (Perm.map (λ k. k.1) (stable_sort-Perm (comes_before up) keyed e₁)))

  pub sort_rows-Perm :
      (rows : List Numbered) (es : List Expression) (ups : List Bool) {out : List Numbered}
      → sort_rows rows es ups ≡ ok out
      → Perm out rows
  unfolding sort_rows
  sort_rows-Perm rows [] [] h = subst (λ l. Perm l rows) (ok-injective h) Perm.rfl
  sort_rows-Perm rows (e ∷ es) (up ∷ ups) h =
      let (later, e₁, h₁) = >>=-eq-ok (sort_rows rows es ups) _ h in
      Perm.trans (sort_pass-Perm e up later h₁) (sort_rows-Perm rows es ups e₁)
  sort_rows-Perm rows [] (up ∷ ups) h = absurd (ground arith)
  sort_rows-Perm rows (e ∷ es) [] h = absurd (ground arith)

  -- A key of an int or of NULL.
  abbrev pub IsIntKey : SortKey × Numbered → Type 0
  IsIntKey k = (z : ℤ) × (k.0.1 ≡ int z)

  key_less-asymmetric :
      (f g : Bool) (y z : ℤ)
      → key_less (f, int y) (g, int z) ≡ ok true
      → key_less (g, int z) (f, int y) ≡ ok false
  unfolding key_less less_or_equal values_equal compare_values both_numbers numbers_equal
      compare_numbers compare_ints
  key_less-asymmetric true true y z h = ground arith
  key_less-asymmetric false false y z h = ground arith
  key_less-asymmetric false true y z h = refl
  key_less-asymmetric true false y z h = absurd (ground arith)

  key_less-total : (f g : Bool) (y z : ℤ) → (r : Bool) × (key_less (f, int y) (g, int z) ≡ ok r)
  unfolding key_less less_or_equal values_equal compare_values both_numbers numbers_equal
      compare_numbers compare_ints
  key_less-total true true y z = (if eqb_ℤ y z then false else ltb_ℤ y z, ground arith)
  key_less-total false false y z = (if eqb_ℤ y z then false else ltb_ℤ y z, ground arith)
  key_less-total false true y z = (true, refl)
  key_less-total true false y z = (false, refl)

  pub comes_before-Compares :
      (up : Bool) (a b : SortKey × Numbered)
      → IsIntKey a
      → IsIntKey b
      → (r : Bool) × (comes_before up a b ≡ ok r)
  unfolding comes_before
  comes_before-Compares true ((f, v), x) ((g, w), y) (m, p) (n, q) =
      let (r, e) = key_less-total f g m n in (r, ap₂ (λ v w. key_less (f, v) (g, w)) p q ∙ e)
  comes_before-Compares false ((f, v), x) ((g, w), y) (m, p) (n, q) =
      let (r, e) = key_less-total g f n m in (r, ap₂ (λ v w. key_less (g, w) (f, v)) p q ∙ e)

  pub comes_before-IsAsymmetric :
      (up : Bool) (a b : SortKey × Numbered)
      → IsIntKey a
      → IsIntKey b
      → comes_before up a b ≡ ok true
      → comes_before up b a ≡ ok false
  unfolding comes_before
  comes_before-IsAsymmetric true ((f, v), x) ((g, w), y) (m, p) (n, q) h =
      ap₂ (λ v w. key_less (g, w) (f, v)) p q
      ∙ key_less-asymmetric f g m n (sym (ap₂ (λ v w. key_less (f, v) (g, w)) p q) ∙ h)
  comes_before-IsAsymmetric false ((f, v), x) ((g, w), y) (m, p) (n, q) h =
      ap₂ (λ v w. key_less (f, v) (g, w)) p q
      ∙ key_less-asymmetric g f n m (sym (ap₂ (λ v w. key_less (g, w) (f, v)) p q) ∙ h)

  -- The expression has an int or NULL on the row.
  abbrev pub HasInt : Expression → Numbered → Type 0
  HasInt e row = (v : Value) × (evaluate e row.1 ≡ ok v) × ((v ≡ null) ⊎ ((z : ℤ) × (v ≡ int z)))

  pub with_key-IsIntKey :
      (e : Expression) (up : Bool) (rows : List Numbered)
      → All (HasInt e) rows
      → (keyed : List (SortKey × Numbered)) × (map_result (with_key e up) rows ≡ ok keyed)
        × All IsIntKey keyed
  unfolding with_key null_last_sort_key
  with_key-IsIntKey e up [] h = ([], refl, tt)
  with_key-IsIntKey e up (r ∷ rows) h =
      let (v, e₁, kind) = h.0 in
      let (keyed, e₂, ints) = with_key-IsIntKey e up rows h.1 in
      let k : SortKey = (
        (if up then is_null_value v else negb (is_null_value v)),
        (if is_null_value v then int (pos 0) else v),
      ) in
      ((k, r) ∷ keyed, rw (with_key, null_last_sort_key, e₁, e₂) refl, (int_key v kind, ints))
    where
      int_key :
          (v : Value)
          → ((v ≡ null) ⊎ ((z : ℤ) × (v ≡ int z)))
          → (z : ℤ) × ((if is_null_value v then int (pos 0) else v) ≡ int z)
      int_key v (inl p) = (pos 0, ap (λ v. if is_null_value v then int (pos 0) else v) p)
      int_key v (inr (z, p)) = (z, ap (λ v. if is_null_value v then int (pos 0) else v) p)

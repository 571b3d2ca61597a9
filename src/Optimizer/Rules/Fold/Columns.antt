-- ===== src/Optimizer/Rules/Fold/Columns.antt =====
-- What constant folding does to the columns of a projection: values and fields.
use minispark.Common.{
  String, List, [], ◌∷◌, All, All₂, ◌≡◌, refl, sym, ap, Result, ok, raise, ◌>>=◌, >>=-eq-ok,
  ok-injective, subst, OnOk, OnOk-bind, OnOk-value, false,
}
use minispark.Core.Value.{Value, Host}
use minispark.Core.Schema.{Schema}
use minispark.Expressions.Syntax.{
  Expression, column, literal, alias, binary, not, is_null, is_not_null, is_column, BinaryOp,
}
use minispark.Expressions.Evaluate.{apply_op}
use minispark.Expressions.Repr.{output_name}
use minispark.Logical.Nodes.{output_field, output_fields, column_field}
use minispark.Optimizer.Rules.Fold.{fold, fold_binary, fold_not, fold_is_null, fold_is_not_null}
use minispark.Optimizer.Rules.Fold.Values.{FoldsTo, fold-FoldsTo}
use minispark.Execution.Executor.Equality.{SameValues}

-- An expression whose output name is written in the plan: an alias or a plain column. The name of
-- any other expression is its printed form, which folding changes.
abbrev pub HasName : Expression → Type 0
HasName (column n) = Unit
HasName (alias e n) = Unit
HasName _ = ⊥

module _ ⦃py : Host⦄ where
  abbrev IsOther : Expression → Type 0
  IsOther e = is_column e ≡ false

  column_field-IsOther :
      (name : String) (e e' : Expression) (s : Schema)
      → IsOther e
      → IsOther e'
      → column_field name e' s ≡ column_field name e s
  unfolding column_field is_column
  column_field-IsOther name (column n) e' s h k = cc
  column_field-IsOther name e (column n) s h k = cc
  column_field-IsOther name _ _ s h k = refl

  literal_IsOther : (m : Result Value) → OnOk IsOther (m >>= λ u. ok (literal u))
  unfolding is_column
  literal_IsOther (ok u) = refl
  literal_IsOther (raise x) = tt

  fold_binary-IsOther : (op : BinaryOp) (a b : Expression) → OnOk IsOther (fold_binary op a b)
  unfolding fold_binary is_column
  fold_binary-IsOther op (literal v) (literal w) = literal_IsOther (apply_op op v w)
  fold_binary-IsOther op _ _ = refl

  fold_unary-IsOther :
      (f : Expression → Expression) (m : Result Expression)
      → ((e : Expression) → IsOther (f e))
      → OnOk IsOther (m >>= λ e. ok (f e))
  fold_unary-IsOther f m h = OnOk-bind (λ e. Unit) IsOther m _ (any_value m) (λ e _. h e)
    where
      any_value : (m : Result Expression) → OnOk (λ e. Unit) m
      any_value (ok e) = tt
      any_value (raise x) = tt

  fold_not-IsOther : (e : Expression) → IsOther (fold_not e)
  unfolding fold_not is_column
  fold_not-IsOther (literal v) = refl
  fold_not-IsOther _ = refl

  fold_is_null-IsOther : (e : Expression) → IsOther (fold_is_null e)
  unfolding fold_is_null is_column
  fold_is_null-IsOther (literal v) = refl
  fold_is_null-IsOther _ = refl

  fold_is_not_null-IsOther : (e : Expression) → IsOther (fold_is_not_null e)
  unfolding fold_is_not_null is_column
  fold_is_not_null-IsOther (literal v) = refl
  fold_is_not_null-IsOther _ = refl

  -- Folding leaves a column as it is, and makes none of another expression.
  fold-IsOther : (e : Expression) → IsOther e → OnOk IsOther (fold e)
  unfolding fold is_column
  fold-IsOther (column n) h = h
  fold-IsOther (binary op l r) h = binary_IsOther (fold l) (fold r)
    where
      binary_IsOther :
          (m n : Result Expression) → OnOk IsOther (m >>= λ a. n >>= λ b. fold_binary op a b)
      binary_IsOther (ok a) (ok b) = fold_binary-IsOther op a b
      binary_IsOther (ok a) (raise x) = tt
      binary_IsOther (raise x) n = tt
  fold-IsOther (alias e n) h = fold_unary-IsOther (λ x. alias x n) (fold e) (λ x. refl)
  fold-IsOther (not e) h = fold_unary-IsOther fold_not (fold e) fold_not-IsOther
  fold-IsOther (is_null e) h = fold_unary-IsOther fold_is_null (fold e) fold_is_null-IsOther
  fold-IsOther (is_not_null e) h =
      fold_unary-IsOther fold_is_not_null (fold e) fold_is_not_null-IsOther
  fold-IsOther _ h = refl

  fold-column_field :
      (name : String) (e : Expression) {e' : Expression} (s : Schema)
      → fold e ≡ ok e'
      → column_field name e' s ≡ column_field name e s
  unfolding fold is_column
  fold-column_field name (column n) s h = ap (λ x. column_field name x s) (sym (ok-injective h))
  fold-column_field name e {e'} s h =
      column_field-IsOther name e e' s refl (OnOk-value IsOther (fold-IsOther e refl) h)

  -- A folded column of a projection with a name of its own: the same values and the same field.
  abbrev pub SameColumn : Expression → Expression → Type 0
  SameColumn e e' =
      HasName e → SameValues e e' × ((s : Schema) → output_field e' s ≡ output_field e s)

  pub fold-SameValues : (e e' : Expression) → fold e ≡ ok e' → SameValues e e'
  fold-SameValues e e' h = subst (FoldsTo e) h (fold-FoldsTo e)

  alias_SameColumn :
      (e e' : Expression) (n : String) {e₁ : Expression} (s : Schema)
      → fold e ≡ ok e₁
      → alias e₁ n ≡ e'
      → output_field e' s ≡ output_field (alias e n) s
  unfolding output_field output_name
  alias_SameColumn e e' n s p q =
      subst (λ x. output_field x s ≡ output_field (alias e n) s) q (fold-column_field n e s p)

  pub fold-SameColumn : (e e' : Expression) → fold e ≡ ok e' → SameColumn e e'
  unfolding fold
  fold-SameColumn (column n) e' h name =
      (fold-SameValues (column n) e' h, λ s. ap (λ x. output_field x s) (sym (ok-injective h)))
  fold-SameColumn (alias e n) e' h name =
      let (e₁, p, q) = >>=-eq-ok (fold e) _ h in
      (fold-SameValues (alias e n) e' h, λ s. alias_SameColumn e e' n s p (ok-injective q))
  fold-SameColumn e e' h name = absurd name

  pub columns_SameValues :
      (es es' : List Expression) → All HasName es → All₂ SameColumn es es' → All₂ SameValues es es'
  columns_SameValues [] [] named h = tt
  columns_SameValues (e ∷ es) (e' ∷ es') named h =
      ((h.0 named.0).0, columns_SameValues es es' named.1 h.1)
  columns_SameValues [] (e' ∷ es') named h = absurd h
  columns_SameValues (e ∷ es) [] named h = absurd h

  pub columns_output_fields :
      (es es' : List Expression) (m : Result Schema)
      → All HasName es
      → All₂ SameColumn es es'
      → output_fields es' m ≡ output_fields es m
  unfolding output_fields
  columns_output_fields [] [] m named h = refl
  columns_output_fields (e ∷ es) (e' ∷ es') (ok s) named h =
      rw ((h.0 named.0).1 s, columns_output_fields es es' (ok s) named.1 h.1)
  columns_output_fields (e ∷ es) (e' ∷ es') (raise x) named h = refl
  columns_output_fields [] (e' ∷ es') m named h = absurd h
  columns_output_fields (e ∷ es) [] m named h = absurd h

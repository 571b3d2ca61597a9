-- ===== src/Optimizer/Rules/Fold/Values.antt =====
-- What constant folding does to the value of an expression on a row.
use minispark.Common.{◌≡◌, refl, sym, ◌∙◌, ap, Result, ok, raise, ◌>>=◌, Exception}
use minispark.Core.Value.{Value, Record, Host}
use minispark.Expressions.Syntax.{
  BinaryOp, Expression, literal, alias, binary, not, is_null, is_not_null,
}
use minispark.Expressions.Evaluate.{evaluate, apply_op}
use minispark.Optimizer.Rules.Fold.{fold, fold_binary, fold_not, fold_is_null, fold_is_not_null}

abbrev pub Raises {ℓ} : {A : Type ℓ} → Result A → Type ℓ
Raises m = (x : Exception) × (m ≡ raise x)

module _ ⦃py : Host⦄ where
  -- What a result of folding says about the original: the same outcome on every row, or else the
  -- original raises on every row.
  abbrev pub FoldsTo : Expression → Result Expression → Type 0
  FoldsTo e (ok e') = (r : Record) → evaluate e' r ≡ evaluate e r
  FoldsTo e (raise x) = (r : Record) → Raises (evaluate e r)

  Raises-bind :
      {A B : Type 0} (m : Result A) (f : A → Result B) → ((a : A) → Raises (f a)) → Raises (m >>= f)
  Raises-bind (ok a) f h = h a
  Raises-bind (raise x) f h = (x, refl)

  Raises-bind_left : {A B : Type 0} (m : Result A) (f : A → Result B) → Raises m → Raises (m >>= f)
  Raises-bind_left m f (x, p) = (x, rw p)

  binary_literals :
      (op : BinaryOp) (v w : Value) (m : Result Value)
      → apply_op op v w ≡ m
      → FoldsTo (binary op (literal v) (literal w)) (m >>= λ u. ok (literal u))
  unfolding evaluate
  binary_literals op v w (ok u) p = λ r. sym p
  binary_literals op v w (raise x) p = λ r. (x, p)

  fold_binary-FoldsTo :
      (op : BinaryOp) (a b : Expression) → FoldsTo (binary op a b) (fold_binary op a b)
  unfolding fold_binary
  fold_binary-FoldsTo op (literal v) (literal w) = binary_literals op v w (apply_op op v w) refl
  fold_binary-FoldsTo op _ _ = λ r. refl

  -- The outcome speaks about any expression with the same values.
  FoldsTo-trans :
      (e e₁ : Expression) (m : Result Expression)
      → ((r : Record) → evaluate e₁ r ≡ evaluate e r)
      → FoldsTo e₁ m
      → FoldsTo e m
  FoldsTo-trans e e₁ (ok e') same h = λ r. h r ∙ same r
  FoldsTo-trans e e₁ (raise x) same h = λ r. rw (← same r) (h r)

  evaluate-binary :
      (op : BinaryOp) (a a' b b' : Expression) (r : Record)
      → evaluate a' r ≡ evaluate a r
      → evaluate b' r ≡ evaluate b r
      → evaluate (binary op a' b') r ≡ evaluate (binary op a b) r
  unfolding evaluate
  evaluate-binary op a a' b b' r p q = rw (p, q)

  FoldsTo-binary :
      (op : BinaryOp) (a b : Expression) (ra rb : Result Expression)
      → FoldsTo a ra
      → FoldsTo b rb
      → FoldsTo (binary op a b) (ra >>= λ a'. rb >>= λ b'. fold_binary op a' b')
  unfolding evaluate
  FoldsTo-binary op a b (ok a') (ok b') ha hb =
      FoldsTo-trans (binary op a b) (binary op a' b') (fold_binary op a' b')
        (λ r. evaluate-binary op a a' b b' r (ha r) (hb r)) (fold_binary-FoldsTo op a' b')
  FoldsTo-binary op a b (ok a') (raise x) ha hb =
      λ r. Raises-bind (evaluate a r) _ (λ v. Raises-bind_left (evaluate b r) _ (hb r))
  FoldsTo-binary op a b (raise x) rb ha hb = λ r. Raises-bind_left (evaluate a r) _ (ha r)

  evaluate-fold_not : (e : Expression) (r : Record) → evaluate (fold_not e) r ≡ evaluate (not e) r
  unfolding fold_not evaluate
  evaluate-fold_not (literal v) r = refl
  evaluate-fold_not _ r = refl

  evaluate-fold_is_null :
      (e : Expression) (r : Record) → evaluate (fold_is_null e) r ≡ evaluate (is_null e) r
  unfolding fold_is_null evaluate
  evaluate-fold_is_null (literal v) r = refl
  evaluate-fold_is_null _ r = refl

  evaluate-fold_is_not_null :
      (e : Expression) (r : Record) → evaluate (fold_is_not_null e) r ≡ evaluate (is_not_null e) r
  unfolding fold_is_not_null evaluate
  evaluate-fold_is_not_null (literal v) r = refl
  evaluate-fold_is_not_null _ r = refl

  -- A node with one child that evaluates its child and goes on with the value.
  FoldsTo-unary :
      (node : Expression → Expression) (rebuild : Expression → Expression)
      (use_value : Value → Result Value)
      → ((e : Expression) (r : Record) → evaluate (node e) r ≡ (evaluate e r >>= use_value))
      → ((e : Expression) (r : Record) → evaluate (rebuild e) r ≡ evaluate (node e) r)
      → (e : Expression) (m : Result Expression) → FoldsTo e m
      → FoldsTo (node e) (m >>= λ e'. ok (rebuild e'))
  FoldsTo-unary node rebuild use_value runs same e (ok e') h =
      λ r. same e' r ∙ (runs e' r ∙ (ap (λ m. m >>= use_value) (h r) ∙ sym (runs e r)))
  FoldsTo-unary node rebuild use_value runs same e (raise x) h =
      λ r. rw (runs e r) (Raises-bind_left (evaluate e r) use_value (h r))

  bind-ok : {A : Type 0} (m : Result A) → m ≡ (m >>= λ v. ok v)
  bind-ok (ok a) = refl
  bind-ok (raise x) = refl

  -- A folded expression has, on every row, the value of the original or raises the same exception;
  -- where folding itself raises, the original raises on every row.
  pub fold-FoldsTo : (e : Expression) → FoldsTo e (fold e)
  unfolding fold evaluate
  fold-FoldsTo (binary op a b) =
      FoldsTo-binary op a b (fold a) (fold b) (fold-FoldsTo a) (fold-FoldsTo b)
  fold-FoldsTo (alias e n) =
      FoldsTo-unary (λ x. alias x n) (λ x. alias x n) (λ v. ok v) (λ x r. bind-ok (evaluate x r))
        (λ x r. refl) e (fold e) (fold-FoldsTo e)
  fold-FoldsTo (not e) =
      FoldsTo-unary not fold_not _ (λ x r. refl) evaluate-fold_not e (fold e) (fold-FoldsTo e)
  fold-FoldsTo (is_null e) =
      FoldsTo-unary is_null fold_is_null _ (λ x r. refl) evaluate-fold_is_null e (fold e)
        (fold-FoldsTo e)
  fold-FoldsTo (is_not_null e) =
      FoldsTo-unary is_not_null fold_is_not_null _ (λ x r. refl) evaluate-fold_is_not_null e
        (fold e) (fold-FoldsTo e)
  fold-FoldsTo _ = λ r. refl

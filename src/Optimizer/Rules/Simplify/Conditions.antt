-- ===== src/Optimizer/Rules/Simplify/Conditions.antt =====
-- Filter simplification keeps the truth of a condition, and not the value of an expression.
use minispark.Common.{
  String, Bool, true, false, ◌&&◌, ◌||◌, ◌≡◌, refl, sym, ap, ap₂, ◌∙◌, negb, Bool-cases, inl, inr,
  ok, >>=-eq-ok, ok-injective,
}
use minispark.Core.Value.{Value, bool, Record, Host, truthy}
use minispark.Expressions.Syntax.{BinaryOp, and, or, Expression, literal, alias, binary, not}
use minispark.Expressions.Evaluate.{evaluate, apply_op}
use minispark.Execution.Executor.Congruence.{SameTest}
use minispark.Optimizer.Rules.Simplify.{
  simplify_not, simplify_and, simplify_or, simplify_binary, simplify_bool,
}

abbrev pub is_connective : BinaryOp → Bool
is_connective and = true
is_connective or = true
is_connective _ = false

-- No AND, OR or NOT in the part of the tree that the rule walks.
abbrev pub IsPlain : Expression → Type 0
IsPlain (binary op l r) = (is_connective op ≡ false) × IsPlain l × IsPlain r
IsPlain (not e) = ⊥
IsPlain (alias e n) = IsPlain e
IsPlain _ = Unit

-- AND, OR and NOT stand only above the comparisons and the other tests, never below one.
abbrev pub IsCondition : Expression → Type 0
IsCondition (binary and l r) = IsCondition l × IsCondition r
IsCondition (binary or l r) = IsCondition l × IsCondition r
IsCondition (binary _ l r) = IsPlain l × IsPlain r
IsCondition (not e) = IsCondition e
IsCondition (alias e n) = IsCondition e
IsCondition _ = Unit

and-true : (b : Bool) → b && true ≡ b
and-true true = refl
and-true false = refl

and-false : (b : Bool) → b && false ≡ false
and-false true = refl
and-false false = refl

or-true : (b : Bool) → b || true ≡ true
or-true true = refl
or-true false = refl

or-false : (b : Bool) → b || false ≡ b
or-false true = refl
or-false false = refl

double_negation : (b : Bool) → b ≡ negb (negb b)
double_negation true = refl
double_negation false = refl

module _ ⦃py : Host⦄ where
  simplify_binary-plain :
      (op : BinaryOp) (l r : Expression)
      → is_connective op ≡ false
      → simplify_binary op l r ≡ binary op l r
  unfolding simplify_binary
  simplify_binary-plain and l r h = cc
  simplify_binary-plain or l r h = cc
  simplify_binary-plain _ l r h = refl

  pub simplify_bool-IsPlain : (e : Expression) → IsPlain e → simplify_bool e ≡ e
  unfolding simplify_bool
  simplify_bool-IsPlain (binary op l r) h =
      rw (simplify_bool-IsPlain l h.1, simplify_bool-IsPlain r h.2)
        (simplify_binary-plain op l r h.0)
  simplify_bool-IsPlain (alias e n) h = ap (λ x. alias x n) (simplify_bool-IsPlain e h)
  simplify_bool-IsPlain (not e) h = absurd h
  simplify_bool-IsPlain _ h = refl

  SameTest-trans : (a b c : Expression) → SameTest a b → SameTest b c → SameTest a c
  SameTest-trans a b c h k r v e =
      let (w, p, t) = h r v e in let (u, q, t') = k r w p in (u, q, t' ∙ t)

  SameTest-alias :
      (e e' : Expression) (n : String) → SameTest e e' → SameTest (alias e n) (alias e' n)
  unfolding evaluate
  SameTest-alias e e' n same = same

  apply_and : (a b : Value) → apply_op and a b ≡ ok (bool (truthy a && truthy b))
  unfolding apply_op
  apply_and a b = refl

  apply_or : (a b : Value) → apply_op or a b ≡ ok (bool (truthy a || truthy b))
  unfolding apply_op
  apply_or a b = refl

  SameTest-refl : (e : Expression) → SameTest e e
  SameTest-refl e r v h = (v, h, refl)

  -- A connective whose operands test the same tests the same.
  SameTest-connective :
      (op : BinaryOp) (f : Bool → Bool → Bool)
      → ((a b : Value) → apply_op op a b ≡ ok (bool (f (truthy a) (truthy b))))
      → (l l' r r' : Expression) → SameTest l l'
      → SameTest r r'
      → SameTest (binary op l r) (binary op l' r')
  unfolding evaluate
  SameTest-connective op f runs l l' r r' hl hr rec v h =
      let (a, p, h₁) = >>=-eq-ok (evaluate l rec) _ h in
      let (b, q, h₂) = >>=-eq-ok (evaluate r rec) _ h₁ in
      let (a', p', t) = hl rec a p in
      let (b', q', u) = hr rec b q in
      let same : bool (f (truthy a) (truthy b)) ≡ v = ok-injective (sym (runs a b) ∙ h₂) in
      (bool (f (truthy a') (truthy b')), rw (p', q') (runs a' b'), ap₂ f t u ∙ ap truthy same)

  -- The value of a connective with a literal operand that decides it, or that leaves it open.
  left_literal :
      (op : BinaryOp) (w : Value) (e : Expression) (rec : Record) {v : Value}
      → evaluate (binary op (literal w) e) rec ≡ ok v
      → (u : Value) × (evaluate e rec ≡ ok u) × (apply_op op w u ≡ ok v)
  unfolding evaluate
  left_literal op w e rec h = >>=-eq-ok (evaluate e rec) _ h

  right_literal :
      (op : BinaryOp) (w : Value) (e : Expression) (rec : Record) {v : Value}
      → evaluate (binary op e (literal w)) rec ≡ ok v
      → (u : Value) × (evaluate e rec ≡ ok u) × (apply_op op u w ≡ ok v)
  unfolding evaluate
  right_literal op w e rec h = >>=-eq-ok (evaluate e rec) _ h

  -- The truth of what AND and OR give.
  truthy-and : (a b : Value) {v : Value} → apply_op and a b ≡ ok v → truthy v ≡ truthy a && truthy b
  unfolding apply_op
  truthy-and a b h = sym (ap truthy (ok-injective h))

  truthy-or : (a b : Value) {v : Value} → apply_op or a b ≡ ok v → truthy v ≡ truthy a || truthy b
  unfolding apply_op
  truthy-or a b h = sym (ap truthy (ok-injective h))

  simplify_and-SameTest : (l r : Expression) → SameTest (binary and l r) (simplify_and l r)
  unfolding simplify_and evaluate
  simplify_and-SameTest (literal w) r rec v h =
      let (u, p, q) = left_literal and w r rec h in
      elim (Bool-cases (truthy w)) [
        | inl is_true ↦ rw is_true (u, p, sym (truthy-and w u q ∙ ap (λ b. b && truthy u) is_true))
        | inr is_false ↦
            rw is_false
              (bool false, refl, sym (truthy-and w u q ∙ ap (λ b. b && truthy u) is_false))
      ]
  simplify_and-SameTest l (literal w) rec v h =
      let (u, p, q) = right_literal and w l rec h in
      elim (Bool-cases (truthy w)) [
        | inl is_true ↦
            rw is_true (
              u,
              p,
              sym (truthy-and u w q ∙ (ap (λ b. truthy u && b) is_true ∙ and-true (truthy u))),
            )
        | inr is_false ↦ rw is_false (
          bool false,
          refl,
          sym (truthy-and u w q ∙ (ap (λ b. truthy u && b) is_false ∙ and-false (truthy u))),
        )
      ]
  simplify_and-SameTest l r rec v h = (v, h, refl)

  simplify_or-SameTest : (l r : Expression) → SameTest (binary or l r) (simplify_or l r)
  unfolding simplify_or evaluate
  simplify_or-SameTest (literal w) r rec v h =
      let (u, p, q) = left_literal or w r rec h in
      elim (Bool-cases (truthy w)) [
        | inl is_true ↦
            rw is_true (bool true, refl, sym (truthy-or w u q ∙ ap (λ b. b || truthy u) is_true))
        | inr is_false ↦
            rw is_false (u, p, sym (truthy-or w u q ∙ ap (λ b. b || truthy u) is_false))
      ]
  simplify_or-SameTest l (literal w) rec v h =
      let (u, p, q) = right_literal or w l rec h in
      elim (Bool-cases (truthy w)) [
        | inl is_true ↦ rw is_true (
          bool true,
          refl,
          sym (truthy-or u w q ∙ (ap (λ b. truthy u || b) is_true ∙ or-true (truthy u))),
        )
        | inr is_false ↦
            rw is_false (
              u,
              p,
              sym (truthy-or u w q ∙ (ap (λ b. truthy u || b) is_false ∙ or-false (truthy u))),
            )
      ]
  simplify_or-SameTest l r rec v h = (v, h, refl)

  SameTest-not : (e e' : Expression) → SameTest e e' → SameTest (not e) (not e')
  unfolding evaluate
  SameTest-not e e' same rec v h =
      let (a, p, h₁) = >>=-eq-ok (evaluate e rec) _ h in
      let (a', p', t) = same rec a p in
      (bool (negb (truthy a')), rw p', ap negb t ∙ ap truthy (ok-injective h₁))

  simplify_not-SameTest : (e : Expression) → SameTest (not e) (simplify_not e)
  unfolding simplify_not evaluate
  simplify_not-SameTest (not e) rec v h =
      let (a, p, h₁) = >>=-eq-ok (evaluate (not e) rec) _ h in
      let (b, q, h₂) = >>=-eq-ok (evaluate e rec) _ p in
      (
        b,
        q,
        double_negation (truthy b)
            ∙ (ap negb (ap truthy (ok-injective h₂)) ∙ ap truthy (ok-injective h₁)),
      )
  simplify_not-SameTest e rec v h = (v, h, refl)

  -- Of an expression whose AND, OR and NOT stand outside of its comparisons and arithmetic
  -- (`IsCondition`), the simplified form has the same truth on every row where the expression has a
  -- value.
  pub simplify_bool-SameTest : (e : Expression) → IsCondition e → SameTest e (simplify_bool e)
  unfolding simplify_bool simplify_binary
  simplify_bool-SameTest (binary and l r) h =
      SameTest-trans (binary and l r) (binary and (simplify_bool l) (simplify_bool r)) _
        (SameTest-connective and ◌&&◌ (λ a b. apply_and a b) l _ r _ (simplify_bool-SameTest l h.0)
          (simplify_bool-SameTest r h.1))
        (simplify_and-SameTest (simplify_bool l) (simplify_bool r))
  simplify_bool-SameTest (binary or l r) h =
      SameTest-trans (binary or l r) (binary or (simplify_bool l) (simplify_bool r)) _
        (SameTest-connective or ◌||◌ (λ a b. apply_or a b) l _ r _ (simplify_bool-SameTest l h.0)
          (simplify_bool-SameTest r h.1))
        (simplify_or-SameTest (simplify_bool l) (simplify_bool r))
  simplify_bool-SameTest (binary op l r) h =
      rw (simplify_bool-IsPlain l h.0, simplify_bool-IsPlain r h.1) (SameTest-refl _)
  simplify_bool-SameTest (not e) h =
      SameTest-trans (not e) (not (simplify_bool e)) _
        (SameTest-not e _ (simplify_bool-SameTest e h)) (simplify_not-SameTest (simplify_bool e))
  simplify_bool-SameTest (alias e n) h = SameTest-alias e _ n (simplify_bool-SameTest e h)
  simplify_bool-SameTest e h = SameTest-refl e

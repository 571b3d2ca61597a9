-- ===== src/Expressions/Evaluate/Locality.antt =====
-- An expression reads a row only at the columns that it refers to.
use minispark.Common.{
  arith, str_eq, Bool-cases, String, true, false, some, ◌∷◌, All, All-append_left, All-append_right,
  ◌≡◌, sym, ◌∙◌, inl, inr, ok, >>=-eq-ok,
}
use minispark.Core.Value.{Value, Record, Host}
use minispark.Expressions.Syntax.{
  Expression, column, literal, alias, binary, not, is_null, is_not_null, aggregate, count_all,
  referenced_columns,
}
use minispark.Expressions.Evaluate.{lookup, get_item, evaluate}

-- What the first row has at a name, the second has too.
abbrev pub Agrees : Record → Record → String → Type 0
Agrees r r' n = (v : Value) → lookup n r ≡ some v → lookup n r' ≡ some v

pub get_item-ok : (r : Record) (n : String) {v : Value} → get_item r n ≡ ok v → lookup n r ≡ some v
unfolding get_item
get_item-ok r n h = ground arith

pub get_item_of : (r : Record) (n : String) {v : Value} → lookup n r ≡ some v → get_item r n ≡ ok v
unfolding get_item
get_item_of r n h = ground arith

lookup_hit :
    (n m : String) (w : Value) (r : Record) → str_eq n m ≡ true → lookup n ((m, w) ∷ r) ≡ some w
unfolding lookup
lookup_hit n m w r h = rw h

lookup_miss :
    (n m : String) (w : Value) (r : Record)
    → str_eq n m ≡ false
    → lookup n ((m, w) ∷ r) ≡ lookup n r
unfolding lookup
lookup_miss n m w r h = rw h

-- A row agrees with another at a name if its first entry does, where it has the name, and the rest does
-- where it has not.
pub Agrees-cons :
    (n m : String) (w : Value) (rest r : Record)
    → (str_eq n m ≡ true → lookup n r ≡ some w)
    → (str_eq n m ≡ false → Agrees rest r n)
    → Agrees ((m, w) ∷ rest) r n
Agrees-cons n m w rest r h k v p = elim (Bool-cases (str_eq n m)) [
  | inl t ↦ h t ∙ (sym (lookup_hit n m w rest t) ∙ p)
  | inr f ↦ k f v (sym (lookup_miss n m w rest f) ∙ p)
]

module _ ⦃py : Host⦄ where
  -- A value on one row is the value on any row that agrees with it at the columns referred to.
  pub evaluate-Agrees :
      (e : Expression) (r r' : Record) {v : Value}
      → All (Agrees r r') (referenced_columns e)
      → evaluate e r ≡ ok v
      → evaluate e r' ≡ ok v
  unfolding evaluate referenced_columns
  evaluate-Agrees (column n) r r' h p = get_item_of r' n (h.0 _ (get_item-ok r n p))
  evaluate-Agrees (literal w) r r' h p = p
  evaluate-Agrees (alias e n) r r' h p = evaluate-Agrees e r r' h p
  evaluate-Agrees (binary op a b) r r' h p =
      let (v, p₁, p₂) = >>=-eq-ok (evaluate a r) _ p in
      let (w, p₃, p₄) = >>=-eq-ok (evaluate b r) _ p₂ in
      rw
        (
          evaluate-Agrees a r r' (All-append_left (Agrees r r') (referenced_columns a) _ h) p₁,
          evaluate-Agrees b r r' (All-append_right (Agrees r r') (referenced_columns a) _ h) p₃,
        )
        p₄
  evaluate-Agrees (not e) r r' h p =
      let (v, p₁, p₂) = >>=-eq-ok (evaluate e r) _ p in rw (evaluate-Agrees e r r' h p₁) p₂
  evaluate-Agrees (is_null e) r r' h p =
      let (v, p₁, p₂) = >>=-eq-ok (evaluate e r) _ p in rw (evaluate-Agrees e r r' h p₁) p₂
  evaluate-Agrees (is_not_null e) r r' h p =
      let (v, p₁, p₂) = >>=-eq-ok (evaluate e r) _ p in rw (evaluate-Agrees e r r' h p₁) p₂
  evaluate-Agrees (aggregate f e) r r' h p = p
  evaluate-Agrees count_all r r' h p = p

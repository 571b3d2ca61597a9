-- ===== src/Execution/Executor/Lists.antt =====
-- Rows that come to an end without an exception, as lists: filtering and projecting a stream is
-- filtering and projecting its list.
use minispark.Common.{
  String, Bool, true, false, List, [], ◌∷◌, ◌≡◌, refl, sym, ap, ◌∙◌, if◌then◌else◌, Result, ok,
  raise, ◌>>=◌, >>=-eq-ok, ok-injective, map_result, bind-ok, Result-cases, inl, inr,
}
use minispark.Core.Value.{Value, Record, Host, truthy}
use minispark.Core.Dataset.{Rows, done, fail, yield, to_list, from_list}
use minispark.Expressions.Syntax.{Expression}
use minispark.Expressions.Evaluate.{evaluate}
use minispark.Execution.Executor.{
  filter_row, filter_rows, project_record, project_row, project_rows,
}

pub to_list-from_list : (rs : List Record) → to_list (from_list rs) ≡ ok rs
unfolding to_list from_list
to_list-from_list [] = refl
to_list-from_list (r ∷ rs) = rw (to_list-from_list rs)

-- A stream that ends without an exception is the stream of its list.
pub eq-from_list : (a : Rows) {rs : List Record} → to_list a ≡ ok rs → a ≡ from_list rs
unfolding to_list from_list
eq-from_list done h = ap from_list (ok-injective h)
eq-from_list (fail e) h = cc
eq-from_list (yield r rest) h =
    let (rs', p, q) = >>=-eq-ok (to_list rest) _ h in
    ap (yield r) (eq-from_list rest p) ∙ ap from_list (ok-injective q)

module _ ⦃py : Host⦄ where
  -- `[r for r in rs if condition.evaluate(r)]`, with the condition's exceptions.
  unfoldable pub keep_rows : Expression → List Record → Result (List Record)
  keep_rows c [] = ok []
  keep_rows c (r ∷ rs) = do
    v ← evaluate c r
    kept ← keep_rows c rs
    ok (if truthy v then r ∷ kept else kept)

  keep_row :
      (b : Bool) (r : Record) (rest : Rows)
      → to_list (if b then yield r rest else rest)
        ≡ (to_list rest >>= λ k. ok (if b then r ∷ k else k))
  unfolding to_list
  keep_row true r rest = refl
  keep_row false r rest = bind-ok (to_list rest)

  pub to_list-filter_rows :
      (c : Expression) (rs : List Record) → to_list (filter_rows c (from_list rs)) ≡ keep_rows c rs
  unfolding filter_rows filter_row to_list keep_rows from_list
  to_list-filter_rows c [] = refl
  to_list-filter_rows c (r ∷ rs) = elim (Result-cases (evaluate c r)) [
    | inl (v, p) ↦
        rw p (keep_row (truthy v) r (filter_rows c (from_list rs)) ∙ rw (to_list-filter_rows c rs))
    | inr (e, p) ↦ rw p
  ]

  pub to_list-project_rows :
      (ns : List String) (es : List Expression) (rs : List Record)
      → to_list (project_rows ns es (from_list rs)) ≡ map_result (project_record ns es) rs
  unfolding project_rows project_row to_list from_list
  to_list-project_rows ns es [] = refl
  to_list-project_rows ns es (r ∷ rs) = elim (Result-cases (project_record ns es r)) [
    | inl (v, p) ↦ rw (p, to_list-project_rows ns es rs)
    | inr (e, p) ↦ rw p
  ]

  filter_row_source :
      (m : Result Value) (r : Record) (rest : Rows) {ys : List Record}
      → to_list (filter_row m r rest) ≡ ok ys
      → (zs : List Record) × (to_list rest ≡ ok zs)
  unfolding filter_row to_list
  filter_row_source (ok v) r rest h =
      let (zs, p, q) = >>=-eq-ok (to_list rest) _ (sym (keep_row (truthy v) r rest) ∙ h) in (zs, p)
  filter_row_source (raise e) r rest h = cc

  -- Rows that a filter or a projection gives without an exception come from such rows.
  pub filter_rows_source :
      (c : Expression) (a : Rows) {ys : List Record}
      → to_list (filter_rows c a) ≡ ok ys
      → (xs : List Record) × (to_list a ≡ ok xs)
  unfolding filter_rows to_list
  filter_rows_source c done h = ([], refl)
  filter_rows_source c (fail e) h = cc
  filter_rows_source c (yield r rest) h =
      let (zs, p) = filter_row_source (evaluate c r) r (filter_rows c rest) h in
      let (xs, q) = filter_rows_source c rest p in (r ∷ xs, rw q)

  project_row_source :
      (m : Result Record) (rest : Rows) {ys : List Record}
      → to_list (project_row m rest) ≡ ok ys
      → (zs : List Record) × (to_list rest ≡ ok zs)
  unfolding project_row to_list
  project_row_source (ok r) rest h = let (zs, p, q) = >>=-eq-ok (to_list rest) _ h in (zs, p)
  project_row_source (raise e) rest h = cc

  pub project_rows_source :
      (ns : List String) (es : List Expression) (a : Rows) {ys : List Record}
      → to_list (project_rows ns es a) ≡ ok ys
      → (xs : List Record) × (to_list a ≡ ok xs)
  unfolding project_rows to_list
  project_rows_source ns es done h = ([], refl)
  project_rows_source ns es (fail e) h = cc
  project_rows_source ns es (yield r rest) h =
      let (zs, p) = project_row_source (project_record ns es r) (project_rows ns es rest) h in
      let (xs, q) = project_rows_source ns es rest p in (r ∷ xs, rw q)

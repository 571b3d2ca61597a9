-- ===== src/Optimizer/Rules/Pushdown/Rows.antt =====
-- A Filter and a Project that change places, row by row.
use minispark.Common.{
  String, Bool, true, false, some, List, [], ◌∷◌, All, All-map, ◌≡◌, refl, sym, ap, ◌∙◌, subst,
  str_eq, if◌then◌else◌, ok, >>=-eq-ok, ok-injective, map_result,
}
use minispark.Core.Value.{Value, Record, Host, truthy}
use minispark.Core.Dataset.{Rows, to_list}
use minispark.Expressions.Syntax.{Expression, column, referenced_columns}
use minispark.Expressions.Evaluate.{lookup, evaluate}
use minispark.Expressions.Evaluate.Locality.{Agrees, Agrees-cons, get_item-ok, evaluate-Agrees}
use minispark.Expressions.Repr.{output_name}
use minispark.Logical.Nodes.Names.{output_names}
use minispark.Execution.Executor.{filter_rows, project_record, project_rows}
use minispark.Execution.Executor.Lists.{
  eq-from_list, keep_rows, to_list-filter_rows, to_list-project_rows, filter_rows_source,
  project_rows_source,
}
use minispark.Execution.Executor.Refinement.{Refines}

module _ ⦃py : Host⦄ where
  -- A name that the projection gives out is that of the plain column, if it gives it out at all.
  abbrev pub NotShadowed : List Expression → String → Type 0
  NotShadowed [] n = Unit
  NotShadowed (e ∷ es) n = if str_eq n (output_name e) then (e ≡ column n) else NotShadowed es n

  column_value :
      (e : Expression) (r : Record) (n : String) {w : Value}
      → e ≡ column n
      → evaluate e r ≡ ok w
      → lookup n r ≡ some w
  unfolding evaluate
  column_value e r n {w} same h = get_item-ok r n (subst (λ x. evaluate x r ≡ ok w) same h)

  project_record-Agrees :
      (es : List Expression) (r r' : Record) (n : String)
      → project_record (output_names es) es r ≡ ok r'
      → NotShadowed es n
      → Agrees r' r n
  unfolding project_record lookup
  project_record-Agrees [] r r' n h k = subst (λ x. Agrees x r n) (ok-injective h) (λ v p. cc)
  project_record-Agrees (e ∷ es) r r' n h k =
      let (w, h₁, h₂) = >>=-eq-ok (evaluate e r) _ h in
      let (rest, h₃, h₄) = >>=-eq-ok (project_record (output_names es) es r) _ h₂ in
      subst (λ x. Agrees x r n) (ok-injective h₄)
        (Agrees-cons n (output_name e) w rest r (λ t. column_value e r n (rw t at k) h₁)
          (λ f. project_record-Agrees es r rest n h₃ (rw f at k)))

  -- The condition of a Filter above the projection has the same value on the row below.
  pub condition_below :
      (c : Expression) (es : List Expression) (r r' : Record)
      → All (NotShadowed es) (referenced_columns c)
      → project_record (output_names es) es r ≡ ok r'
      → {v : Value} → evaluate c r' ≡ ok v
      → evaluate c r ≡ ok v
  condition_below c es r r' h p q =
      evaluate-Agrees c r' r
        (All-map (λ n k. project_record-Agrees es r r' n p k) (referenced_columns c) h) q

  keep_below :
      (b : Bool) (r r' : Record) (ks ps : List Record) (ns : List String) (es : List Expression)
      → project_record ns es r ≡ ok r'
      → map_result (project_record ns es) ks ≡ ok ps
      → map_result (project_record ns es) (if b then r ∷ ks else ks)
        ≡ ok (if b then r' ∷ ps else ps)
  keep_below true r r' ks ps ns es h k = rw (h, k)
  keep_below false r r' ks ps ns es h k = k

  -- The rows that the condition keeps above the projection are the projections of those that it keeps
  -- below.
  keep_rows-project :
      (c : Expression) (es : List Expression)
      → All (NotShadowed es) (referenced_columns c)
      → (rs : List Record) {ps kept : List Record}
      → map_result (project_record (output_names es) es) rs ≡ ok ps
      → keep_rows c ps ≡ ok kept
      → (ks : List Record) × (keep_rows c rs ≡ ok ks)
        × (map_result (project_record (output_names es) es) ks ≡ ok kept)
  unfolding keep_rows
  keep_rows-project c es h [] {ps} {kept} p q =
      ([], refl, subst (λ x. keep_rows c x ≡ ok kept) (sym (ok-injective p)) q)
  keep_rows-project c es h (r ∷ rs) {ps} {kept} p q =
      let (r', p₁, p₂) = >>=-eq-ok (project_record (output_names es) es r) _ p in
      let (ps', p₃, p₄) = >>=-eq-ok (map_result (project_record (output_names es) es) rs) _ p₂ in
      let q' : keep_rows c (r' ∷ ps') ≡ ok kept =
        subst (λ x. keep_rows c x ≡ ok kept) (sym (ok-injective p₄)) q in
      let (v, q₁, q₂) = >>=-eq-ok (evaluate c r') _ q' in
      let (kept', q₃, q₄) = >>=-eq-ok (keep_rows c ps') _ q₂ in
      let (ks, e₁, e₂) = keep_rows-project c es h rs p₃ q₃ in
      (
        (if truthy v then r ∷ ks else ks),
        rw (condition_below c es r r' h p₁ q₁, e₁),
        keep_below (truthy v) r r' ks kept' (output_names es) es p₁ e₂ ∙ q₄,
      )

  -- Filtering after projecting is refined by filtering before.
  pub filter-project-Refines :
      (c : Expression) (es : List Expression)
      → All (NotShadowed es) (referenced_columns c)
      → (a : Rows)
      → Refines
          (filter_rows c (project_rows (output_names es) es a))
          (project_rows (output_names es) es (filter_rows c a))
  filter-project-Refines c es h a ys e =
      let ns = output_names es in
      let (ps, e₁) = filter_rows_source c (project_rows ns es a) e in
      let (xs, e₂) = project_rows_source ns es a e₁ in
      let p : map_result (project_record ns es) xs ≡ ok ps =
        sym (to_list-project_rows ns es xs)
        ∙ (ap (λ s. to_list (project_rows ns es s)) (sym (eq-from_list a e₂)) ∙ e₁) in
      let q : keep_rows c ps ≡ ok ys =
        sym (to_list-filter_rows c ps)
        ∙ (ap (λ s. to_list (filter_rows c s)) (sym (eq-from_list (project_rows ns es a) e₁))
            ∙ e) in
      let (ks, k₁, k₂) = keep_rows-project c es h xs p q in
      let kept : to_list (filter_rows c a) ≡ ok ks =
        ap (λ s. to_list (filter_rows c s)) (eq-from_list a e₂) ∙ (to_list-filter_rows c xs ∙ k₁) in
      ap (λ s. to_list (project_rows ns es s)) (eq-from_list (filter_rows c a) kept)
      ∙ (to_list-project_rows ns es ks ∙ k₂)

-- ===== src/Physical/Planner/Shape.antt =====
-- The plans that `translate` gives: their nodes, their schema and their stages.
use minispark.Common.{
  ℕ, Bool, true, false, List, [], ◌∷◌, ◌++◌, ◌≡◌, refl, ap, sym, ◌∙◌, subst, Result, ok, arith,
  >>=-eq-ok, ok-injective, String,
}
use minispark.Core.Value.{Host}
use minispark.Core.Schema.{Schema}
use minispark.Optimizer.Statistics.{SizeHost}
use minispark.Expressions.Syntax.{Expression, column}
use minispark.Logical.Nodes.{LogicalPlan, scan, filter, project, aggregation, join, sort, schema}
use minispark.Physical.Plan.{PhysicalPlan, schema_of}
use minispark.Physical.Planner.{
  plan_join, partial_aggregate_schema, plan_aggregate, plan_sort, translate,
}
use minispark.Physical.Planner.SortRange.{sort_range_boundaries}
use minispark.Execution.Stages.{Stage, build_stages}
use minispark.Execution.Stages.Order.{IsPlanned, IsNumbered}
use minispark.Execution.Stages.Building.{build_stages-IsNumbered}

module _ ⦃py : Host⦄ where
  -- A plan without shuffle nodes, whose schema is the one given.
  abbrev IsTranslation : Result Schema → PhysicalPlan → Type 0
  IsTranslation s q = IsPlanned q × (s ≡ ok (schema_of q))

  plan_join-IsTranslation :
      (n : ℕ) (on : List String) (broadcast : Bool) (s : Schema) (l r : PhysicalPlan)
      → IsPlanned l
      → IsPlanned r
      → IsPlanned (plan_join n on broadcast s l r)
        × (schema_of (plan_join n on broadcast s l r) ≡ s)
  unfolding plan_join schema_of
  plan_join-IsTranslation n on true s l r hl hr = ((hl, hr), refl)
  plan_join-IsTranslation n on false s l r hl hr = ((hl, hr), refl)

  plan_aggregate-IsTranslation :
      (n t : ℕ) (c : LogicalPlan) (gs as' : List Expression) (child : PhysicalPlan)
      {q : PhysicalPlan}
      → IsPlanned child
      → plan_aggregate n t c gs as' child ≡ ok q
      → IsTranslation (schema (aggregation c gs as')) q
  unfolding plan_aggregate schema_of
  plan_aggregate-IsTranslation n t c gs as' child k h =
      let (s, e₁, h₁) = >>=-eq-ok (schema c) _ h in
      let (part, e₂, h₂) = >>=-eq-ok (partial_aggregate_schema gs as' s) _ h₁ in
      let (full, e₃, h₃) = >>=-eq-ok (schema (aggregation c gs as')) _ h₂ in
      subst (IsTranslation (schema (aggregation c gs as'))) (ok-injective h₃) (k, e₃)

  module _ ⦃memory : SizeHost⦄ where
    plan_sort-IsTranslation :
        (n t : ℕ) (c : LogicalPlan) (es : List Expression) (asc : List Bool) (child : PhysicalPlan)
        {q : PhysicalPlan}
        → IsPlanned child
        → plan_sort n t c es asc child ≡ ok q
        → IsTranslation (schema c) q
    unfolding plan_sort schema_of
    plan_sort-IsTranslation n t c (column key ∷ es) (up ∷ asc) child k h =
        let (s, e₁, h₁) = >>=-eq-ok (schema c) _ h in
        let (choice, e₂, h₂) = >>=-eq-ok (sort_range_boundaries child key up s n) _ h₁ in
        subst (IsTranslation (schema c)) (ok-injective h₂) (k, e₁)
    plan_sort-IsTranslation n t c _ _ child k h = absurd (ground arith)

    pub translate-IsTranslation :
        (n t : ℕ) (p : LogicalPlan) {q : PhysicalPlan}
        → translate n t p ≡ ok q
        → IsPlanned q × (schema p ≡ ok (schema_of q))
    unfolding translate schema schema_of
    translate-IsTranslation n t (scan d name s) h =
        subst (IsTranslation (ok d.schema)) (ok-injective h) (tt, refl)
    translate-IsTranslation n t (filter c e) h =
        let (c', e₁, h₁) = >>=-eq-ok (translate n t c) _ h in
        subst (IsTranslation (schema c)) (ok-injective h₁) (translate-IsTranslation n t c e₁)
    translate-IsTranslation n t (project c es) h =
        let (c', e₁, h₁) = >>=-eq-ok (translate n t c) _ h in
        let (s, e₂, h₂) = >>=-eq-ok (schema (project c es)) _ h₁ in
        subst (IsTranslation (schema (project c es))) (ok-injective h₂)
          ((translate-IsTranslation n t c e₁).0, e₂)
    translate-IsTranslation n t (aggregation c gs as') h =
        let (c', e₁, h₁) = >>=-eq-ok (translate n t c) _ h in
        plan_aggregate-IsTranslation n t c gs as' c' (translate-IsTranslation n t c e₁).0 h₁
    translate-IsTranslation n t (join l r on how b) h =
        let (l', e₁, h₁) = >>=-eq-ok (translate n t l) _ h in
        let (r', e₂, h₂) = >>=-eq-ok (translate n t r) _ h₁ in
        let (s, e₃, h₃) = >>=-eq-ok (schema (join l r on how b)) _ h₂ in
        let (planned, e₄) =
          plan_join-IsTranslation n on b s l' r' (translate-IsTranslation n t l e₁).0
            (translate-IsTranslation n t r e₂).0 in
        subst (IsTranslation (schema (join l r on how b))) (ok-injective h₃)
          (planned, e₃ ∙ ap ok (sym e₄))
    translate-IsTranslation n t (sort c es asc) h =
        let (c', e₁, h₁) = >>=-eq-ok (translate n t c) _ h in
        plan_sort-IsTranslation n t c es asc c' (translate-IsTranslation n t c e₁).0 h₁

    -- A logical plan that is translated without an exception is cut into stages without one. The
    -- stages are numbered from 0 in order, each reads only what stages of lower numbers wrote, and the
    -- last one has the schema of the logical plan.
    pub translate-build_stages :
        (n t : ℕ) (p : LogicalPlan) {q : PhysicalPlan}
        → translate n t p ≡ ok q
        → (upstream : List Stage) × (last : Stage) × (build_stages q ≡ ok (upstream ++ (last ∷ [])))
          × IsNumbered 0 (upstream ++ (last ∷ []))
          × (schema p ≡ ok (schema_of last.plan))
    translate-build_stages n t p {q} h =
        let (planned, typed) = translate-IsTranslation n t p h in
        let (upstream, last, built, _, numbered, schemas) = build_stages-IsNumbered q planned in
        (upstream, last, built, numbered, typed ∙ ap ok (sym schemas))

-- ===== src/Optimizer/Rules/Pushdown/Plans.antt =====
-- Predicate pushdown of a plan that the naive executor runs.
use minispark.Common.{
  String, List, [], ◌∷◌, ◌++◌, map, All, All-append_left, All-append_right, ◌≡◌, refl, ap, subst,
  if◌then◌else◌, Bool-cases, inl, inr, Result, ok, raise, ◌>>=◌, OnOk, OnOk-bind, OnOk-map,
  OnOk-value, Result-cases, subset_names,
}
use minispark.Core.Value.{Host}
use minispark.Core.Schema.{Field, Schema, names_of, field_names, make_schema}
use minispark.Core.Dataset.{Partition, Dataset}
use minispark.Expressions.Syntax.{Expression, referenced_columns}
use minispark.Logical.Nodes.{
  LogicalPlan, scan, filter, project, aggregation, join, sort, schema, output_fields,
}
use minispark.Logical.Nodes.Names.{output_names, names-output_fields, make_schema-ok}
use minispark.Execution.Executor.{filtered_partition, projected_partition, execute}
use minispark.Execution.Executor.Refinement.{
  PartitionsRefine, DatasetRefines, PlanRefines, PlanRefines-refl, PlanRefines-trans,
}
use minispark.Execution.Executor.Congruence.{filter-PlanRefines, project-PlanRefines}
use minispark.Optimizer.Rules.Pushdown.{push_filter, pushdown}
use minispark.Optimizer.Rules.Pushdown.Rows.{NotShadowed, filter-project-Refines}

module _ ⦃py : Host⦄ where
  made : (fs : List Field) → OnOk (λ s. field_names s ≡ names_of fs) (make_schema fs)
  made fs = elim (Result-cases (make_schema fs)) [
    | inl (s, p) ↦ rw p (ap names_of (make_schema-ok fs p).0)
    | inr (e, p) ↦ rw p tt
  ]

  -- A projection's fields have its output names.
  project_names :
      (es : List Expression) (m : Result Schema)
      → OnOk (λ s. field_names s ≡ output_names es) (output_fields es m >>= make_schema)
  unfolding output_fields
  project_names [] m = made []
  project_names (e ∷ es) (ok s) =
      let (fs, p, q) = names-output_fields (e ∷ es) s in
      rw p (subst (λ ns. OnOk (λ x. field_names x ≡ ns) (make_schema fs)) q (made fs))
  project_names (e ∷ es) (raise x) = tt

  partitions_swap :
      (c : Expression) (es : List Expression) (s : Schema)
      → All (NotShadowed es) (referenced_columns c)
      → field_names s ≡ output_names es
      → (ps : List Partition)
      → PartitionsRefine
          (map (filtered_partition c) (map (projected_partition s es) ps))
          (map (projected_partition s es) (map (filtered_partition c) ps))
  unfolding filtered_partition projected_partition
  partitions_swap c es s h names [] = tt
  partitions_swap c es s h names (p ∷ ps) =
      (rw names (filter-project-Refines c es h p.records), partitions_swap c es s h names ps)

  -- The two nodes change places.
  pub filter-project-PlanRefines :
      (p : LogicalPlan) (c : Expression) (es : List Expression)
      → All (NotShadowed es) (referenced_columns c)
      → PlanRefines (filter (project p es) c) (project (filter p c) es)
  unfolding schema execute
  filter-project-PlanRefines p c es h = record {
    schemas = (PlanRefines-refl (project p es)).schemas;
    rows = go (execute p) (schema (project p es)) (project_names es (schema p));
  }
    where
      projected : Schema → Dataset → Dataset
      projected s d = record {
        schema = s;
        partitions = map (projected_partition s es) d.partitions;
      }

      filtered : Dataset → Dataset
      filtered d = record {
        schema = d.schema;
        partitions = map (filtered_partition c) d.partitions;
      }

      go :
          (m : Result Dataset) (x : Result Schema)
          → OnOk (λ s. field_names s ≡ output_names es) x
          → DatasetRefines
              ((m >>= λ d. x >>= λ s. ok (projected s d)) >>= λ d. ok (filtered d))
              ((m >>= λ d. ok (filtered d)) >>= λ d. x >>= λ s. ok (projected s d))
      go (ok d) (ok s) k = (refl, partitions_swap c es s h k d.partitions)
      go (ok d) (raise e) k = tt
      go (raise e) x k = tt

  -- A plan that the naive executor runs, where no column that a Filter reads is one that a Project
  -- below it computes or renames, as far as the next Project.
  abbrev pub IsUnshadowedChain : List String → LogicalPlan → Type 0
  IsUnshadowedChain ns (scan d n s) = Unit
  IsUnshadowedChain ns (filter c e) = IsUnshadowedChain (referenced_columns e ++ ns) c
  IsUnshadowedChain ns (project c es) = All (NotShadowed es) ns × IsUnshadowedChain [] c
  IsUnshadowedChain ns _ = ⊥

  -- What a Filter reading these names may be pushed through.
  abbrev Passes : List String → LogicalPlan → Type 0
  Passes ns (scan d n s) = Unit
  Passes ns (filter c e) = Unit
  Passes ns (project c es) = All (NotShadowed es) ns
  Passes ns _ = ⊥

  push_filter-PlanRefines :
      (q : LogicalPlan) (e : Expression) (ns : List String)
      → Passes (referenced_columns e ++ ns) q
      → OnOk (λ q'. PlanRefines (filter q e) q' × Passes ns q') (push_filter q e)
  unfolding push_filter
  push_filter-PlanRefines (scan d n s) e ns h = (PlanRefines-refl (filter (scan d n s) e), tt)
  push_filter-PlanRefines (filter c e₁) e ns h = (PlanRefines-refl (filter (filter c e₁) e), tt)
  push_filter-PlanRefines (project c es) e ns h = go (schema c)
    where
      go :
          (m : Result Schema)
          → OnOk
              (λ q'. PlanRefines (filter (project c es) e) q' × Passes ns q')
              (m >>= λ available. ok (
                if subset_names (referenced_columns e) (field_names available)
                then project (filter c e) es
                else filter (project c es) e))
      go (raise x) = tt
      go (ok s) = elim (Bool-cases (subset_names (referenced_columns e) (field_names s))) [
        | inl t ↦ rw t (
          filter-project-PlanRefines c e es (All-append_left _ (referenced_columns e) ns h),
          All-append_right _ (referenced_columns e) ns h,
        )
        | inr f ↦ rw f (PlanRefines-refl (filter (project c es) e), tt)
      ]
  push_filter-PlanRefines (aggregation c gs as') e ns h = absurd h
  push_filter-PlanRefines (join l r on how b) e ns h = absurd h
  push_filter-PlanRefines (sort c es asc) e ns h = absurd h

  pushdown_chain :
      (ns : List String) (p : LogicalPlan)
      → IsUnshadowedChain ns p
      → OnOk (λ q. PlanRefines p q × Passes ns q) (pushdown p)
  unfolding pushdown
  pushdown_chain ns (scan d n s) h = (PlanRefines-refl (scan d n s), tt)
  pushdown_chain ns (filter c e) h =
      OnOk-bind _ (λ q. PlanRefines (filter c e) q × Passes ns q) (pushdown c) _
        (pushdown_chain (referenced_columns e ++ ns) c h)
        (λ c' k.
          OnOk-map _ _ (push_filter c' e)
            (λ q j.
              (PlanRefines-trans (filter-PlanRefines e e (λ r v x. (v, x, refl)) k.0) j.0, j.1))
            (push_filter-PlanRefines c' e ns k.1))
  pushdown_chain ns (project c es) h =
      OnOk-bind _ (λ q. PlanRefines (project c es) q × Passes ns q) (pushdown c) _
        (pushdown_chain [] c h.1) (λ c' k. (project-PlanRefines es k.0, h.0))
  pushdown_chain ns (aggregation c gs as') h = absurd h
  pushdown_chain ns (join l r on how b) h = absurd h
  pushdown_chain ns (sort c es asc) h = absurd h

  -- Where predicate pushdown of an unshadowed chain gives a plan, the plan's columns have the names of
  -- the original's, and its rows are the original's wherever collecting those raises nothing.
  pub pushdown-PlanRefines :
      (p : LogicalPlan) {q : LogicalPlan}
      → IsUnshadowedChain [] p
      → pushdown p ≡ ok q
      → PlanRefines p q
  pushdown-PlanRefines p h e = (OnOk-value _ (pushdown_chain [] p h) e).0

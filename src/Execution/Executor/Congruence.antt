-- ===== src/Execution/Executor/Congruence.antt =====
-- A refinement below a Filter or a Project is a refinement of the whole.
use minispark.Common.{
  String, List, [], ◌∷◌, map, ◌≡◌, refl, sym, ap, ◌∙◌, Result, ok, raise, ◌>>=◌, >>=-eq-ok,
  has_duplicates, Bool-cases, inl, inr,
}
use minispark.Core.Value.{Value, Record, Host, truthy}
use minispark.Core.Schema.{Field, Schema, names_of, field_names, make_schema}
use minispark.Core.Dataset.{Rows, to_list, Partition, Dataset}
use minispark.Expressions.Syntax.{Expression}
use minispark.Expressions.Evaluate.{evaluate}
use minispark.Logical.Nodes.{LogicalPlan, filter, project, schema, output_fields}
use minispark.Logical.Nodes.Names.{names-output_fields}
use minispark.Execution.Executor.{
  filter_rows, project_rows, filtered_partition, projected_partition, execute,
}
use minispark.Execution.Executor.Lists.{
  eq-from_list, keep_rows, to_list-filter_rows, filter_rows_source, project_rows_source,
}
use minispark.Execution.Executor.Refinement.{
  Refines, PartitionsRefine, SchemaRefines, DatasetRefines, PlanRefines,
}

module _ ⦃py : Host⦄ where
  -- On a row where the first condition has a value, the second has one of the same truth.
  abbrev pub SameTest : Expression → Expression → Type 0
  SameTest c c' =
      (r : Record) (v : Value)
      → evaluate c r ≡ ok v
      → (w : Value) × (evaluate c' r ≡ ok w) × (truthy w ≡ truthy v)

  pub keep_rows-SameTest :
      (c c' : Expression)
      → SameTest c c'
      → (rs : List Record) {kept : List Record} → keep_rows c rs ≡ ok kept
      → keep_rows c' rs ≡ ok kept
  unfolding keep_rows
  keep_rows-SameTest c c' same [] h = h
  keep_rows-SameTest c c' same (r ∷ rs) h =
      let (v, p, h₁) = >>=-eq-ok (evaluate c r) _ h in
      let (ks, q, h₂) = >>=-eq-ok (keep_rows c rs) _ h₁ in
      let (w, e, t) = same r v p in rw (e, keep_rows-SameTest c c' same rs q, t) h₂

  pub filter_rows-Refines :
      (c c' : Expression)
      → SameTest c c'
      → (a b : Rows) → Refines a b
      → Refines (filter_rows c a) (filter_rows c' b)
  filter_rows-Refines c c' same a b h ys e =
      let (xs, p) = filter_rows_source c a e in
      let k : keep_rows c xs ≡ ok ys =
        sym (to_list-filter_rows c xs)
        ∙ (ap (λ s. to_list (filter_rows c s)) (sym (eq-from_list a p)) ∙ e) in
      ap (λ s. to_list (filter_rows c' s)) (eq-from_list b (h xs p))
      ∙ (to_list-filter_rows c' xs ∙ keep_rows-SameTest c c' same xs k)

  pub project_rows-Refines :
      (ns : List String) (es : List Expression) (a b : Rows)
      → Refines a b
      → Refines (project_rows ns es a) (project_rows ns es b)
  project_rows-Refines ns es a b h ys e =
      let (xs, p) = project_rows_source ns es a e in
      ap (λ s. to_list (project_rows ns es s)) (eq-from_list b (h xs p) ∙ sym (eq-from_list a p))
      ∙ e

  map_partitions :
      (f g : Partition → Partition)
      → ((p q : Partition) → Refines p.records q.records → Refines (f p).records (g q).records)
      → (ps qs : List Partition) → PartitionsRefine ps qs
      → PartitionsRefine (map f ps) (map g qs)
  map_partitions f g step [] [] h = tt
  map_partitions f g step (p ∷ ps) (q ∷ qs) h = (step p q h.0, map_partitions f g step ps qs h.1)
  map_partitions f g step [] (q ∷ qs) h = absurd h
  map_partitions f g step (p ∷ ps) [] h = absurd h

  -- A condition that tests the same, over a plan that refines.
  pub filter-PlanRefines :
      {p q : LogicalPlan} (c c' : Expression)
      → SameTest c c'
      → PlanRefines p q
      → PlanRefines (filter p c) (filter q c')
  unfolding schema execute filtered_partition
  filter-PlanRefines {p} {q} c c' same h = record {
    schemas = h.schemas;
    rows = go (execute p) (execute q) h.rows;
  }
    where
      go :
          (m n : Result Dataset)
          → DatasetRefines m n
          → DatasetRefines
              (m >>= λ d. ok (record {
                schema = d.schema;
                partitions = map (filtered_partition c) d.partitions;
              }))
              (n >>= λ d. ok (record {
                schema = d.schema;
                partitions = map (filtered_partition c') d.partitions;
              }))
      go (ok d) (ok d') h = (
        h.0,
        map_partitions (filtered_partition c) (filtered_partition c')
            (λ p q. filter_rows-Refines c c' same p.records q.records) d.partitions d'.partitions
            h.1,
      )
      go (ok d) (raise x) h = absurd h
      go (raise x) n h = tt

  SchemaRefines-make_schema :
      (fs gs : List Field)
      → names_of gs ≡ names_of fs
      → SchemaRefines (make_schema fs) (make_schema gs)
  unfolding make_schema
  SchemaRefines-make_schema fs gs h = elim (Bool-cases (has_duplicates (names_of fs))) [
    | inl p ↦ rw p tt
    | inr p ↦ rw (p, h, p) h
  ]

  -- The schema of a projection depends on the child only by whether it has one.
  project-SchemaRefines :
      (es : List Expression) (m n : Result Schema)
      → SchemaRefines m n
      → SchemaRefines (output_fields es m >>= make_schema) (output_fields es n >>= make_schema)
  unfolding output_fields
  project-SchemaRefines es (ok s) (ok s') h =
      let (fs, p, q) = names-output_fields es s in
      let (gs, p', q') = names-output_fields es s' in
      rw (p, p') (SchemaRefines-make_schema fs gs (q' ∙ sym q))
  project-SchemaRefines es (ok s) (raise x) h = absurd h
  project-SchemaRefines [] (raise x) n h = SchemaRefines-make_schema [] [] refl
  project-SchemaRefines (e ∷ es) (raise x) n h = tt

  -- The same columns over a plan that refines.
  pub project-PlanRefines :
      {p q : LogicalPlan} (es : List Expression)
      → PlanRefines p q
      → PlanRefines (project p es) (project q es)
  unfolding schema execute projected_partition
  project-PlanRefines {p} {q} es h =
      let schemas = project-SchemaRefines es (schema p) (schema q) h.schemas in
      record { schemas = schemas; rows = go (execute p) (execute q) _ _ h.rows schemas }
    where
      projected : Schema → Dataset → Dataset
      projected s d = record {
        schema = s;
        partitions = map (projected_partition s es) d.partitions;
      }

      go :
          (m n : Result Dataset) (x y : Result Schema)
          → DatasetRefines m n
          → SchemaRefines x y
          → DatasetRefines
              (m >>= λ d. x >>= λ s. ok (projected s d))
              (n >>= λ d. y >>= λ s. ok (projected s d))
      go (ok d) (ok d') (ok s) (ok s') h k = (
        k,
        map_partitions (projected_partition s es) (projected_partition s' es)
            (λ p q h. rw k (project_rows-Refines (field_names s) es p.records q.records h))
            d.partitions d'.partitions h.1,
      )
      go (ok d) (ok d') (ok s) (raise e) h k = absurd k
      go (ok d) (ok d') (raise e) y h k = tt
      go (ok d) (raise e) x y h k = absurd h
      go (raise e) n x y h k = tt

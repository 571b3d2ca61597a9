-- ===== src/Execution/Executor/Equality.antt =====
-- Plans that run the same: equal schemas, and executions that are equal, exceptions and all.
use minispark.Common.{
  ◌>>=◌, ok, map, String, List, none, [], ◌∷◌, All₂, ◌≡◌, refl, ap, fun_ext, Result,
}
use minispark.Core.Value.{Record, Host}
use minispark.Core.Schema.{Schema, field_names}
use minispark.Core.Dataset.{Rows, done, fail, yield}
use minispark.Expressions.Syntax.{Expression}
use minispark.Expressions.Evaluate.{evaluate}
use minispark.Logical.Nodes.{LogicalPlan, filter, project, schema, output_fields}
use minispark.Execution.Executor.{
  filter_rows, project_record, project_rows, filtered_partition, projected_partition, execute,
}

module _ ⦃py : Host⦄ where
  abbrev pub SameValues : Expression → Expression → Type 0
  SameValues e e' = (r : Record) → evaluate e' r ≡ evaluate e r

  pub filter_rows-congr :
      (c c' : Expression)
      → ((r : Record) → evaluate c' r ≡ evaluate c r)
      → (a : Rows) → filter_rows c' a ≡ filter_rows c a
  unfolding filter_rows
  filter_rows-congr c c' h done = refl
  filter_rows-congr c c' h (fail e) = refl
  filter_rows-congr c c' h (yield r rest) = rw (h r, filter_rows-congr c c' h rest)

  project_record-congr :
      (ns : List String) (es es' : List Expression)
      → All₂ SameValues es es'
      → (r : Record) → project_record ns es' r ≡ project_record ns es r
  unfolding project_record
  project_record-congr [] [] [] h r = refl
  project_record-congr (n ∷ ns) [] [] h r = refl
  project_record-congr [] (e ∷ es) (e' ∷ es') h r = refl
  project_record-congr (n ∷ ns) (e ∷ es) (e' ∷ es') h r =
      rw (h.0 r, project_record-congr ns es es' h.1 r)
  project_record-congr ns [] (e' ∷ es') h r = absurd h
  project_record-congr ns (e ∷ es) [] h r = absurd h

  pub project_rows-congr :
      (ns : List String) (es es' : List Expression)
      → All₂ SameValues es es'
      → (a : Rows) → project_rows ns es' a ≡ project_rows ns es a
  unfolding project_rows
  project_rows-congr ns es es' h done = refl
  project_rows-congr ns es es' h (fail e) = refl
  project_rows-congr ns es es' h (yield r rest) =
      rw (project_record-congr ns es es' h r, project_rows-congr ns es es' h rest)

  abbrev pub SameRun : LogicalPlan → LogicalPlan → Type 0
  SameRun p q = (schema q ≡ schema p) × (execute q ≡ execute p)

  pub filter-SameRun :
      (c c' : LogicalPlan) (e e' : Expression)
      → SameRun c c'
      → SameValues e e'
      → SameRun (filter c e) (filter c' e')
  unfolding schema execute filtered_partition
  filter-SameRun c c' e e' h same =
      let parts : filtered_partition e' ≡ filtered_partition e = fun_ext λ p.
        ap (λ a. record p { records = a; row_count = none })
          (filter_rows-congr e e' same p.records) in
      (h.0, rw (h.1, parts))

  pub project-SameRun :
      (c c' : LogicalPlan) (es es' : List Expression)
      → SameRun c c'
      → All₂ SameValues es es'
      → ((m : Result Schema) → output_fields es' m ≡ output_fields es m)
      → SameRun (project c es) (project c' es')
  unfolding schema execute projected_partition
  project-SameRun c c' es es' h same fields =
      let parts : (s : Schema) → projected_partition s es' ≡ projected_partition s es = λ s.
        fun_ext λ p.
          ap (λ a. record p { schema = s; records = a })
            (project_rows-congr (field_names s) es es' same p.records) in
      let schemas : schema (project c' es') ≡ schema (project c es) = rw (h.0, fields (schema c)) in
      (
        schemas,
        rw (h.1, schemas)
            λ i. execute c >>= λ d. schema (project c es) >>= λ s.
              ok (record { schema = s; partitions = map (parts s i) d.partitions }),
      )

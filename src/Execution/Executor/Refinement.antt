-- ===== src/Execution/Executor/Refinement.antt =====
-- What a rewritten plan owes to the original. The original's rows, where collecting them raises
-- nothing, are the rewritten plan's rows; the columns keep their names.
use minispark.Common.{List, [], ◌∷◌, ◌≡◌, refl, ◌∙◌, Result, ok, raise, All₂}
use minispark.Core.Value.{Record, Host}
use minispark.Core.Schema.{Schema, field_names}
use minispark.Core.Dataset.{Rows, to_list, Partition, Dataset}
use minispark.Logical.Nodes.{LogicalPlan, schema}
use minispark.Execution.Executor.{execute}

abbrev pub Refines : Rows → Rows → Type 0
Refines a b = (rs : List Record) → to_list a ≡ ok rs → to_list b ≡ ok rs

abbrev pub PartitionsRefine : List Partition → List Partition → Type 0
PartitionsRefine ps qs = All₂ (λ p q. Refines p.records q.records) ps qs

abbrev pub SchemaRefines : Result Schema → Result Schema → Type 0
SchemaRefines (ok s) (ok s') = field_names s' ≡ field_names s
SchemaRefines (ok s) (raise e) = ⊥
SchemaRefines (raise e) _ = Unit

abbrev pub DatasetRefines : Result Dataset → Result Dataset → Type 0
DatasetRefines (ok d) (ok d') =
    (field_names d'.schema ≡ field_names d.schema) × PartitionsRefine d.partitions d'.partitions
DatasetRefines (ok d) (raise e) = ⊥
DatasetRefines (raise e) _ = Unit

PartitionsRefine-refl : (ps : List Partition) → PartitionsRefine ps ps
PartitionsRefine-refl [] = tt
PartitionsRefine-refl (p ∷ ps) = ((λ rs h. h), PartitionsRefine-refl ps)

PartitionsRefine-trans :
    (ps qs us : List Partition)
    → PartitionsRefine ps qs
    → PartitionsRefine qs us
    → PartitionsRefine ps us
PartitionsRefine-trans [] [] [] h k = tt
PartitionsRefine-trans (p ∷ ps) (q ∷ qs) (u ∷ us) h k =
    ((λ rs e. k.0 rs (h.0 rs e)), PartitionsRefine-trans ps qs us h.1 k.1)
PartitionsRefine-trans [] (q ∷ qs) us h k = absurd h
PartitionsRefine-trans [] [] (u ∷ us) h k = absurd k
PartitionsRefine-trans (p ∷ ps) [] us h k = absurd h
PartitionsRefine-trans (p ∷ ps) (q ∷ qs) [] h k = absurd k

module _ ⦃py : Host⦄ where
  pub record PlanRefines (p q : LogicalPlan) : Type 0 where
    pub schemas : SchemaRefines (schema p) (schema q)
    pub rows : DatasetRefines (execute p) (execute q)

  pub PlanRefines-refl : (p : LogicalPlan) → PlanRefines p p
  PlanRefines-refl p = record { schemas = same_schema (schema p); rows = same_rows (execute p) }
    where
      same_schema : (m : Result Schema) → SchemaRefines m m
      same_schema (ok s) = refl
      same_schema (raise e) = tt

      same_rows : (m : Result Dataset) → DatasetRefines m m
      same_rows (ok d) = (refl, PartitionsRefine-refl d.partitions)
      same_rows (raise e) = tt

  pub PlanRefines-trans :
      {p q u : LogicalPlan} → PlanRefines p q → PlanRefines q u → PlanRefines p u
  PlanRefines-trans {p} {q} {u} h k = record {
    schemas = via_schema (schema p) (schema q) (schema u) h.schemas k.schemas;
    rows = via_rows (execute p) (execute q) (execute u) h.rows k.rows;
  }
    where
      via_schema :
          (l m n : Result Schema) → SchemaRefines l m → SchemaRefines m n → SchemaRefines l n
      via_schema (ok s) (ok s') (ok s'') h k = k ∙ h
      via_schema (ok s) (ok s') (raise e) h k = absurd k
      via_schema (ok s) (raise e) n h k = absurd h
      via_schema (raise e) m n h k = tt

      via_rows :
          (l m n : Result Dataset) → DatasetRefines l m → DatasetRefines m n → DatasetRefines l n
      via_rows (ok s) (ok s') (ok s'') h k =
          (k.0 ∙ h.0, PartitionsRefine-trans s.partitions s'.partitions s''.partitions h.1 k.1)
      via_rows (ok s) (ok s') (raise e) h k = absurd k
      via_rows (ok s) (raise e) n h k = absurd h
      via_rows (raise e) m n h k = tt

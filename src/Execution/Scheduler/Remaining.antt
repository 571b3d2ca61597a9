-- ===== src/Execution/Scheduler/Remaining.antt =====
-- How many stages can still be recomputed: each recovery leaves one fewer.
use minispark.Common.{
  ℕ, suc, ◌+◌, ◌≤◌, ◌==◌, arith, Bool, true, false, ◌||◌, some, List, [], ◌∷◌, ◌++◌, length, ◌≡◌,
  if◌then◌else◌, Option-cases, ==_iff, ap, ◌∙◌, inl, inr,
}
use minispark.Common.Dicts.{mem_id}
use minispark.Execution.Stages.{Stage}
use minispark.Execution.Metrics.{StageMetrics}
use minispark.Execution.Scheduler.{find_stage}

-- The stages that were not recomputed.
abbrev pub remaining : List Stage → List ℕ → ℕ
remaining [] ids = 0
remaining (s ∷ ss) ids = (if mem_id s.stage_id ids then 0 else 1) + remaining ss ids

-- The runs that were recomputations.
abbrev pub recomputations : List StageMetrics → ℕ
recomputations [] = 0
recomputations (m ∷ ms) = (if m.recomputed then 1 else 0) + recomputations ms

pub recomputations-append :
    (ms : List StageMetrics) (m : StageMetrics)
    → recomputations (ms ++ (m ∷ [])) ≡ recomputations ms + (if m.recomputed then 1 else 0)
recomputations-append [] m = omega arith
recomputations-append (m₁ ∷ ms) m = omega (arith, recomputations-append ms m)

pub remaining-none : (ss : List Stage) → remaining ss [] ≤ length ss
unfolding mem_id
remaining-none [] = omega arith
remaining-none (s ∷ ss) = omega (arith, remaining-none ss)

-- Whether a stage of this id counts.
abbrev counts : ℕ → List ℕ → ℕ
counts j ids = if mem_id j ids then 0 else 1

counts-cons : (j i : ℕ) (ids : List ℕ) → counts j (i ∷ ids) ≤ counts j ids
unfolding mem_id
counts-cons j i ids = less (j == i) (mem_id j ids)
  where
    less : (a b : Bool) → (if a || b then 0 else 1) ≤ (if b then 0 else 1)
    less true true = omega arith
    less true false = omega arith
    less false b = omega arith

counts-same : (j i : ℕ) (ids : List ℕ) → (j == i) ≡ true → counts j (i ∷ ids) ≡ 0
unfolding mem_id
counts-same j i ids h = ap (λ b. if b || mem_id j ids then 0 else 1) h

counts-fresh : (j i : ℕ) (ids : List ℕ) → (j == i) ≡ true → mem_id i ids ≡ false → counts j ids ≡ 1
counts-fresh j i ids h fresh =
    ap (λ b. if b then 0 else 1) (ap (λ k. mem_id k ids) ((==_iff j i).0 h) ∙ fresh)

remaining-cons :
    (ss : List Stage) (i : ℕ) (ids : List ℕ) → remaining ss (i ∷ ids) ≤ remaining ss ids
remaining-cons [] i ids = omega arith
remaining-cons (s ∷ ss) i ids =
    let rest = remaining-cons ss i ids in
    let head = counts-cons s.stage_id i ids in omega (arith, rest, head)

pub remaining-recover :
    (ss : List Stage) (i : ℕ) (ids : List ℕ) {s : Stage}
    → mem_id i ids ≡ false
    → find_stage i ss ≡ some s
    → suc (remaining ss (i ∷ ids)) ≤ remaining ss ids
unfolding find_stage
remaining-recover [] i ids fresh h = absurd (ground arith)
remaining-recover (s ∷ ss) i ids fresh h = elim (Option-cases (find_stage i ss)) [
  | inr (t, e) ↦
      let rest = remaining-recover ss i ids fresh e in
      let head = counts-cons s.stage_id i ids in omega (arith, rest, head)
  | inl e ↦
      let same : (s.stage_id == i) ≡ true = ground arith in
      let rest = remaining-cons ss i ids in
      let gone = counts-same s.stage_id i ids same in
      let there = counts-fresh s.stage_id i ids same fresh in omega (arith, rest, gone, there)
]

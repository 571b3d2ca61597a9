-- ===== src/Execution/Stages/Order.antt =====
-- Plans that the physical planner can give, and stages that are in order.
use minispark.Common.{ℕ, suc, ◌+◌, ◌≤◌, ◌<◌, arith, List, [], ◌∷◌, ◌++◌, length, ◌≡◌, subst}
use minispark.Physical.Plan.{
  PhysicalPlan, scan_exec, filter_exec, project_exec, hash_aggregate_exec, exchange_exec,
  shuffle_write_exec, shuffle_read_exec, hash_join_exec, sort_exec,
}
use minispark.Execution.Stages.{Stage}

-- The nodes that stage splitting itself makes are not in the plan yet.
abbrev pub IsPlanned : PhysicalPlan → Type 0
IsPlanned (scan_exec d n) = Unit
IsPlanned (filter_exec c e) = IsPlanned c
IsPlanned (project_exec c es s) = IsPlanned c
IsPlanned (hash_aggregate_exec c gs as' s part t) = IsPlanned c
IsPlanned (exchange_exec c n es b rs) = IsPlanned c
IsPlanned (shuffle_write_exec c n es rs) = ⊥
IsPlanned (shuffle_read_exec i s b) = ⊥
IsPlanned (hash_join_exec l r lk rk on s) = IsPlanned l × IsPlanned r
IsPlanned (sort_exec c es asc s t) = IsPlanned c

abbrev pub exchanges : PhysicalPlan → ℕ
exchanges (scan_exec d n) = 0
exchanges (filter_exec c e) = exchanges c
exchanges (project_exec c es s) = exchanges c
exchanges (hash_aggregate_exec c gs as' s part t) = exchanges c
exchanges (exchange_exec c n es b rs) = suc (exchanges c)
exchanges (shuffle_write_exec c n es rs) = exchanges c
exchanges (shuffle_read_exec i s b) = 0
exchanges (hash_join_exec l r lk rk on s) = exchanges l + exchanges r
exchanges (sort_exec c es asc s t) = exchanges c

-- No exchange is left, and what is read was written by a stage of a number below `n`.
abbrev pub ReadsBelow : ℕ → PhysicalPlan → Type 0
ReadsBelow n (scan_exec d x) = Unit
ReadsBelow n (filter_exec c e) = ReadsBelow n c
ReadsBelow n (project_exec c es s) = ReadsBelow n c
ReadsBelow n (hash_aggregate_exec c gs as' s part t) = ReadsBelow n c
ReadsBelow n (exchange_exec c x es b rs) = ⊥
ReadsBelow n (shuffle_write_exec c x es rs) = ReadsBelow n c
ReadsBelow n (shuffle_read_exec i s b) = i < n
ReadsBelow n (hash_join_exec l r lk rk on s) = ReadsBelow n l × ReadsBelow n r
ReadsBelow n (sort_exec c es asc s t) = ReadsBelow n c

-- Stages numbered from `k` on, each of which reads only from stages of lower numbers.
abbrev pub IsNumbered : ℕ → List Stage → Type 0
IsNumbered k [] = Unit
IsNumbered k (s ∷ ss) = (s.stage_id ≡ k) × ReadsBelow k s.plan × IsNumbered (suc k) ss

pub ReadsBelow-mono : (m n : ℕ) (p : PhysicalPlan) → m ≤ n → ReadsBelow m p → ReadsBelow n p
ReadsBelow-mono m n (scan_exec d x) h k = tt
ReadsBelow-mono m n (filter_exec c e) h k = ReadsBelow-mono m n c h k
ReadsBelow-mono m n (project_exec c es s) h k = ReadsBelow-mono m n c h k
ReadsBelow-mono m n (hash_aggregate_exec c gs as' s part t) h k = ReadsBelow-mono m n c h k
ReadsBelow-mono m n (exchange_exec c x es b rs) h k = k
ReadsBelow-mono m n (shuffle_write_exec c x es rs) h k = ReadsBelow-mono m n c h k
ReadsBelow-mono m n (shuffle_read_exec i s b) h k = omega arith
ReadsBelow-mono m n (hash_join_exec l r lk rk on s) h k =
    (ReadsBelow-mono m n l h k.0, ReadsBelow-mono m n r h k.1)
ReadsBelow-mono m n (sort_exec c es asc s t) h k = ReadsBelow-mono m n c h k

pub IsNumbered-append :
    (k : ℕ) (xs ys : List Stage)
    → IsNumbered k xs
    → IsNumbered (k + length xs) ys
    → IsNumbered k (xs ++ ys)
IsNumbered-append k [] ys h j = subst (λ n. IsNumbered n ys) (omega arith) j
IsNumbered-append k (x ∷ xs) ys h j =
    (h.0, h.1, IsNumbered-append (suc k) xs ys h.2 (subst (λ n. IsNumbered n ys) (omega arith) j))

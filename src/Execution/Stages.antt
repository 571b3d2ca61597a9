-- ===== src/Execution/Stages.antt =====
-- minispark/execution/stages.py: the plan is cut into stages at each ExchangeExec. The list that
-- `_split` appends to is passed along; a Python object's identity (`fragment is child`) is a Boolean
-- that says whether the fragment is the object that went in.
pub mod Order
pub mod Splitting
pub mod Building
use minispark.Common.{
  ℕ, ◌+◌, Bool, true, false, ◌&&◌, List, [], ◌∷◌, ◌++◌, length, if◌then◌else◌, Result, ok, raise,
  ◌>>=◌, not_implemented,
}
use minispark.Core.Dataset.{num_partitions}
use minispark.Physical.Plan.{
  PhysicalPlan, scan_exec, filter_exec, project_exec, hash_aggregate_exec, exchange_exec,
  shuffle_write_exec, shuffle_read_exec, hash_join_exec, sort_exec, schema_of,
}

pub record Stage : Type 0 where
  pub stage_id : ℕ
  pub plan : PhysicalPlan
  pub num_partitions : ℕ

-- What `_split` returns, with the stages that it has appended so far.
pub record Split : Type 0 where
  pub fragment : PhysicalPlan
  pub partitions : ℕ
  pub is_original : Bool
  pub stages : List Stage

-- `_with_child(plan, new_child)`.
unfoldable pub with_child : PhysicalPlan → PhysicalPlan → Result PhysicalPlan
with_child (filter_exec c e) c' = ok (filter_exec c' e)
with_child (project_exec c es s) c' = ok (project_exec c' es s)
with_child (hash_aggregate_exec c gs as' s part t) c' = ok (hash_aggregate_exec c' gs as' s part t)
with_child (sort_exec c es asc s t) c' = ok (sort_exec c' es asc s t)
with_child _ c' = raise not_implemented

-- A node of one child, once the child is split.
unfoldable pub rebuild : PhysicalPlan → Split → Result Split
unfolding with_child
rebuild p r =
    if r.is_original
    then ok
        (record { fragment = p; partitions = r.partitions; is_original = true; stages = r.stages })
    else do
      fragment ← with_child p r.fragment
      ok (record {
        fragment = fragment;
        partitions = r.partitions;
        is_original = false;
        stages = r.stages;
      })

-- An exchange, once the child is split: the upstream stage is closed, and its blocks are read.
unfoldable pub close_stage : PhysicalPlan → Split → Result Split
close_stage (exchange_exec c n es b rs) r = ok (record {
  fragment = shuffle_read_exec (length r.stages) (schema_of (exchange_exec c n es b rs)) b;
  partitions = n;
  is_original = false;
  stages =
      r.stages
      ++ (record {
        stage_id = length r.stages;
        plan = shuffle_write_exec r.fragment n es rs;
        num_partitions = r.partitions;
      }
          ∷ []);
})
close_stage _ r = raise not_implemented

-- A join, once its two sides are split.
unfoldable pub join_sides : PhysicalPlan → Split → Split → Result Split
join_sides (hash_join_exec l r lk rk on s) left right = ok (
    if left.is_original && right.is_original
    then record {
      fragment = hash_join_exec l r lk rk on s;
      partitions = left.partitions;
      is_original = true;
      stages = right.stages;
    }
    else record {
      fragment = hash_join_exec left.fragment right.fragment lk rk on s;
      partitions = left.partitions;
      is_original = false;
      stages = right.stages;
    })
join_sides _ left right = raise not_implemented

-- `_split(plan, stages)`.
unfoldable pub split : PhysicalPlan → List Stage → Result Split
unfolding rebuild close_stage join_sides
split (scan_exec d n) ss = ok (record {
  fragment = scan_exec d n;
  partitions = num_partitions d;
  is_original = true;
  stages = ss;
})
split (exchange_exec c n es b rs) ss = split c ss >>= close_stage (exchange_exec c n es b rs)
split (hash_join_exec l r lk rk on s) ss =
    split l ss >>= λ left. split r left.stages >>= join_sides (hash_join_exec l r lk rk on s) left
split (filter_exec c e) ss = split c ss >>= rebuild (filter_exec c e)
split (project_exec c es s) ss = split c ss >>= rebuild (project_exec c es s)
split (hash_aggregate_exec c gs as' s part t) ss =
    split c ss >>= rebuild (hash_aggregate_exec c gs as' s part t)
split (sort_exec c es asc s t) ss = split c ss >>= rebuild (sort_exec c es asc s t)
split (shuffle_write_exec c n es rs) ss = split c ss >>= rebuild (shuffle_write_exec c n es rs)
split (shuffle_read_exec i s b) ss = raise not_implemented

-- `build_stages(plan)`, in order of execution.
unfoldable pub build_stages : PhysicalPlan → Result (List Stage)
unfolding split
build_stages p = do
  r ← split p []
  ok (
      r.stages
      ++ (record { stage_id = length r.stages; plan = r.fragment; num_partitions = r.partitions }
          ∷ []))

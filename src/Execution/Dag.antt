-- ===== src/Execution/Dag.antt =====
-- minispark/execution/dag.py: the dependency of each physical node on its children.
use minispark.Common.{Bool, true, false, ◌||◌}
use minispark.Physical.Plan.{
  PhysicalPlan, scan_exec, filter_exec, project_exec, hash_aggregate_exec, exchange_exec,
  shuffle_write_exec, shuffle_read_exec, hash_join_exec, sort_exec,
}

pub data DependencyKind : Type 0 where
  narrow wide : DependencyKind

unfoldable pub dependency_kind : PhysicalPlan → DependencyKind
dependency_kind (exchange_exec c n es b rs) = wide
dependency_kind _ = narrow

mutual
  pub data DagNode : Type 0 where
    node : (plan : PhysicalPlan) (dependency : DependencyKind) (children : Nodes) → DagNode

  pub data Nodes : Type 0 where
    nil : Nodes
    cons : DagNode → Nodes → Nodes

unfoldable pub node_of : PhysicalPlan → Nodes → DagNode
unfolding dependency_kind
node_of p children = node p (dependency_kind p) children

unfoldable pub build_dag : PhysicalPlan → DagNode
unfolding node_of
build_dag (scan_exec d n) = node_of (scan_exec d n) nil
build_dag (filter_exec c e) = node_of (filter_exec c e) (cons (build_dag c) nil)
build_dag (project_exec c es s) = node_of (project_exec c es s) (cons (build_dag c) nil)
build_dag (hash_aggregate_exec c gs as' s part t) =
    node_of (hash_aggregate_exec c gs as' s part t) (cons (build_dag c) nil)
build_dag (exchange_exec c n es b rs) = node_of (exchange_exec c n es b rs) (cons (build_dag c) nil)
build_dag (shuffle_write_exec c n es rs) =
    node_of (shuffle_write_exec c n es rs) (cons (build_dag c) nil)
build_dag (shuffle_read_exec i s b) = node_of (shuffle_read_exec i s b) nil
build_dag (hash_join_exec l r lk rk on s) =
    node_of (hash_join_exec l r lk rk on s) (cons (build_dag l) (cons (build_dag r) nil))
build_dag (sort_exec c es asc s t) = node_of (sort_exec c es asc s t) (cons (build_dag c) nil)

-- `node.dependency is DependencyKind.WIDE`.
unfoldable pub is_wide : DependencyKind → Bool
is_wide wide = true
is_wide narrow = false

unfoldable mutual
  unfolding is_wide

  pub has_wide_dependency : DagNode → Bool
  has_wide_dependency (node p k cs) = is_wide k || any_wide_dependency cs

  pub any_wide_dependency : Nodes → Bool
  any_wide_dependency nil = false
  any_wide_dependency (cons n ns) = has_wide_dependency n || any_wide_dependency ns

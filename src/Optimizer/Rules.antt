-- ===== src/Optimizer/Rules.antt =====
-- minispark/optimizer/rules.py: each rule is a function from a plan to a plan. A rule can raise: the
-- schema of a node is computed anew, and folding a constant runs its operator.
pub mod Fold
pub mod Simplify
pub mod Pushdown
pub mod Prune
pub mod Eliminate

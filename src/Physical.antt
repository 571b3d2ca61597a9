-- ===== src/Physical.antt =====
-- minispark/physical: the physical plan, the planner and the operators.
pub mod Plan
pub mod Operators
pub mod Planner
pub mod Spill

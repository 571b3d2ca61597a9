-- ===== src/Expressions.antt =====
-- minispark/expressions: the expression tree, its evaluation on a row, and aggregate functions.
pub mod Syntax
pub mod Evaluate
pub mod Repr
pub mod Aggregate

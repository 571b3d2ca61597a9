-- ===== src/Optimizer.antt =====
-- minispark/optimizer: rewrite rules and their repetition up to a fixed point.
pub mod MapExpressions
pub mod Rules
pub mod Loop
pub mod Statistics

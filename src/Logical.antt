-- ===== src/Logical.antt =====
-- minispark/logical: the logical plan, its schemas, its printer and the analyzer.
pub mod Nodes
pub mod Explain
pub mod Analyzer

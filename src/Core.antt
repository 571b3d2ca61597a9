-- ===== src/Core.antt =====
-- minispark/core: values, records, data types, schemas, partitions and datasets.
pub mod Value
pub mod Types
pub mod Schema
pub mod Dataset

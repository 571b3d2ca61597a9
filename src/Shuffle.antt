-- ===== src/Shuffle.antt =====
-- minispark/shuffle: moving rows between partitions.
pub mod Partitioner
pub mod Writer
pub mod Reader
pub mod Manager
pub mod Contents
pub mod RoundTrip

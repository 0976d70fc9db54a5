-- ===== src/Audit.antt =====
-- crates/guardian-audit: the hash-chained log and the report over it.
pub mod Log
pub mod Report

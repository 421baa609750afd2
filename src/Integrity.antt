-- ===== src/Integrity.antt =====
-- crates/xde/src/integrity: whether bytes that were fetched again are the same.
pub mod Overlap

-- ===== src/Storage.antt =====
-- The storage side: crates/xde/src/storage.
pub mod Reorder
pub mod Budget
pub mod Capacity
pub mod Journal

-- ===== src/Shard.antt =====
-- crates/xde/src/shard.rs: the shards, which run the assignments.
pub mod Sink

-- ===== src/Core/Segment.antt =====
-- crates/xde/src/core/segment.rs: the segment plan of one job.
pub mod Plan
pub mod Claim
pub mod Progress
pub mod Commits
pub mod Stragglers
pub mod Release
pub mod Tail
pub mod Owners
pub mod Ownership
pub mod Pieces

-- ===== src/Core.antt =====
-- crates/xde/src/core: the pure part of the engine.
pub mod Ranges
pub mod Units
pub mod Ewma
pub mod SlotMap
pub mod Policy
pub mod Segment
pub mod Disposition
pub mod Provenance
pub mod Timers
pub mod Representation
pub mod Slots
pub mod Examples

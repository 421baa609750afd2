-- ===== src/Http.antt =====
-- crates/xde/src/http: what is read of a response before its body is believed.
pub mod Text
pub mod Range
pub mod Fetch
pub mod FullBody
pub mod Response

-- ===== src/Engine.antt =====
-- crates/engine: packet sets, first-match evaluation, the delta between two revisions.
pub mod Bdd
pub mod Header
pub mod Packet
pub mod Accept
pub mod Explain
pub mod Pairing
pub mod Diff
pub mod Region

-- ===== src/Pipeline.antt =====
-- From the text of two rule files to the delta between their chains, as crates/cli/src/main.rs puts
-- crates/nft, crates/ir and crates/engine together.
pub mod Accepted
pub mod Ports
pub mod Policies

-- ===== src/Policy.antt =====
-- crates/policy: assertions on a chain, and their check against its model.
pub mod Toml
pub mod Assertion
pub mod Scalars
pub mod Load
pub mod Eval

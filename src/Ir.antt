-- ===== src/Ir.antt =====
-- crates/ir: what a rule says. The match dimensions, interval sets, interfaces and rules.
pub mod Prefixes
pub mod Field
pub mod Intervals
pub mod Interface
pub mod Rule

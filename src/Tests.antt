-- ===== src/Tests.antt =====
-- Runs of the model on small inputs, and the theorems applied to them.
mod Sets
mod Engine
mod Cells
mod Tokens
mod Policies
mod Parsing
mod Regions
mod Loading

-- ===== src/Memo.antt =====
-- The dependency evaluator of crates/cbr-memory/src/evaluator.rs.
pub mod Durability
pub mod Store
pub mod Session
pub mod Stamps
pub mod Balance
pub mod Rows
pub mod Untracked

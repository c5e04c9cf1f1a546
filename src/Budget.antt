-- ===== src/Budget.antt =====
-- crates/cbr-provider/src/budget.rs: what the model runtime may spend.
pub mod Refusals
pub mod Rows
pub mod Ledger
pub mod Spend
pub mod Admission
pub mod Overruns
pub mod Stops
pub mod Closed
pub mod Once

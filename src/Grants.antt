-- ===== src/Grants.antt =====
-- crates/cbr-provider/src/grants.rs: grant records, the authorization decision, and the issue of a
-- grant, part by part.
pub mod Records
pub mod Decision
pub mod Issue
pub mod RoundTrip
pub mod Narrowing
pub mod Delegation
pub mod Checks
pub mod Issued

-- ===== src/Clock.antt =====
-- The provider clock and its instants: crates/cbr-provider/src/clock.rs, and the reader of
-- instants in crates/cbr-provider/src/budget.rs.
pub mod Instants
pub mod RoundTrip

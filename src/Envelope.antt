-- ===== src/Envelope.antt =====
-- crates/cbr-provider/src/envelope.rs: what a message may look like, part by part: the names and
-- the limits, the closed objects, and the command and query envelopes.
pub mod Names
pub mod Limits
pub mod Measures
pub mod Members
pub mod Commands
pub mod Checked
pub mod Accepted

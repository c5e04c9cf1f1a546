-- ===== src/Examples.antt =====
-- Concrete runs of the theorems.
pub mod Codec
pub mod Memos
pub mod Tokens
pub mod Streams
pub mod Jobs
pub mod Messages
pub mod Searches
pub mod Authority

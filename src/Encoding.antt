-- ===== src/Encoding.antt =====
-- The crate crates/cbr-encoding: canonical JSON, digests, base64 and command intent.
pub mod Base64
pub mod Value
pub mod Access
pub mod Equality
pub mod Errors
pub mod Utf8
pub mod Domain
pub mod Decimal
pub mod Canonical
pub mod Parse
pub mod Digest
pub mod Intent

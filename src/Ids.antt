-- ===== src/Ids.antt =====
-- crates/cbr-provider/src/ids.rs: the identifiers a packet names. A `str` is here the list of its
-- UTF-8 bytes, which is what the code reads it by.
pub mod Codec
pub mod Bounded
pub mod RoundTrip
pub mod Tail
pub mod Grammar
pub mod Apart

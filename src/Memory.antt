-- ===== src/Memory.antt =====
-- crates/cbr-memory/src: how a text is divided for the index (lexical.rs), and how a search is
-- answered page by page (retrieval.rs). The index itself is SQLite's.
pub mod Chunks
pub mod Slices
pub mod Tiled
pub mod Cuts
pub mod Tiling
pub mod Terms
pub mod Retrieval
pub mod Canonical
pub mod Search
pub mod Keyset
pub mod Shown
pub mod Gaps

-- ===== src/Worlds.antt =====
-- crates/liaozhai-worlds: the catalogue of worlds.
pub mod Metadata
pub mod Registry

-- ===== src/Core.antt =====
-- crates/liaozhai-core: the shared constants, identifiers and errors.
pub mod Constants
pub mod Error
pub mod Id

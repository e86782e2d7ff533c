-- ===== src/Net.antt =====
-- crates/liaozhai-net: the telnet codec, the session and the connection handler.
pub mod Iac
pub mod Codec
pub mod Session
pub mod Output
pub mod Connection

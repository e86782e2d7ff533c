-- ===== src/Server.antt =====
-- crates/liaozhai-server: the configuration, the start, the accept loop and the commands.
pub mod Config
pub mod Listener
pub mod Startup
pub mod Commands
pub mod Main

-- ===== src/Lib.antt =====
-- Liaozhai MUX: a verification library for the server crates.
--
-- A client connects over telnet. The listener (crates/liaozhai-server/src/listener.rs) gives it a
-- permit and a task; the connection handler (crates/liaozhai-net/src/connection.rs) reads items from
-- the codec (codec.rs), hands each line to the session (session.rs), writes what the session answers
-- (output.rs), verifies credentials against the account store and counts failures in the rate limiter
-- (crates/liaozhai-auth/src). The session ends with the choice of a world from the registry
-- (crates/liaozhai-worlds/src).
--
-- Which file models which part:
--   Common, Text: lists, native numbers, UTF-8, trimming, templates and decimals as the standard
--     library has them
--   Core: crates/liaozhai-core/src (constants.rs, error.rs, id.rs)
--   Worlds.Metadata, Worlds.Registry: crates/liaozhai-worlds/src; `parse_worlds_toml`,
--     `get_by_position`
--   Auth.RateLimiter: rate_limiter.rs; `is_throttled`, `record_failure`, `reset` return the new
--     map, a list of entries, which Unordered takes up to its order and Log compares with what the
--     limiter was told
--   Auth.External, Auth.Store: store.rs over records for SQLite, Argon2 and UUID texts, whose
--     documented behaviour stands in records of laws
--   Net.Iac, Net.Codec: codec.rs; the buffer is a list of bytes, the in-place loop of `strip_iac`
--     (Net.Iac) keeps its indices, and a panic is `none`
--   Net.Session: session.rs, a function from the state and the line to a transition
--   Net.Output, Net.Connection: output.rs and connection.rs; one pass of the loop is `step` on an
--     event, and `Reached` closes it under the passes and under what other connections do to the
--     limiter and the store
--   Net.Codec.Stream: a reader that calls `decode` on a stream in pieces; Typed is the case of a client
--     that types lines
--   Net.Connection.Login, Lockout, Typed, Accounts: what a client meets from the bytes of its name to
--     the choice of a world, with the store of Auth.Store behind the loop
--   Net.Connection.Visits, AtOnce: a client that connects again and again, and one that opens many
--     connections first
--   Net.Connection.Interleaved: many connections whose passes interleave on what they share, and which
--     of them are at the selection of a world
--   Server.Config, Server.Startup, Server.Listener, Server.Commands: crates/liaozhai-server/src
--     (config.rs, listener.rs, main.rs); `run_cli` of Server.Main is `main` behind the parser of the
--     arguments, and Server.Startup.Hosted the accept loop with the handlers that it spawns
--   Tests: the unit tests of the crates as Booleans that are computed, on a database in memory and a
--     key derivation that keeps the password
--   Examples: the parameters at concrete functions, and the theorems at concrete inputs
--
-- Bounds and fuel. The loop of `strip_iac` has one more round of fuel than the buffer has bytes, and
-- each round takes a byte; `decode` calls itself at most once, so that its fuel is 2. Counters keep
-- their wrap-around: `auth_failures` at 2 ^ 32, `line_count` at 2 ^ 64, and `parse_usize` refuses
-- what does not fit 64 bits. Times are numbers of one unit, not below the first instant.
--
-- Not modelled: logging, but for the filter that `init_tracing` takes, the threads that run blocking
-- calls (a pass of a loop is one step), SQL text, the handlers of the signals, the parsing of
-- arguments and the terminal prompt. Local times are a parameter. A write that fails is taken to
-- have sent nothing.
pub mod Common
pub mod Text
pub mod Core
pub mod Worlds
pub mod Auth
pub mod Net
pub mod Server
pub mod Examples
pub mod Tests

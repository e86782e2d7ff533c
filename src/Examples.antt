-- ===== src/Examples.antt =====
-- The theorems at concrete inputs, and the parameters of the model at concrete functions.
pub mod Memory
mod Codec
mod Session
mod Limiter
mod Store
mod Connection
mod Server
mod Logins
mod Visits
mod Typed
mod Accounts
mod Streams
mod Interleaved
mod Vouched

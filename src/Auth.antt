-- ===== src/Auth.antt =====
-- crates/liaozhai-auth: accounts, the rate limiter and the account store.
pub mod Account
pub mod Params
pub mod RateLimiter
pub mod External
pub mod Store

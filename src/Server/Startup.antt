-- ===== src/Server/Startup.antt =====
-- crates/liaozhai-server/src/listener.rs, `run`, up to the accept loop, and the arm of main.rs that
-- calls it. The file system, the TOML parsers, the random identifiers, the runtime and the socket are
-- the fields of `Environment`.
pub mod Ready
pub mod Hosted
use liaozhai.Auth.External.{Argon2, Database, UuidText}
use liaozhai.Auth.RateLimiter.{AuthRateLimiter, new_limiter}
use liaozhai.Auth.Store.{AccountStore, open_store}
use liaozhai.Common.{List, Option, Text, arith, codes, if◌then◌else◌, leb, refl, ℕ, ◌++◌, ◌≡◌}
use liaozhai.Core.Error.{Result, err, map_err, ok, ◌>>=◌}
use liaozhai.Core.Id.{WorldId}
use liaozhai.Server.Config.{
  AppConfig, AuthConfig, Chain, FileKeys, Overrides, ServerConfig, argon2_params, displayed,
  in_context, load, own_chain, own_text, rate_limit_window,
}
use liaozhai.Server.Listener.{Listener, new_listener}
use liaozhai.Text.Decimal.{to_string}
use liaozhai.Worlds.Metadata.{WorldEntryDto}
use liaozhai.Worlds.Registry.{WorldRegistry, load_from_toml}

pub record Environment : Type 0 where
  pub read_file : Text → Result Text Text
  pub config_from_toml : Text → Result Text FileKeys
  pub worlds_from_toml : Text → Result Text (List WorldEntryDto)
  pub fresh : ℕ → WorldId
  pub new_runtime : Result Text (Unit {0})
  -- `Semaphore::MAX_PERMITS` of tokio: `Semaphore::new` panics above it.
  pub max_permits : ℕ
  pub bind_listener : Text → Result Text (Unit {0})

-- How a server does not start.
pub data Failure : Type 0 where
  failed : Chain → Failure
  panicked : Failure

abbrev pub stage : {E A : Type 0} → Text → (E → Chain) → Result E A → Result Failure A
stage what causes r = map_err failed (in_context what causes r)

-- `Semaphore::new`
unfoldable pub new_semaphore : ℕ → ℕ → Result Failure Listener
new_semaphore max_permits permits =
    if leb permits max_permits then ok (new_listener permits) else err panicked

module _ {E A : Type 0} (what : Text) (causes : E → Chain) where
  -- A chain behind a stage that succeeds.
  pub stage-ok :
      {B : Type 0} (first : Result E A) (next : A → Result Failure B) (b : B)
      → (stage what causes first >>= next) ≡ ok b
      → (a : A) × (first ≡ ok a) × (next a ≡ ok b)
  stage-ok (ok a) next b h = (a, refl, h)
  stage-ok (err x) next b h = ground arith

-- `format!("{}:{}", bind_address, port)`
abbrev pub address_of : ServerConfig → Text
address_of server = server.bind_address ++ (codes ":" ++ to_string server.port)

abbrev pub limiter_of : AuthConfig → AuthRateLimiter
limiter_of c =
    new_limiter (rate_limit_window c) c.rate_limit_max_failures c.rate_limiter_max_entries

module _ (db : Database) (kdf : Argon2) (uuids : UuidText) where
  -- The token for the shutdown is among the events of the connections.
  pub record SessionContext : Type 0 where
    pub account_store : AccountStore db kdf uuids
    pub world_registry : WorldRegistry
    pub rate_limiter : AuthRateLimiter
    pub max_login_attempts : ℕ

  -- What the accept loop begins with.
  pub record Started : Type 0 where
    pub context : SessionContext
    pub listener : Listener
    pub drain_timeout : ℕ

  unfoldable pub run_listener : Environment → AppConfig → ℕ → Result Failure Started
  unfolding new_semaphore
  run_listener env cfg salt = do
    store ←
        stage (codes "opening account store") displayed
          (open_store db kdf uuids cfg.auth.db_path (argon2_params cfg.auth) salt)
    registry ←
        stage (codes "loading world registry") displayed
          (load_from_toml env.fresh env.worlds_from_toml env.read_file cfg.worlds.registry_path)
    listener ← new_semaphore env.max_permits cfg.server.max_connections
    bound ←
        stage (codes "binding TCP listener to " ++ address_of cfg.server) own_text
          (env.bind_listener (address_of cfg.server))
    ok (record {
      context = record {
        account_store = store;
        world_registry = registry;
        rate_limiter = limiter_of cfg.auth;
        max_login_attempts = cfg.auth.max_login_attempts;
      };
      listener = listener;
      drain_timeout = cfg.server.shutdown_drain_secs;
    })

  -- The arm `Command::Run` of `main`, up to the accept loop.
  unfoldable pub run_command : Environment → Option Text → Overrides → ℕ → Result Failure Started
  unfolding run_listener
  run_command env config_path overrides salt = do
    cfg ←
        stage (codes "loading configuration") own_chain
          (load env.read_file env.config_from_toml config_path overrides)
    runtime ← stage (codes "creating tokio runtime") own_text env.new_runtime
    run_listener env cfg salt

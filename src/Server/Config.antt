-- ===== src/Server/Config.antt =====
-- crates/liaozhai-server/src/config.rs. Reading a file and parsing TOML are arguments; the parser gives
-- the keys that are there, and `#[serde(default)]` fills in the others. An error is its text, with the
-- context before the cause.
use liaozhai.Auth.Params.{Argon2Params, new_params}
use liaozhai.Common.{List, Option, Text, [], arith, codes, none, refl, some, ℕ, ◌++◌, ◌∷◌, ◌≡◌}
use liaozhai.Core.Constants.{
  default_argon2_memory_cost, default_argon2_parallelism, default_argon2_time_cost,
  default_bind_address, default_log_filter, default_max_connections, default_max_login_attempts,
  default_port, default_rate_limit_max_failures, default_rate_limit_window_secs,
  default_rate_limiter_max_entries, default_shutdown_drain_secs,
}
use liaozhai.Core.Error.{Error, Result, display, err, map_err, ok, ◌>>=◌}

-- An error of anyhow: its contexts, the outermost first, and its cause.
abbrev pub Chain : Type 0
Chain = List Text

-- `.context(what)`; `causes` is what stands behind it.
abbrev pub in_context : {E A : Type 0} → Text → (E → Chain) → Result E A → Result Chain A
in_context what causes r = map_err (λ e. what ∷ causes e) r

-- An error that has its text alone, one of the crates, and one that has contexts already.
abbrev pub own_text : Text → Chain
own_text e = e ∷ []

abbrev pub displayed : Error → Chain
displayed e = display e ∷ []

abbrev pub own_chain : Chain → Chain
own_chain e = e

module _ {E A : Type 0} (what : Text) (causes : E → Chain) where
  -- A chain behind a context that succeeds.
  pub in_context-ok :
      {B : Type 0} (first : Result E A) (next : A → Result Chain B) (b : B)
      → (in_context what causes first >>= next) ≡ ok b
      → (a : A) × (first ≡ ok a) × (next a ≡ ok b)
  in_context-ok (ok a) next b h = (a, refl, h)
  in_context-ok (err x) next b h = ground arith

pub record ServerConfig : Type 0 where
  pub bind_address : Text
  pub port : ℕ
  pub max_connections : ℕ
  pub shutdown_drain_secs : ℕ

pub record AuthConfig : Type 0 where
  pub db_path : Text
  pub max_login_attempts : ℕ
  pub argon2_memory_cost : ℕ
  pub argon2_time_cost : ℕ
  pub argon2_parallelism : ℕ
  pub rate_limit_window_secs : ℕ
  pub rate_limit_max_failures : ℕ
  pub rate_limiter_max_entries : ℕ

pub record WorldsConfig : Type 0 where
  pub registry_path : Text

pub record LoggingConfig : Type 0 where
  pub default_filter : Text

pub record AppConfig : Type 0 where
  pub server : ServerConfig
  pub auth : AuthConfig
  pub worlds : WorldsConfig
  pub logging : LoggingConfig

abbrev pub default_server : ServerConfig
default_server = record {
  bind_address = default_bind_address;
  port = default_port;
  max_connections = default_max_connections;
  shutdown_drain_secs = default_shutdown_drain_secs;
}

abbrev pub default_auth : AuthConfig
default_auth = record {
  db_path = codes "./data/accounts.db";
  max_login_attempts = default_max_login_attempts;
  argon2_memory_cost = default_argon2_memory_cost;
  argon2_time_cost = default_argon2_time_cost;
  argon2_parallelism = default_argon2_parallelism;
  rate_limit_window_secs = default_rate_limit_window_secs;
  rate_limit_max_failures = default_rate_limit_max_failures;
  rate_limiter_max_entries = default_rate_limiter_max_entries;
}

abbrev pub default_worlds : WorldsConfig
default_worlds = record { registry_path = codes "./data/worlds.toml" }

abbrev pub default_logging : LoggingConfig
default_logging = record { default_filter = default_log_filter }

abbrev pub default_config : AppConfig
default_config = record {
  server = default_server;
  auth = default_auth;
  worlds = default_worlds;
  logging = default_logging;
}

-- `AuthConfig::argon2_params`
abbrev pub argon2_params : AuthConfig → Argon2Params
argon2_params c = new_params c.argon2_memory_cost c.argon2_time_cost c.argon2_parallelism

-- `AuthConfig::rate_limit_window`, in seconds
abbrev pub rate_limit_window : AuthConfig → ℕ
rate_limit_window c = c.rate_limit_window_secs

pub record Overrides : Type 0 where
  pub port : Option ℕ
  pub bind_address : Option Text

-- The keys of a file: each table, and each key of a table, may be missing.
pub record ServerKeys : Type 0 where
  pub bind_address : Option Text
  pub port : Option ℕ
  pub max_connections : Option ℕ
  pub shutdown_drain_secs : Option ℕ

pub record AuthKeys : Type 0 where
  pub db_path : Option Text
  pub max_login_attempts : Option ℕ
  pub argon2_memory_cost : Option ℕ
  pub argon2_time_cost : Option ℕ
  pub argon2_parallelism : Option ℕ
  pub rate_limit_window_secs : Option ℕ
  pub rate_limit_max_failures : Option ℕ
  pub rate_limiter_max_entries : Option ℕ

pub record FileKeys : Type 0 where
  pub server : Option ServerKeys
  pub auth : Option AuthKeys
  pub registry_path : Option Text
  pub default_filter : Option Text

module _ {ℓ} {A : Type ℓ} where
  -- `unwrap_or`
  abbrev pub or_else : Option A → A → A
  or_else (some a) d = a
  or_else none d = d

abbrev pub fill_server : Option ServerKeys → ServerConfig
fill_server none = default_server
fill_server (some k) = record {
  bind_address = or_else k.bind_address default_server.bind_address;
  port = or_else k.port default_server.port;
  max_connections = or_else k.max_connections default_server.max_connections;
  shutdown_drain_secs = or_else k.shutdown_drain_secs default_server.shutdown_drain_secs;
}

abbrev pub fill_auth : Option AuthKeys → AuthConfig
fill_auth none = default_auth
fill_auth (some k) = record {
  db_path = or_else k.db_path default_auth.db_path;
  max_login_attempts = or_else k.max_login_attempts default_auth.max_login_attempts;
  argon2_memory_cost = or_else k.argon2_memory_cost default_auth.argon2_memory_cost;
  argon2_time_cost = or_else k.argon2_time_cost default_auth.argon2_time_cost;
  argon2_parallelism = or_else k.argon2_parallelism default_auth.argon2_parallelism;
  rate_limit_window_secs = or_else k.rate_limit_window_secs default_auth.rate_limit_window_secs;
  rate_limit_max_failures = or_else k.rate_limit_max_failures default_auth.rate_limit_max_failures;
  rate_limiter_max_entries =
      or_else k.rate_limiter_max_entries default_auth.rate_limiter_max_entries;
}

-- `Deserialize` for `AppConfig`
abbrev pub fill_config : FileKeys → AppConfig
fill_config k = record {
  server = fill_server k.server;
  auth = fill_auth k.auth;
  worlds = record { registry_path = or_else k.registry_path default_worlds.registry_path };
  logging = record { default_filter = or_else k.default_filter default_logging.default_filter };
}

-- The overrides on top.
abbrev pub override : AppConfig → Overrides → AppConfig
override cfg o = record cfg {
  server = record cfg.server {
    port = or_else o.port cfg.server.port;
    bind_address = or_else o.bind_address cfg.server.bind_address;
  };
}

module _ (read_file : Text → Result Text Text) (from_toml : Text → Result Text FileKeys) where
  -- The file that is named, or no file.
  unfoldable pub load_file : Option Text → Result Chain AppConfig
  load_file none = ok default_config
  load_file (some path) = do
    contents ← in_context (codes "reading config file: " ++ path) own_text (read_file path)
    keys ← in_context (codes "parsing config file: " ++ path) own_text (from_toml contents)
    ok (fill_config keys)

  unfoldable pub load : Option Text → Overrides → Result Chain AppConfig
  unfolding load_file
  load config_path overrides = do cfg ← load_file config_path; ok (override cfg overrides)

  -- A file that is read and parsed and has a table `server` gives a configuration whose port is that
  -- of the command line if it is given there, else that of the file, else the default; the address
  -- likewise. The limit of connections, the authentication and the worlds are the file's, with
  -- defaults for the keys that are missing.
  pub load-precedence :
      (path contents : Text) (keys : FileKeys) (s : ServerKeys) (o : Overrides)
      → read_file path ≡ ok contents
      → from_toml contents ≡ ok keys
      → keys.server ≡ some s
      → (cfg : AppConfig) × (load (some path) o ≡ ok cfg)
        × (cfg.server.port ≡ or_else o.port (or_else s.port default_port))
        × (cfg.server.bind_address
            ≡ or_else o.bind_address (or_else s.bind_address default_bind_address))
        × (cfg.auth ≡ fill_auth keys.auth)
        × (cfg.server.max_connections ≡ or_else s.max_connections default_max_connections)
        × (cfg.worlds ≡ (fill_config keys).worlds)
  unfolding load load_file
  load-precedence path contents keys s o r p k =
      (override (fill_config keys) o, rw (r, p) refl, rw k refl, rw k refl, refl, rw k refl, refl)

-- `tracing_subscriber::EnvFilter`: the filter that `RUST_LOG` gives, if it is set and can be parsed, and
-- the one of a text.
pub record EnvFilters : Type 1 where
  pub EnvFilter : Type 0
  pub try_from_default_env : Option EnvFilter
  pub new_filter : Text → EnvFilter

-- `init_tracing`: the filter that the subscriber is built with.
unfoldable pub init_tracing : (filters : EnvFilters) → LoggingConfig → filters.EnvFilter
init_tracing filters logging = elim filters.try_from_default_env [
  | some filter ↦ filter
  | none ↦ filters.new_filter logging.default_filter
]

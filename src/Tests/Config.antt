-- ===== src/Tests/Config.antt =====
-- The tests of crates/liaozhai-server/src/config.rs. No file is read; the TOML text of the last one
-- stands for its keys.
use liaozhai.Common.{
  Bool, Text, [], codes, eq_list, false, none, refl, some, true, ◌&&◌, ◌==◌, ◌∷◌, ◌≡◌,
}
use liaozhai.Core.Constants.{default_port}
use liaozhai.Core.Error.{Result, err, ok}
use liaozhai.Server.Config.{
  AppConfig, FileKeys, Overrides, default_config, fill_config, load, load_file,
}
use liaozhai.Tests.{every}

abbrev no_overrides : Overrides
no_overrides = record { port = none; bind_address = none }

abbrev no_file : Text → Result Text Text
no_file path = err (codes "not found")

abbrev no_keys : FileKeys
no_keys = record { server = none; auth = none; registry_path = none; default_filter = none }

-- `load(None, overrides).unwrap()`, and what is asserted of it.
abbrev loads : Overrides → (AppConfig → Bool) → Bool
loads overrides asserted = elim (load no_file (λ contents. ok no_keys) none overrides) [
  | ok cfg ↦ asserted cfg
  | err e ↦ false
]

abbrev default_config_values : Bool
default_config_values =
    default_config.server.port == 4444
    && eq_list default_config.server.bind_address (codes "127.0.0.1")
    && default_config.server.max_connections == 100
    && eq_list default_config.logging.default_filter (codes "info")

abbrev load_without_file_returns_defaults : Bool
load_without_file_returns_defaults = loads no_overrides (λ cfg. cfg.server.port == default_port)

abbrev cli_port_override : Bool
cli_port_override =
    loads (record no_overrides { port = some 5555 }) (λ cfg. cfg.server.port == 5555)

abbrev cli_bind_override : Bool
cli_bind_override =
    loads (record no_overrides { bind_address = some (codes "0.0.0.0") })
      (λ cfg. eq_list cfg.server.bind_address (codes "0.0.0.0"))

abbrev toml_deserialization : Bool
toml_deserialization =
    let cfg = fill_config (record no_keys {
      server = some (record {
        bind_address = some (codes "10.0.0.1");
        port = some 9999;
        max_connections = none;
        shutdown_drain_secs = none;
      });
      default_filter = some (codes "debug");
    }) in
    cfg.server.port == 9999
    && eq_list cfg.server.bind_address (codes "10.0.0.1")
    && eq_list cfg.logging.default_filter (codes "debug")
    && eq_list cfg.auth.db_path (codes "./data/accounts.db")

config_tests :
    every (
      default_config_values ∷ load_without_file_returns_defaults ∷ cli_port_override
      ∷ cli_bind_override ∷ toml_deserialization ∷ [])
    ≡ true
unfolding every eq_list codes load load_file
config_tests = refl

-- ===== src/Server/Main.antt =====
-- crates/liaozhai-server/src/main.rs, `main` behind the parser of the arguments: which command runs.
use liaozhai.Auth.External.{Argon2, Database, UuidText}
use liaozhai.Auth.Store.{AccountStore}
use liaozhai.Common.{List, Option, Text, ℕ}
use liaozhai.Core.Error.{Result, map_err, ok, ◌>>=◌}
use liaozhai.Core.Id.{AccountId}
use liaozhai.Server.Commands.{AccountAction, LocalTime, account_command}
use liaozhai.Server.Config.{Chain}
use liaozhai.Server.Startup.{Environment, Failure, Started, failed, run_command}

-- `Command`
pub data Command : Type 0 where
  run_server : (port : Option ℕ) (bind_address : Option Text) → Command
  account : (action : AccountAction) → Command

-- `Cli`
pub record Cli : Type 0 where
  pub config : Option Text
  pub command : Command

-- What the environment gives a command: the salts, the identifier and the time for an account, and the
-- two readings of a password.
pub record Inputs : Type 0 where
  pub dummy_salt : ℕ
  pub salt : ℕ
  pub id : AccountId
  pub now : ℕ
  pub first : Result Chain Text
  pub second : Result Chain Text

module _ (db : Database) (kdf : Argon2) (uuids : UuidText) (time : LocalTime) where
  -- The accept loop begins, or lines are printed.
  pub data Outcome : Type 0 where
    serving : Started db kdf uuids → Outcome
    printed : List Text → AccountStore db kdf uuids → Outcome

  unfoldable pub run_cli : Environment → Cli → Inputs → Result Failure Outcome
  unfolding run_command account_command
  run_cli env cli inputs = elim cli.command [
    | run_server port bind_address ↦ do
      started ←
          run_command db kdf uuids env cli.config
            (record { port = port; bind_address = bind_address }) inputs.dummy_salt
      ok (serving started)
    | account action ↦ do
      r ← map_err failed (
          account_command db kdf uuids time env cli.config inputs.dummy_salt inputs.salt inputs.id
            inputs.now action inputs.first inputs.second)
      ok (printed r.0 r.1)
  ]

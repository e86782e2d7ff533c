-- ===== src/Tests/Cli.antt =====
-- The tests of crates/liaozhai-server/tests/cli.rs on a database in memory, which a second command finds
-- as the first one has left it.
use liaozhai.Auth.Store.{
  AccountStore, account_of, accounts_of, create_account, create_parent, generate_hash,
  list_accounts, open_store,
}
use liaozhai.Common.{
  Bool, List, Text, [], codes, eq_list, false, none, refl, some, true, ℕ, ◌&&◌, ◌++◌, ◌||◌, ◌∷◌,
  ◌≡◌,
}
use liaozhai.Core.Error.{Result, display, err, map_err, ok}
use liaozhai.Examples.Memory.{find_row, memory, plain_kdf, plain_uuids}
use liaozhai.Server.Commands.{
  AccountAction, LocalTime, account_command, account_line, account_lines, create, create_command,
  create_confirmed, format_timestamp, list, list_command, listing, read_password, run_action,
  trim_end_matches,
}
use liaozhai.Server.Config.{AuthKeys, FileKeys, load, load_file}
use liaozhai.Server.Main.{Inputs, Outcome, account, printed, run_cli, serving}
use liaozhai.Server.Startup.{Environment, Failure, failed, panicked}
use liaozhai.Tests.{contains_text, every, starts_with}
use liaozhai.Text.Template.{strip_prefix}
use liaozhai.Text.Trim.{is_whitespace, to_ascii_lowercase, trim, trim_end, trim_start}

abbrev Store : Type 0
Store = AccountStore memory plain_kdf plain_uuids

-- A configuration file with a table `auth` that names the database.
abbrev auth_keys : AuthKeys
auth_keys = record {
  db_path = some (codes "accounts.db");
  max_login_attempts = none;
  argon2_memory_cost = none;
  argon2_time_cost = none;
  argon2_parallelism = none;
  rate_limit_window_secs = none;
  rate_limit_max_failures = none;
  rate_limiter_max_entries = none;
}

abbrev file_keys : FileKeys
file_keys = record {
  server = none;
  auth = some auth_keys;
  registry_path = none;
  default_filter = none;
}

abbrev test_env : Environment
test_env = record {
  read_file = λ path. ok [];
  config_from_toml = λ contents. ok file_keys;
  worlds_from_toml = λ contents. ok [];
  fresh = λ i. record { uuid = i };
  new_runtime = ok tt;
  max_permits = 1000;
  bind_listener = λ address. ok tt;
}

-- Times are printed as one character.
abbrev test_time : LocalTime
test_time = record {
  DateTime = ℕ;
  Offset = Unit;
  from_unix_timestamp = λ secs. some secs;
  current_local_offset = none;
  to_offset = λ dt offset. dt;
  format = λ dt. some (dt ∷ []);
}

-- The two lines of the standard input, and an identifier.
abbrev typing : ℕ → Text → Text → Inputs
typing n first second = record {
  dummy_salt = 0;
  salt = 0;
  id = record { uuid = n };
  now = 100;
  first = ok (read_password (first ++ codes "\n"));
  second = ok (read_password (second ++ codes "\n"));
}

abbrev server_cmd :
    AccountAction → Inputs → Result Failure (Outcome memory plain_kdf plain_uuids test_time)
server_cmd action inputs =
    run_cli memory plain_kdf plain_uuids test_time test_env
      (record { config = some (codes "test.toml"); command = account action }) inputs

-- A later command on the same database.
abbrev then_cmd :
    Result Failure (Outcome memory plain_kdf plain_uuids test_time)
    → AccountAction
    → Inputs
    → Result Failure (List Text × Store)
then_cmd before action inputs = elim before [
  | err e ↦ err e
  | ok (serving s) ↦ err (failed (codes "the command serves" ∷ []))
  | ok (printed lines store) ↦ map_err failed (
      run_action memory plain_kdf plain_uuids test_time store inputs.salt inputs.id inputs.now
        action inputs.first inputs.second)
]

lines_contain : List Text → Text → Bool
unfolding contains_text
lines_contain [] part = false
lines_contain (line ∷ lines) part = contains_text line part || lines_contain lines part

abbrev prints : Text → Result Failure (Outcome memory plain_kdf plain_uuids test_time) → Bool
prints part (ok (printed lines store)) = lines_contain lines part
prints part _ = false

abbrev fails_with : {A : Type 0} → Text → Result Failure A → Bool
fails_with part (ok a) = false
fails_with part (err (failed e)) = lines_contain e part
fails_with part (err panicked) = false

abbrev creates_alice : AccountAction
creates_alice = create (codes "alice")

abbrev account_create_via_stdin : Bool
account_create_via_stdin =
    prints (codes "Account 'alice' created.")
      (server_cmd creates_alice (typing 1 (codes "secret") (codes "secret")))

abbrev account_create_password_mismatch : Bool
account_create_password_mismatch =
    fails_with (codes "Passwords do not match")
      (server_cmd creates_alice (typing 1 (codes "secret") (codes "different")))

abbrev account_create_duplicate : Bool
account_create_duplicate = fails_with (codes "already exists") (
    then_cmd (server_cmd creates_alice (typing 1 (codes "secret") (codes "secret"))) creates_alice
      (typing 2 (codes "other") (codes "other")))

abbrev account_list_empty : Bool
account_list_empty = prints (codes "(no accounts)") (server_cmd list (typing 0 [] []))

abbrev account_list_after_create : Bool
account_list_after_create =
    elim (then_cmd (server_cmd creates_alice (typing 1 (codes "secret") (codes "secret"))) list
      (typing 0 [] [])) [
        | ok (lines, store) ↦
            lines_contain lines (codes "alice") && lines_contain lines (codes "(never)")
        | err e ↦ false
      ]

cli_tests :
    every (
      account_create_via_stdin ∷ account_create_password_mismatch ∷ account_create_duplicate
      ∷ account_list_empty ∷ account_list_after_create ∷ [])
    ≡ true
unfolding every codes eq_list run_cli account_command run_action create_command create_confirmed
    list_command listing account_line account_lines format_timestamp list_accounts accounts_of
    account_of create_account open_store create_parent generate_hash load load_file read_password
    trim_end_matches find_row contains_text starts_with strip_prefix lines_contain trim trim_start
    trim_end is_whitespace to_ascii_lowercase display
cli_tests = refl

-- ===== src/Server/Commands.antt =====
-- crates/liaozhai-server/src/main.rs: the commands that create an account and list the accounts, and
-- the passwords that are read where standard input is no terminal. The result of each reading is an
-- argument. A text that is printed is a line of the result. Errors are texts, as in Config; parsing
-- the arguments is not modelled.
pub mod Created
pub mod Listed
pub mod Columns
use liaozhai.Auth.Account.{Account}
use liaozhai.Auth.External.{Argon2, Database, UuidText}
use liaozhai.Auth.Store.{AccountStore, create_account, list_accounts, open_store}
use liaozhai.Common.{
  List, Option, Text, [], codes, eq_list, if◌then◌else◌, is_empty, none, not, some, ℕ, ◌&&◌, ◌++◌,
  ◌==◌, ◌∷◌,
}
use liaozhai.Core.Error.{Result, display, err, ok, ◌>>=◌}
use liaozhai.Core.Id.{AccountId}
use liaozhai.Server.Config.{
  Chain, argon2_params, displayed, in_context, load, or_else, own_chain, own_text,
}
use liaozhai.Server.Startup.{Environment}
use liaozhai.Text.Decimal.{to_string}
use liaozhai.Text.Template.{pad_right}
use liaozhai.Text.Trim.{trim}

-- `trim_end_matches` with one character
unfoldable pub trim_end_matches : ℕ → Text → Text
unfolding eq_list
trim_end_matches c [] = []
trim_end_matches c (x ∷ xs) =
    let rest = trim_end_matches c xs in if is_empty rest && x == c then [] else x ∷ rest

-- What `read_password` makes of the line that it read.
unfoldable pub read_password : Text → Text
unfolding trim_end_matches
read_password line = trim_end_matches b'\r' (trim_end_matches b'\n' line)

module _ (db : Database) (kdf : Argon2) (uuids : UuidText) where
  -- The two readings are compared, and the account is created.
  unfoldable pub create_confirmed :
      AccountStore db kdf uuids
      → ℕ
      → AccountId
      → ℕ
      → Text
      → Text
      → Text
      → Result Chain (Account × AccountStore db kdf uuids)
  unfolding create_account eq_list
  create_confirmed store salt id now name password confirm =
      if not (eq_list password confirm)
      then err (codes "Passwords do not match." ∷ [])
      else if is_empty password
      then err (codes "Password cannot be empty." ∷ [])
      else in_context (codes "creating account") displayed
          (create_account db kdf uuids store salt id now name password)

  -- The arm of `AccountAction::Create`, once the store is open.
  unfoldable pub create_command :
      AccountStore db kdf uuids
      → ℕ
      → AccountId
      → ℕ
      → Text
      → Result Chain Text
      → Result Chain Text
      → Result Chain (Account × AccountStore db kdf uuids)
  unfolding create_confirmed
  create_command store salt id now username first second =
      let name = trim username in
      if is_empty name
      then err (codes "Username cannot be empty." ∷ [])
      else (first >>= λ password. second >>= create_confirmed store salt id now name password)

-- What is printed then.
abbrev pub created_line : Text → Text
created_line name = codes "Account '" ++ (name ++ codes "' created.")

-- What the `time` crate gives: the date and time of a number of seconds since the epoch, the local
-- offset, and the text of a date and time in the format of the code.
pub record LocalTime : Type 1 where
  pub DateTime : Type 0
  pub Offset : Type 0
  pub from_unix_timestamp : ℕ → Option DateTime
  pub current_local_offset : Option Offset
  pub to_offset : DateTime → Offset → DateTime
  pub format : DateTime → Option Text

-- The headings.
abbrev pub header_line : Text
header_line =
    pad_right 38 (codes "ID")
    ++ b' '
      ∷ (pad_right 16 (codes "USERNAME")
          ++ b' ' ∷ (pad_right 21 (codes "CREATED") ++ codes " LAST LOGIN"))

-- An identifier is printed with `write!(f, "{}", …)`, which ignores the width that is asked for, so
-- that it is not padded.
module _ (time : LocalTime) (uuids : UuidText) where
  open time use {from_unix_timestamp, current_local_offset, to_offset, format}

  abbrev local : time.DateTime → time.DateTime
  local dt = elim current_local_offset [ some offset ↦ to_offset dt offset | none ↦ dt ]

  unfoldable pub format_timestamp : ℕ → Text
  format_timestamp epoch_secs = elim (from_unix_timestamp epoch_secs) [
    | none ↦ to_string epoch_secs
    | some dt ↦ or_else (format (local dt)) (to_string epoch_secs)
  ]

  abbrev pub last_login_text : Option ℕ → Text
  last_login_text none = codes "(never)"
  last_login_text (some secs) = format_timestamp secs

  unfoldable pub account_line : Account → Text
  account_line a =
      uuids.display a.id.uuid
      ++ b' '
        ∷ (pad_right 16 a.username
            ++ b' '
              ∷ (pad_right 21 (format_timestamp a.created_at)
                  ++ b' ' ∷ last_login_text a.last_login_at))

  unfoldable pub account_lines : List Account → List Text
  unfolding account_line
  account_lines [] = []
  account_lines (a ∷ as_) = account_line a ∷ account_lines as_

  -- What is printed for the accounts.
  unfoldable pub listing : List Account → List Text
  unfolding account_lines
  listing accounts =
      header_line ∷ account_lines accounts
      ++ (if is_empty accounts then codes "(no accounts)" ∷ [] else [])

-- The arm of `AccountAction::List`, once the store is open.
module _ (db : Database) (kdf : Argon2) (uuids : UuidText) (time : LocalTime) where
  unfoldable pub list_command : AccountStore db kdf uuids → Result Chain (List Text)
  unfolding list_accounts listing
  list_command store = do
    accounts ← in_context (codes "listing accounts") displayed (list_accounts db kdf uuids store)
    ok (listing time uuids accounts)

-- The arm of `Command::Account`: the lines that it prints, and the store that it leaves.
pub data AccountAction : Type 0 where
  create : (username : Text) → AccountAction
  list : AccountAction

module _ (db : Database) (kdf : Argon2) (uuids : UuidText) (time : LocalTime) where
  unfoldable pub run_action :
      AccountStore db kdf uuids
      → ℕ
      → AccountId
      → ℕ
      → AccountAction
      → Result Chain Text
      → Result Chain Text
      → Result Chain (List Text × AccountStore db kdf uuids)
  unfolding create_command list_command
  run_action store salt id now (create username) first second = do
    r ← create_command db kdf uuids store salt id now username first second
    ok (created_line (trim username) ∷ [], r.1)
  run_action store salt id now list first second = do
    lines ← list_command db kdf uuids time store
    ok (lines, store)

  unfoldable pub account_command :
      Environment
      → Option Text
      → ℕ
      → ℕ
      → AccountId
      → ℕ
      → AccountAction
      → Result Chain Text
      → Result Chain Text
      → Result Chain (List Text × AccountStore db kdf uuids)
  unfolding run_action
  account_command env config_path dummy_salt salt id now action first second = do
    cfg ← in_context (codes "loading configuration") own_chain (
        load env.read_file env.config_from_toml config_path
          (record { port = none; bind_address = none }))
    store ←
        in_context (codes "opening account store") displayed
          (open_store db kdf uuids cfg.auth.db_path (argon2_params cfg.auth) dummy_salt)
    runtime ← in_context (codes "creating tokio runtime") own_text env.new_runtime
    run_action store salt id now action first second

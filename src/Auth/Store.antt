-- ===== src/Auth/Store.antt =====
-- crates/liaozhai-auth/src/store.rs over the interfaces of External. The connection behind the mutex
-- is part of the state that each operation takes and returns; the random salt and identifier and the
-- clock are arguments. Running on a blocking thread is not modelled: the closure's result is the
-- operation's.
pub mod Laws
pub mod Listing
use liaozhai.Auth.Account.{Account, from_row}
use liaozhai.Auth.External.{
  Argon2, Database, ListStage, Row, SqlError, UuidText, collecting, constraint, no_rows, preparing,
  querying,
}
use liaozhai.Auth.Params.{Argon2Params, to_argon2_params}
use liaozhai.Common.{
  Bool, List, Option, Text, [], codes, if◌then◌else◌, is_empty, none, some, ℕ, ◌++◌, ◌+◌, ◌∷◌,
}
use liaozhai.Core.Error.{Error, Result, display, err, map_err, ok, ◌>>=◌}
use liaozhai.Core.Id.{AccountId}

-- What a verification gives, with the number of Argon2 verifications that it ran.
pub record Verified : Type 0 where
  pub outcome : Result Error (Option Account)
  pub verifications : ℕ

abbrev pub after_verifications : ℕ → Result Error (Option Account) → Verified
after_verifications n r = record { outcome = r; verifications = n }

-- `Error::Auth(format!("…: {e}"))`
abbrev pub auth_error : Text → Text → Error
auth_error what e = Error.auth (what ++ e)

module _ (db : Database) (kdf : Argon2) (uuids : UuidText) where
  open db use {
    Conn, parent_dir, create_dir_all, open_file, create_table, insert, select_one, select_all,
    update_login, print,
  }
  open kdf use {hash_password, parse_hash, verify_password}

  pub record AccountStore : Type 0 where
    pub conn : Conn
    pub params : Argon2Params
    pub dummy_hash : Text

  unfoldable pub generate_hash : Argon2Params → ℕ → Text → Result Error Text
  generate_hash params salt password = do
    argon2_params ←
        map_err (auth_error (codes "invalid argon2 params: ")) (to_argon2_params kdf params)
    map_err (auth_error (codes "hashing password: ")) (hash_password argon2_params salt password)

  -- The directory of the file, where the path names one.
  unfoldable pub create_parent : Option Text → Result Error (Unit {0})
  create_parent none = ok tt
  create_parent (some parent) =
      if is_empty parent
      then ok tt
      else map_err (auth_error (codes "creating database directory: ")) (create_dir_all parent)

  -- `AccountStore::open`
  unfoldable pub open_store : Text → Argon2Params → ℕ → Result Error AccountStore
  unfolding generate_hash create_parent
  open_store path params salt = do
    made ← create_parent (parent_dir path)
    conn ← map_err (auth_error (codes "opening database: ")) (open_file path)
    ready ← map_err (auth_error (codes "creating schema: ")) (create_table conn)
    dummy ← generate_hash params salt (codes "dummy_password_for_timing")
    ok (record { conn = ready; params = params; dummy_hash = dummy })

  abbrev insert_error : Text → SqlError → Error
  insert_error username constraint =
      Error.auth (codes "Account '" ++ (username ++ codes "' already exists"))
  insert_error username e = Error.auth (codes "creating account: " ++ print e)

  unfoldable pub create_account :
      AccountStore → ℕ → AccountId → ℕ → Text → Text → Result Error (Account × AccountStore)
  unfolding generate_hash
  create_account s salt id now username password = do
    phc ← generate_hash s.params salt password
    conn ← map_err (insert_error username) (
        insert s.conn (record {
          id = uuids.display id.uuid;
          username = username;
          password_hash = phc;
          created_at = now;
          last_login_at = none;
        }))
    ok (from_row id username now none, record s { conn = conn })

  -- The account of a row.
  unfoldable pub account_of : Row → Result Error Account
  account_of row = do
    uuid ← map_err (auth_error (codes "parsing account ID: ")) (uuids.parse_str row.id)
    ok (from_row (record { uuid = uuid }) row.username row.created_at row.last_login_at)

  abbrev some_account : Result Error Account → Result Error (Option Account)
  some_account r = r >>= λ a. ok (some a)

  -- `argon2.verify_password(…)`, with the number of verifications before it and behind it.
  abbrev pub counted_verify : ℕ → Text → kdf.Hash → Bool × ℕ
  counted_verify before password parsed = (verify_password password parsed, before + 1)

  -- The row was found: its hash decides.
  unfoldable pub check_hash : Row → Text → Result Text kdf.Hash → Verified
  unfolding account_of
  check_hash row password (ok parsed) =
      let (matches, n) = counted_verify 0 password parsed in
      after_verifications n (if matches then some_account (account_of row) else ok none)
  check_hash row password (err e) =
      after_verifications 0 (err (Error.auth (codes "parsing stored hash: " ++ e)))

  -- There is no row: the dummy hash is verified, and its result is not read.
  unfoldable pub check_dummy : Text → Result Text kdf.Hash → Verified
  check_dummy password (ok parsed) =
      let (ignored, n) = counted_verify 0 password parsed in after_verifications n (ok none)
  check_dummy password (err e) =
      after_verifications 0 (err (Error.auth (codes "parsing dummy hash: " ++ e)))

  abbrev pub check_found : AccountStore → Text → Result SqlError Row → Verified
  check_found s password (ok row) = check_hash row password (parse_hash row.password_hash)
  check_found s password (err no_rows) = check_dummy password (parse_hash s.dummy_hash)
  check_found s password (err e) =
      after_verifications 0 (err (Error.auth (codes "querying account: " ++ print e)))

  unfoldable pub verify_credentials : AccountStore → Text → Text → Verified
  unfolding check_hash check_dummy
  verify_credentials s username password = check_found s password (select_one s.conn username)

  unfoldable pub accounts_of : List Row → Result Error (List Account)
  unfolding account_of
  accounts_of [] = ok []
  accounts_of (row ∷ rows) = do a ← account_of row; as_ ← accounts_of rows; ok (a ∷ as_)

  abbrev list_error : ListStage × SqlError → Error
  list_error (preparing, e) = Error.auth (codes "preparing statement: " ++ print e)
  list_error (querying, e) = Error.auth (codes "querying accounts: " ++ print e)
  list_error (collecting, e) = Error.auth (codes "collecting accounts: " ++ print e)

  unfoldable pub list_accounts : AccountStore → Result Error (List Account)
  unfolding accounts_of
  list_accounts s = do rows ← map_err list_error (select_all s.conn); accounts_of rows

  unfoldable pub record_login : AccountStore → ℕ → AccountId → Result Error AccountStore
  record_login s now id = do
    conn ←
        map_err (λ e. Error.auth (codes "recording login: " ++ print e))
          (update_login s.conn now (uuids.display id.uuid))
    ok (record s { conn = conn })

-- ===== src/Server/Commands/Created.antt =====
-- When main.rs creates an account, and who can log in to it.
use liaozhai.Auth.Account.{Account}
use liaozhai.Auth.External.{Argon2, Database, UuidText}
use liaozhai.Auth.Store.{AccountStore, create_account}
use liaozhai.Common.{Text, arith, codes, eq_list→eq, false, is_empty, ℕ, ◌∷◌, ◌≡◌, ◌≢◌}
use liaozhai.Core.Error.{map_err-ok, ok}
use liaozhai.Core.Id.{AccountId}
use liaozhai.Net.Session.{Session, auth_pending, handle_input}
use liaozhai.Net.Session.Input.{auth_pending_iff}
use liaozhai.Server.Commands.{create_command, create_confirmed}
use liaozhai.Server.Config.{displayed}
use liaozhai.Text.Trim.{trim, trim_idem}

module _ (db : Database) (kdf : Argon2) (uuids : UuidText) where
  -- A command that succeeds has read the same password twice and has created the account with the
  -- name, less the whitespace around it, and with the password exactly as it was read. Neither is
  -- empty.
  pub create_command-create_account :
      (store : AccountStore db kdf uuids) (salt : ℕ) (id : AccountId) (now : ℕ)
      (username first second : Text) (r : Account × AccountStore db kdf uuids)
      → create_command db kdf uuids store salt id now username (ok first) (ok second) ≡ ok r
      → (first ≡ second)
        × (is_empty first ≡ false)
        × (is_empty (trim username) ≡ false)
        × (create_account db kdf uuids store salt id now (trim username) first ≡ ok r)
  unfolding create_command create_confirmed
  create_command-create_account store salt id now username first second r h =
      let made = create_account db kdf uuids store salt id now (trim username) first in
      (
        eq_list→eq first second (ground arith),
        ground arith,
        ground arith,
        map_err-ok (λ e. codes "creating account" ∷ displayed e) made r (ground arith),
      )

  -- Where the command succeeds with a password that has whitespace at an end, the account is created
  -- with that password, but no session hands it over for verification, whatever is typed.
  pub create_command-auth_pending :
      (store : AccountStore db kdf uuids) (salt : ℕ) (id : AccountId) (now : ℕ)
      (username password : Text) (r : Account × AccountStore db kdf uuids) (s : Session)
      (input name : Text)
      → create_command db kdf uuids store salt id now username (ok password) (ok password) ≡ ok r
      → trim password ≢ password
      → (create_account db kdf uuids store salt id now (trim username) password ≡ ok r)
        × (handle_input s input ≢ auth_pending name password)
  create_command-auth_pending store salt id now username password r s input name h untrimmed =
      let (_, _, _, made) =
        create_command-create_account store salt id now username password password r h in
      (made, not_pending)
    where
      not_pending : handle_input s input ≢ auth_pending name password
      not_pending p =
          let typed = ((auth_pending_iff s input name password).0 p).typed in
          untrimmed (rw typed (trim_idem input))

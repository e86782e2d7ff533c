-- ===== src/Server/Commands/Listed.antt =====
-- What main.rs prints of the accounts.
use mathlib.Core.Path.{subst}
use liaozhai.Auth.Account.{Account, from_row}
use liaozhai.Auth.External.{Argon2, Database, DatabaseLaws, UuidLaws, UuidText}
use liaozhai.Auth.Store.{AccountStore, list_accounts}
use liaozhai.Auth.Store.Laws.{create_account-Created}
use liaozhai.Auth.Store.Listing.{create_account-list_accounts}
use liaozhai.Common.{List, Occurs, Text, [], ap, codes, inl, inr, none, ℕ, ◌++◌, ◌∷◌, ◌≡◌}
use liaozhai.Core.Error.{ok, ok-inj}
use liaozhai.Core.Id.{AccountId}
use liaozhai.Server.Commands.{
  LocalTime, account_line, account_lines, create_command, list_command, listing,
}
use liaozhai.Server.Commands.Created.{create_command-create_account}
use liaozhai.Server.Config.{displayed, in_context-ok}
use liaozhai.Text.Trim.{trim}

module _ (time : LocalTime) (uuids : UuidText) where
  Occurs-account_lines :
      (a : Account) (accounts : List Account)
      → Occurs a accounts
      → Occurs (account_line time uuids a) (account_lines time uuids accounts)
  unfolding account_lines
  Occurs-account_lines a [] o = elim o [ ]
  Occurs-account_lines a (x ∷ xs) (inl e) = inl (ap (account_line time uuids) e)
  Occurs-account_lines a (x ∷ xs) (inr o) = inr (Occurs-account_lines a xs o)

Occurs-append : {A : Type 0} (a : A) (xs ys : List A) → Occurs a xs → Occurs a (xs ++ ys)
Occurs-append a [] ys o = elim o [ ]
Occurs-append a (x ∷ xs) ys (inl e) = inl e
Occurs-append a (x ∷ xs) ys (inr o) = inr (Occurs-append a xs ys o)

module _ (db : Database) (sql : DatabaseLaws db) (kdf : Argon2) (uuids : UuidText)
    (uuid_laws : UuidLaws uuids) (time : LocalTime) where
  -- With a database and identifiers that obey their laws, once the command that creates an account
  -- has succeeded, the command that lists the accounts prints the line of that account, with the name
  -- that was given, less the whitespace around it, and no login, wherever it can list them.
  pub create_command-list_command :
      (store : AccountStore db kdf uuids) (salt : ℕ) (id : AccountId) (now : ℕ)
      (username first second : Text) (r : Account × AccountStore db kdf uuids) (lines : List Text)
      → create_command db kdf uuids store salt id now username (ok first) (ok second) ≡ ok r
      → list_command db kdf uuids time r.1 ≡ ok lines
      → Occurs (account_line time uuids (from_row id (trim username) now none)) lines
  unfolding list_command listing
  create_command-list_command store salt id now username first second r lines h l =
      let (_, _, _, made) =
        create_command-create_account db kdf uuids store salt id now username first second r h in
      let c =
        create_account-Created db kdf uuids store salt id now (trim username) first r.0 r.1 made in
      let (accounts, listed, last) =
        in_context-ok (codes "listing accounts") displayed (list_accounts db kdf uuids r.1)
          (λ accounts. ok (listing time uuids accounts)) lines l in
      let there =
        create_account-list_accounts db sql kdf uuids uuid_laws store salt id now (trim username)
          first r.0 r.1 accounts made listed in
      let line = Occurs-account_lines time uuids r.0 accounts there in
      subst (Occurs (account_line time uuids (from_row id (trim username) now none))) (ok-inj last)
        (inr (
          Occurs-append _ (account_lines time uuids accounts) _ (
            subst (λ a. Occurs (account_line time uuids a) (account_lines time uuids accounts))
              c.account line)))

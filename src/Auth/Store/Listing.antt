-- ===== src/Auth/Store/Listing.antt =====
-- What listing the accounts gives: store.rs, `list_accounts`.
use mathlib.Core.Path.{subst}
use liaozhai.Auth.Account.{Account}
use liaozhai.Auth.External.{Argon2, Database, DatabaseLaws, Row, UuidLaws, UuidText}
use liaozhai.Auth.Store.{AccountStore, account_of, accounts_of, create_account, list_accounts}
use liaozhai.Auth.Store.Laws.{Row_of, account_of-Row_of, create_account-Created}
use liaozhai.Common.{List, Occurs, Text, [], ap, inl, inr, refl, sym, ℕ, ◌∙◌, ◌∷◌, ◌≡◌}
use liaozhai.Core.Error.{bind-ok, map_err-ok, ok, ok-inj}
use liaozhai.Core.Id.{AccountId}

module _ (db : Database) (kdf : Argon2) (uuids : UuidText) where
  Occurs-accounts_of :
      (rows : List Row) (row : Row) (a : Account) (accounts : List Account)
      → accounts_of db kdf uuids rows ≡ ok accounts
      → account_of db kdf uuids row ≡ ok a
      → Occurs row rows
      → Occurs a accounts
  unfolding accounts_of
  Occurs-accounts_of [] row a accounts h e o = elim o [ ]
  Occurs-accounts_of (r ∷ rows) row a accounts h e (inl same) =
      let (b, first, rest) = bind-ok (account_of db kdf uuids r) _ _ h in
      let (listed, more, last) = bind-ok (accounts_of db kdf uuids rows) _ _ rest in
      let its : account_of db kdf uuids r ≡ ok a = rw same e in
      subst (Occurs a) (ok-inj last) (inl (ok-inj (sym first ∙ its)))
  Occurs-accounts_of (r ∷ rows) row a accounts h e (inr later) =
      let (b, first, rest) = bind-ok (account_of db kdf uuids r) _ _ h in
      let (listed, more, last) = bind-ok (accounts_of db kdf uuids rows) _ _ rest in
      subst (Occurs a) (ok-inj last) (inr (Occurs-accounts_of rows row a listed more e later))

module _ (db : Database) (sql : DatabaseLaws db) (kdf : Argon2) (uuids : UuidText)
    (uuid_laws : UuidLaws uuids) where
  -- With a database and identifiers that obey their laws, an account that was created is among those
  -- that are listed, wherever they can be listed.
  pub create_account-list_accounts :
      (s : AccountStore db kdf uuids) (salt : ℕ) (id : AccountId) (now : ℕ)
      (username password : Text) (a : Account) (s' : AccountStore db kdf uuids)
      (accounts : List Account)
      → create_account db kdf uuids s salt id now username password ≡ ok (a, s')
      → list_accounts db kdf uuids s' ≡ ok accounts
      → Occurs a accounts
  unfolding list_accounts
  create_account-list_accounts s salt id now username password a s' accounts h l =
      let c = create_account-Created db kdf uuids s salt id now username password a s' h in
      let row = Row_of uuids id now username c.phc in
      let (rows, read, listed) = bind-ok {A = List Row} _ _ _ l in
      let there =
        sql.select_all_inserted s.conn s'.conn row rows c.inserted (map_err-ok _ _ _ read) in
      let its = account_of-Row_of db kdf uuids uuid_laws row id refl in
      Occurs-accounts_of db kdf uuids rows row a accounts listed (its ∙ ap ok (sym c.account)) there

-- ===== src/Auth/Store/Laws.antt =====
-- What the operations of store.rs give one another, for any database, key derivation and text form
-- of identifiers that behave as documented.
use liaozhai.Auth.Account.{Account, from_row}
use liaozhai.Auth.External.{Argon2, Argon2Laws, Database, DatabaseLaws, Row, UuidLaws, UuidText}
use liaozhai.Auth.Params.{Argon2Params, to_argon2_params}
use liaozhai.Auth.Store.{
  AccountStore, account_of, after_verifications, auth_error, check_hash, create_account,
  generate_hash, record_login, verify_credentials,
}
use liaozhai.Common.{Text, ap, codes, none, refl, some, sym, true, ℕ, ◌++◌, ◌∙◌, ◌≡◌}
use liaozhai.Core.Error.{Error, Result, bind-ok, err, map_err, map_err-ok, ok, ok-inj, ◌>>=◌}
use liaozhai.Core.Id.{AccountId}

module _ (db : Database) (kdf : Argon2) (kdf_laws : Argon2Laws kdf) (uuids : UuidText) where
  -- A hash that was made parses, and verifies the password.
  generate_hash-verifies :
      (params : Argon2Params) (salt : ℕ) (password phc : Text)
      → generate_hash db kdf uuids params salt password ≡ ok phc
      → (h : kdf.Hash) × (kdf.parse_hash phc ≡ ok h) × (kdf.verify_password password h ≡ true)
  unfolding generate_hash
  generate_hash-verifies params salt password phc h =
      let (p, _, hashed) =
        bind-ok
          (map_err (auth_error (codes "invalid argon2 params: ")) (to_argon2_params kdf params)) _
          phc h in
      kdf_laws.hash_verifies p salt password phc (
        map_err-ok (auth_error (codes "hashing password: ")) (kdf.hash_password p salt password) phc
          hashed)

module _ (uuids : UuidText) where
  abbrev pub Row_of : AccountId → ℕ → Text → Text → Row
  Row_of id now username phc = record {
    id = uuids.display id.uuid;
    username = username;
    password_hash = phc;
    created_at = now;
    last_login_at = none;
  }

module _ (db : Database) (kdf : Argon2) (uuids : UuidText) where
  -- What a creation that succeeded has done.
  pub record Created (s : AccountStore db kdf uuids) (salt : ℕ) (id : AccountId) (now : ℕ)
      (username password : Text) (a : Account) (s' : AccountStore db kdf uuids) : Type 0 where
    pub phc : Text
    pub hashed : generate_hash db kdf uuids s.params salt password ≡ ok phc
    pub inserted : db.insert s.conn (Row_of uuids id now username phc) ≡ ok s'.conn
    pub account : a ≡ from_row id username now none

  pub create_account-Created :
      (s : AccountStore db kdf uuids) (salt : ℕ) (id : AccountId) (now : ℕ)
      (username password : Text) (a : Account) (s' : AccountStore db kdf uuids)
      → create_account db kdf uuids s salt id now username password ≡ ok (a, s')
      → Created s salt id now username password a s'
  unfolding create_account
  create_account-Created s salt id now username password a s' h =
      let (phc, hashed, rest) = bind-ok _ _ _ h in
      let (conn, inserted, last) = bind-ok _ _ _ rest in
      let e = ok-inj last in
      record {
        phc = phc;
        hashed = hashed;
        inserted = map_err-ok _ _ _ inserted ∙ ap (λ r. ok r.1.conn) e;
        account = sym (ap (λ r. r.0) e);
      }

module _ (db : Database) (kdf : Argon2) (uuids : UuidText) (uuid_laws : UuidLaws uuids) where
  pub account_of-Row_of :
      (row : Row) (id : AccountId)
      → row.id ≡ uuids.display id.uuid
      → account_of db kdf uuids row ≡ ok (from_row id row.username row.created_at row.last_login_at)
  unfolding account_of
  account_of-Row_of row id h = rw (h, uuid_laws.parse_display) refl

module _ (db : Database) (sql : DatabaseLaws db) (kdf : Argon2) (kdf_laws : Argon2Laws kdf)
    (uuids : UuidText) (uuid_laws : UuidLaws uuids) where
  check_hash-right :
      (row : Row) (id : AccountId) (params : Argon2Params) (salt : ℕ) (password : Text)
      → row.id ≡ uuids.display id.uuid
      → generate_hash db kdf uuids params salt password ≡ ok row.password_hash
      → check_hash db kdf uuids row password (kdf.parse_hash row.password_hash)
        ≡ after_verifications 1
            (ok (some (from_row id row.username row.created_at row.last_login_at)))
  unfolding check_hash
  check_hash-right row id params salt password same hashed =
      let (h, parsed, right) = generate_hash-verifies db kdf kdf_laws uuids _ _ _ _ hashed in
      rw (parsed, right, account_of-Row_of db kdf uuids uuid_laws row id same) refl

  -- With a database, a key derivation and identifiers that obey their laws, an account that was
  -- created is found by its password and by every name that the database takes for the same, for
  -- instance in other letter case. The account is the one that the creation gave, and one hash is
  -- verified.
  pub create_account-verify_credentials :
      (s : AccountStore db kdf uuids) (salt : ℕ) (id : AccountId) (now : ℕ)
      (username password name : Text) (a : Account) (s' : AccountStore db kdf uuids)
      → create_account db kdf uuids s salt id now username password ≡ ok (a, s')
      → sql.nocase name ≡ sql.nocase username
      → verify_credentials db kdf uuids s' name password ≡ after_verifications 1 (ok (some a))
  unfolding verify_credentials
  create_account-verify_credentials s salt id now username password name a s' h same =
      let c = create_account-Created db kdf uuids s salt id now username password a s' h in
      let row = Row_of uuids id now username c.phc in
      rw (sql.select_inserted s.conn s'.conn row name c.inserted same, c.account)
        (check_hash-right row id s.params salt password refl c.hashed)

  -- With a database that obeys its laws, a creation under a name that it takes for one that is
  -- there fails with the message that names the new account, whatever the password, once that is
  -- hashed.
  pub create_account-taken :
      (s : AccountStore db kdf uuids) (salt : ℕ) (id : AccountId) (now : ℕ)
      (username password name : Text) (old : Row) (phc : Text)
      → generate_hash db kdf uuids s.params salt password ≡ ok phc
      → db.select_one s.conn name ≡ ok old
      → sql.nocase name ≡ sql.nocase username
      → create_account db kdf uuids s salt id now username password
        ≡ err (Error.auth (codes "Account '" ++ (username ++ codes "' already exists")))
  unfolding create_account
  create_account-taken s salt id now username password name old phc hashed there same =
      rw (hashed, sql.insert_taken s.conn (Row_of uuids id now username phc) old name there same)
        refl

  -- With a database, a key derivation and identifiers that obey their laws, after a login is
  -- recorded the account that was created verifies with the time of the login, and is otherwise as
  -- it was.
  pub create_account-record_login :
      (s : AccountStore db kdf uuids) (salt : ℕ) (id : AccountId) (now : ℕ)
      (username password name : Text) (a : Account) (s' : AccountStore db kdf uuids) (login : ℕ)
      (s'' : AccountStore db kdf uuids)
      → create_account db kdf uuids s salt id now username password ≡ ok (a, s')
      → sql.nocase name ≡ sql.nocase username
      → record_login db kdf uuids s' login id ≡ ok s''
      → verify_credentials db kdf uuids s'' name password
        ≡ after_verifications 1 (ok (some (record a { last_login_at = some login })))
  unfolding verify_credentials record_login
  create_account-record_login s salt id now username password name a s' login s'' h same l =
      let c = create_account-Created db kdf uuids s salt id now username password a s' h in
      let row = Row_of uuids id now username c.phc in
      let there = sql.select_inserted s.conn s'.conn row name c.inserted same in
      let (conn, updated, e) = bind-ok _ _ _ l in
      let gone : db.update_login s'.conn login row.id ≡ ok s''.conn =
        map_err-ok _ _ _ updated ∙ ap (λ r. ok r.conn) (ok-inj e) in
      rw (sql.select_updated s'.conn s''.conn login row name gone there, c.account)
        (check_hash-right (record row { last_login_at = some login }) id s.params salt password refl
          c.hashed)

module _ (db : Database) (kdf : Argon2) (kdf_laws : Argon2Laws kdf) (uuids : UuidText) where
  abbrev ready_store :
      Argon2Params → Result Error Text → db.Conn → Result Error (AccountStore db kdf uuids)
  ready_store params dummy ready =
      dummy >>= λ phc. ok (record { conn = ready; params = params; dummy_hash = phc })

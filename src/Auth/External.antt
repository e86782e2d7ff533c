-- ===== src/Auth/External.antt =====
-- What crates/liaozhai-auth/src/store.rs takes from other crates: `rusqlite` with SQLite behind it,
-- `argon2` with `password_hash`, and the text form of a `uuid`. Each is a record of operations, with
-- the documented behaviour that the store relies on as a record of laws.
use liaozhai.Common.{Bool, List, Occurs, Option, Text, some, true, ℕ, ◌≡◌}
use liaozhai.Core.Error.{Result, err, ok}
use liaozhai.Core.Id.{Uuid}

pub record Row : Type 0 where
  pub id : Text
  pub username : Text
  pub password_hash : Text
  pub created_at : ℕ
  pub last_login_at : Option ℕ

-- `rusqlite::Error`
pub data SqlError : Type 0 where
  no_rows constraint : SqlError
  other : Text → SqlError

-- Where listing the accounts fails.
pub data ListStage : Type 0 where
  preparing querying collecting : ListStage

-- The four statements of store.rs on the table `accounts`, and opening the file with the schema, with
-- `Path::parent` and `create_dir_all` of the standard library.
pub record Database : Type 1 where
  pub Conn : Type 0
  pub parent_dir : Text → Option Text
  pub create_dir_all : Text → Result Text (Unit {0})
  pub open_file : Text → Result Text Conn
  pub create_table : Conn → Result Text Conn
  pub insert : Conn → Row → Result SqlError Conn
  pub select_one : Conn → Text → Result SqlError Row
  pub select_all : Conn → Result (ListStage × SqlError) (List Row)
  pub update_login : Conn → ℕ → Text → Result SqlError Conn
  pub print : SqlError → Text

-- Usernames are unique and compared up to `COLLATE NOCASE`; an update changes one column of the row
-- with the given primary key.
pub record DatabaseLaws (db : Database) : Type 1 where
  pub nocase : Text → Text
  pub select_inserted :
      (c c' : db.Conn) (row : Row) (name : Text)
      → db.insert c row ≡ ok c'
      → nocase name ≡ nocase row.username
      → db.select_one c' name ≡ ok row
  pub insert_taken :
      (c : db.Conn) (row old : Row) (name : Text)
      → db.select_one c name ≡ ok old
      → nocase name ≡ nocase row.username
      → db.insert c row ≡ err constraint
  pub select_all_inserted :
      (c c' : db.Conn) (row : Row) (rows : List Row)
      → db.insert c row ≡ ok c'
      → db.select_all c' ≡ ok rows
      → Occurs row rows
  pub select_updated :
      (c c' : db.Conn) (now : ℕ) (row : Row) (name : Text)
      → db.update_login c now row.id ≡ ok c'
      → db.select_one c name ≡ ok row
      → db.select_one c' name ≡ ok (record row { last_login_at = some now })

-- `Params::new` with the costs of memory, time and parallelism, `Argon2::hash_password` with parameters
-- and a salt, the parser of a PHC string, and `verify_password`.
pub record Argon2 : Type 1 where
  pub Hash : Type 0
  pub Params : Type 0
  pub params_new : ℕ → ℕ → ℕ → Result Text Params
  pub hash_password : Params → ℕ → Text → Result Text Text
  pub parse_hash : Text → Result Text Hash
  pub verify_password : Text → Hash → Bool

-- A hash that was made parses, and verifies the password that it was made from.
pub record Argon2Laws (a : Argon2) : Type 1 where
  pub hash_verifies :
      (p : a.Params) (salt : ℕ) (password phc : Text)
      → a.hash_password p salt password ≡ ok phc
      → (h : a.Hash) × (a.parse_hash phc ≡ ok h) × (a.verify_password password h ≡ true)

-- `Uuid::to_string` and `Uuid::parse_str`
pub record UuidText : Type 0 where
  pub display : Uuid → Text
  pub parse_str : Text → Result Text Uuid

pub record UuidLaws (u : UuidText) : Type 0 where
  pub parse_display : (x : Uuid) → u.parse_str (u.display x) ≡ ok x

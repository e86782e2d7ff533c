-- ===== src/Examples/Memory.antt =====
-- A database, a key derivation and a text form of identifiers, kept in memory, that obey the laws of
-- Auth.External. Nothing here is secret.
use mathlib.Core.Path.{subst}
use liaozhai.Auth.External.{
  Argon2, Argon2Laws, Database, DatabaseLaws, ListStage, Row, SqlError, UuidLaws, UuidText,
  constraint, no_rows, other,
}
use liaozhai.Common.{
  Bool, Bool-cases, List, Occurs, Text, [], arith, codes, eq_list, eq_list_refl, if◌then◌else◌, inl,
  inr, none, refl, some, sym, true, ℕ, ◌∙◌, ◌∷◌, ◌≡◌,
}
use liaozhai.Core.Error.{Result, err, ok}
use liaozhai.Core.Id.{Uuid}
use liaozhai.Text.Trim.{to_ascii_lowercase}

abbrev pub same_name : Text → Text → Bool
same_name a b = eq_list (to_ascii_lowercase a) (to_ascii_lowercase b)

unfoldable pub find_row : List Row → Text → Result SqlError Row
unfolding eq_list
find_row [] name = err no_rows
find_row (r ∷ rs) name = if same_name r.username name then ok r else find_row rs name

abbrev pub insert_row : List Row → Row → Result SqlError Row → Result SqlError (List Row)
insert_row rows row (err no_rows) = ok (row ∷ rows)
insert_row rows row _ = err constraint

abbrev pub update_row : Row → ℕ → Text → Row
update_row r now id = if eq_list r.id id then record r { last_login_at = some now } else r

unfoldable pub update_rows : List Row → ℕ → Text → List Row
unfolding eq_list
update_rows [] now id = []
update_rows (r ∷ rs) now id = update_row r now id ∷ update_rows rs now id

abbrev pub memory : Database
memory = record {
  Conn = List Row;
  parent_dir = λ path. none;
  create_dir_all = λ path. ok tt;
  open_file = λ path. ok [];
  create_table = λ c. ok c;
  insert = λ c row. insert_row c row (find_row c row.username);
  select_one = find_row;
  select_all = λ c. ok c;
  update_login = λ c now id. ok (update_rows c now id);
  print = λ e. codes "refused";
}

pub find_row-cong :
    (rows : List Row) (a b : Text)
    → to_ascii_lowercase a ≡ to_ascii_lowercase b
    → find_row rows a ≡ find_row rows b
unfolding find_row
find_row-cong [] a b e = refl
find_row-cong (r ∷ rs) a b e = rw (e, find_row-cong rs a b e) refl

pub find_row-insert_row :
    (c c' : List Row) (row : Row) (name : Text) (found : Result SqlError Row)
    → insert_row c row found ≡ ok c'
    → to_ascii_lowercase name ≡ to_ascii_lowercase row.username
    → find_row c' name ≡ ok row
unfolding find_row
find_row-insert_row c c' row name (err no_rows) h e =
    let same : row ∷ c ≡ c' = cc in
    rw (← same, e, eq_list_refl (to_ascii_lowercase row.username)) refl
find_row-insert_row c c' row name (err constraint) h e = ground arith
find_row-insert_row c c' row name (err (other x)) h e = ground arith
find_row-insert_row c c' row name (ok r) h e = ground arith

update_row-username : (r : Row) (now : ℕ) (id : Text) → (update_row r now id).username ≡ r.username
update_row-username r now id = elim (Bool-cases (eq_list r.id id)) [
  | inl e ↦ rw e refl
  | inr e ↦ rw e refl
]

pub Occurs-insert_row :
    (c c' : List Row) (row : Row) (rows : List Row) (found : Result SqlError Row)
    → insert_row c row found ≡ ok c'
    → ◌≡◌ {A = Result (ListStage × SqlError) (List Row)} (ok c') (ok rows)
    → Occurs row rows
Occurs-insert_row c c' row rows (err no_rows) h e =
    let same : row ∷ c ≡ rows = cc in subst (Occurs row) same (inl refl)
Occurs-insert_row c c' row rows (err constraint) h e = ground arith
Occurs-insert_row c c' row rows (err (other x)) h e = ground arith
Occurs-insert_row c c' row rows (ok r) h e = ground arith

pub find_row-update_rows :
    (c : List Row) (now : ℕ) (row : Row) (name : Text)
    → find_row c name ≡ ok row
    → find_row (update_rows c now row.id) name ≡ ok (record row { last_login_at = some now })
unfolding find_row update_rows
find_row-update_rows [] now row name h = ground arith
find_row-update_rows (r ∷ rs) now row name h = elim (Bool-cases (same_name r.username name)) [
  | inl e ↦
      let found : ◌≡◌ {A = Result SqlError Row} (ok r) (ok row) = sym (rw e refl) ∙ h in
      let same : r ≡ row = cc in
      rw (update_row-username r now row.id, e, same, eq_list_refl row.id) refl
  | inr e ↦
      let found : find_row rs name ≡ ok row = sym (rw e refl) ∙ h in
      rw (update_row-username r now row.id, e) (find_row-update_rows rs now row name found)
]

pub find_row-updated :
    (c c' : List Row) (now : ℕ) (row : Row) (name : Text)
    → ◌≡◌ {A = Result SqlError (List Row)} (ok (update_rows c now row.id)) (ok c')
    → find_row c name ≡ ok row
    → find_row c' name ≡ ok (record row { last_login_at = some now })
find_row-updated c c' now row name h e =
    let same : update_rows c now row.id ≡ c' = cc in
    rw (← same) (find_row-update_rows c now row name e)

abbrev pub memory_laws : DatabaseLaws memory
memory_laws = record {
  nocase = to_ascii_lowercase;
  select_inserted = λ c c' row name. find_row-insert_row c c' row name (find_row c row.username);
  select_all_inserted =
      λ c c' row rows h e. Occurs-insert_row c c' row rows (find_row c row.username) h e;
  insert_taken = λ c row old name h e. rw (← find_row-cong c name row.username e, h) refl;
  select_updated = find_row-updated;
}

-- The hash of a password is the password.
abbrev pub plain_kdf : Argon2
plain_kdf = record {
  Hash = Text;
  Params = Unit;
  params_new = λ m t p. ok tt;
  hash_password = λ p salt password. ok password;
  parse_hash = λ phc. ok phc;
  verify_password = eq_list;
}

pub eq_list-hashed :
    (password phc : Text)
    → ◌≡◌ {A = Result Text Text} (ok password) (ok phc)
    → eq_list password phc ≡ true
eq_list-hashed password phc h = let same : password ≡ phc = cc in rw same (eq_list_refl phc)

abbrev pub plain_laws : Argon2Laws plain_kdf
plain_laws = record {
  hash_verifies = λ p salt password phc h. (phc, refl, eq_list-hashed password phc h);
}

-- An identifier is printed as a text of one character.
abbrev pub one_number : Text → Result Text Uuid
one_number (x ∷ []) = ok x
one_number _ = err (codes "no identifier")

abbrev pub plain_uuids : UuidText
plain_uuids = record { display = λ x. x ∷ []; parse_str = one_number }

abbrev pub plain_uuid_laws : UuidLaws plain_uuids
plain_uuid_laws = record { parse_display = λ x. refl }

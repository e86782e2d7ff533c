-- ===== src/Tests/Store.antt =====
-- The tests of crates/liaozhai-auth/src/store.rs on a store in memory, without those that only look at
-- the file.
use liaozhai.Auth.Account.{Account}
use liaozhai.Auth.Params.{test_fast}
use liaozhai.Auth.RateLimiter.{is_some}
use liaozhai.Auth.Store.{
  AccountStore, account_of, accounts_of, check_dummy, check_hash, create_account, create_parent,
  generate_hash, list_accounts, open_store, record_login, verify_credentials,
}
use liaozhai.Common.{
  Bool, List, Option, Text, [], codes, eq_list, false, if◌then◌else◌, is_empty, length, ltb, none,
  not, refl, some, true, ℕ, ◌&&◌, ◌==◌, ◌∷◌, ◌≡◌,
}
use liaozhai.Core.Error.{Error, Result, display, err, ok, ◌>>=◌}
use liaozhai.Core.Id.{AccountId}
use liaozhai.Examples.Memory.{find_row, memory, plain_kdf, plain_uuids, update_rows}
use liaozhai.Tests.{contains_text, every, starts_with}
use liaozhai.Text.Template.{strip_prefix}
use liaozhai.Text.Trim.{to_ascii_lowercase}

abbrev Store : Type 0
Store = AccountStore memory plain_kdf plain_uuids

abbrev alice : Text
alice = codes "alice"

abbrev upper_alice : Text
upper_alice = codes "Alice"

abbrev secret : Text
secret = codes "secret"

abbrev numbered : ℕ → AccountId
numbered n = record { uuid = n }

abbrev open_test_store : Result Error Store
open_test_store = open_store memory plain_kdf plain_uuids (codes "test.db") test_fast 0

-- The account with the identifier `n` is created at the time 100.
abbrev created : ℕ → Text → Text → Store → Result Error (Account × Store)
created n username password s =
    create_account memory plain_kdf plain_uuids s 0 (numbered n) 100 username password

abbrev verified : Text → Text → Store → Result Error (Option Account)
verified username password s =
    (verify_credentials memory plain_kdf plain_uuids s username password).outcome

abbrev listed : Store → Result Error (List Account)
listed s = list_accounts memory plain_kdf plain_uuids s

abbrev logged_in : ℕ → Store → Result Error Store
logged_in n s = record_login memory plain_kdf plain_uuids s 200 (numbered n)

-- `unwrap`: an error fails the test.
abbrev holds : Result Error Bool → Bool
holds (ok b) = b
holds (err e) = false

-- `unwrap_err`, and what is asserted of the text.
abbrev refused_with : {A : Type 0} → Text → Result Error A → Bool
refused_with part (ok a) = false
refused_with part (err e) = contains_text (display e) part

abbrev is_for : Text → Option Account → Bool
is_for name none = false
is_for name (some a) = eq_list a.username name

-- `iter().find(|a| a.username() == name)`
find_account : Text → List Account → Option Account
unfolding eq_list
find_account name [] = none
find_account name (a ∷ as_) = if eq_list a.username name then some a else find_account name as_

abbrev has_login : Option Account → Bool
has_login none = false
has_login (some a) = is_some a.last_login_at

abbrev create_account_succeeds : Bool
create_account_succeeds = holds (do
  s ← open_test_store
  r ← created 1 alice secret s
  ok (eq_list r.0.username alice && ltb 0 r.0.created_at && not (is_some r.0.last_login_at)))

abbrev create_account_duplicate_rejected : Bool
create_account_duplicate_rejected = holds (do
  s ← open_test_store
  r ← created 1 alice secret s
  ok (refused_with (codes "already exists") (created 2 alice (codes "other") r.1)))

abbrev create_account_case_insensitive_duplicate : Bool
create_account_case_insensitive_duplicate = holds (do
  s ← open_test_store
  r ← created 1 upper_alice secret s
  ok (refused_with (codes "already exists") (created 2 alice (codes "other") r.1)))

abbrev verify_credentials_correct_password : Bool
verify_credentials_correct_password = holds (do
  s ← open_test_store
  r ← created 1 alice secret s
  found ← verified alice secret r.1
  ok (is_for alice found))

abbrev verify_credentials_wrong_password : Bool
verify_credentials_wrong_password = holds (do
  s ← open_test_store
  r ← created 1 alice secret s
  found ← verified alice (codes "wrong") r.1
  ok (not (is_some found)))

abbrev verify_credentials_unknown_user : Bool
verify_credentials_unknown_user = holds (do
  s ← open_test_store
  found ← verified (codes "nobody") (codes "whatever") s
  ok (not (is_some found)))

abbrev verify_credentials_case_insensitive_username : Bool
verify_credentials_case_insensitive_username = holds (do
  s ← open_test_store
  r ← created 1 upper_alice secret s
  found ← verified alice secret r.1
  ok (is_some found))

abbrev list_accounts_empty : Bool
list_accounts_empty = holds (do s ← open_test_store; accounts ← listed s; ok (is_empty accounts))

abbrev list_accounts_after_create : Bool
list_accounts_after_create = holds (do
  s ← open_test_store
  r ← created 1 alice secret s
  r2 ← created 2 (codes "bob") (codes "pass") r.1
  accounts ← listed r2.1
  ok (
      length accounts == 2
      && is_some (find_account alice accounts)
      && is_some (find_account (codes "bob") accounts)))

abbrev record_login_updates_timestamp : Bool
record_login_updates_timestamp = holds (do
  s ← open_test_store
  r ← created 1 alice secret s
  s2 ← logged_in 1 r.1
  accounts ← listed s2
  ok (not (is_some r.0.last_login_at) && has_login (find_account alice accounts)))

store_tests :
    every (
      create_account_succeeds ∷ create_account_duplicate_rejected
      ∷ create_account_case_insensitive_duplicate ∷ verify_credentials_correct_password
      ∷ verify_credentials_wrong_password ∷ verify_credentials_unknown_user
      ∷ verify_credentials_case_insensitive_username ∷ list_accounts_empty
      ∷ list_accounts_after_create ∷ record_login_updates_timestamp ∷ [])
    ≡ true
unfolding every eq_list codes open_store create_parent generate_hash create_account
    verify_credentials check_hash check_dummy account_of accounts_of list_accounts record_login
    find_row update_rows find_account to_ascii_lowercase contains_text starts_with strip_prefix
    display
store_tests = refl

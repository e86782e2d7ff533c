-- ===== src/Examples/Store.antt =====
-- The theorems on store.rs at concrete inputs, with a store in memory.
use liaozhai.Auth.Account.{Account, from_row}
use liaozhai.Auth.External.{Row}
use liaozhai.Auth.Params.{test_fast}
use liaozhai.Auth.Store.{
  AccountStore, after_verifications, create_account, generate_hash, record_login,
  verify_credentials,
}
use liaozhai.Auth.Store.Laws.{
  create_account-record_login, create_account-taken, create_account-verify_credentials,
}
use liaozhai.Common.{Text, [], codes, eq_list, none, refl, some, sym, ◌++◌, ◌∷◌, ◌≡◌}
use liaozhai.Core.Error.{Error, err, ok}
use liaozhai.Core.Id.{AccountId}
use liaozhai.Examples.Memory.{
  find_row, memory, memory_laws, plain_kdf, plain_laws, plain_uuid_laws, plain_uuids, update_rows,
}
use liaozhai.Text.Trim.{to_ascii_lowercase}

abbrev pub id_7 : AccountId
id_7 = record { uuid = 7 }

abbrev pub empty_store : AccountStore memory plain_kdf plain_uuids
empty_store = record {
  conn = [];
  params = test_fast;
  dummy_hash = codes "dummy_password_for_timing";
}

abbrev pub bob : Text
bob = b'b' ∷ b'o' ∷ b'b' ∷ []

abbrev pub bob_upper : Text
bob_upper = b'B' ∷ b'O' ∷ b'B' ∷ []

abbrev pub pw : Text
pw = b'p' ∷ b'w' ∷ []

abbrev pub bob_row : Row
bob_row = record {
  id = 7 ∷ [];
  username = bob;
  password_hash = pw;
  created_at = 100;
  last_login_at = none;
}

abbrev pub store_with_bob : AccountStore memory plain_kdf plain_uuids
store_with_bob = record empty_store { conn = bob_row ∷ [] }

abbrev pub bob_account : Account
bob_account = from_row id_7 bob 100 none

pub creates_bob :
    create_account memory plain_kdf plain_uuids empty_store 0 id_7 100 bob pw
    ≡ ok (bob_account, store_with_bob)
unfolding create_account generate_hash find_row
creates_bob = refl

pub same_bob : to_ascii_lowercase bob_upper ≡ to_ascii_lowercase bob
unfolding to_ascii_lowercase
same_bob = refl

create_account-verify_credentials_example :
    verify_credentials memory plain_kdf plain_uuids store_with_bob bob_upper pw
    ≡ after_verifications 1 (ok (some bob_account))
create_account-verify_credentials_example =
    create_account-verify_credentials memory memory_laws plain_kdf plain_laws plain_uuids
      plain_uuid_laws empty_store 0 id_7 100 bob pw bob_upper bob_account store_with_bob creates_bob
      same_bob

finds_bob : find_row (bob_row ∷ []) bob ≡ ok bob_row
unfolding find_row eq_list to_ascii_lowercase
finds_bob = refl

create_account-taken_example :
    create_account memory plain_kdf plain_uuids store_with_bob 0 id_7 200 bob_upper (codes "other")
    ≡ err (Error.auth (codes "Account '" ++ (bob_upper ++ codes "' already exists")))
unfolding generate_hash
create_account-taken_example =
    create_account-taken memory memory_laws plain_kdf plain_laws plain_uuids plain_uuid_laws
      store_with_bob 0 id_7 200 bob_upper (codes "other") bob bob_row (codes "other") refl finds_bob
      (sym same_bob)

abbrev store_after_login : AccountStore memory plain_kdf plain_uuids
store_after_login = record empty_store { conn = record bob_row { last_login_at = some 300 } ∷ [] }

logs_bob_in :
    record_login memory plain_kdf plain_uuids store_with_bob 300 id_7 ≡ ok store_after_login
unfolding record_login update_rows eq_list
logs_bob_in = refl

create_account-record_login_example :
    verify_credentials memory plain_kdf plain_uuids store_after_login bob_upper pw
    ≡ after_verifications 1 (ok (some (record bob_account { last_login_at = some 300 })))
create_account-record_login_example =
    create_account-record_login memory memory_laws plain_kdf plain_laws plain_uuids plain_uuid_laws
      empty_store 0 id_7 100 bob pw bob_upper bob_account store_with_bob 300 store_after_login
      creates_bob same_bob logs_bob_in

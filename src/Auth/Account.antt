-- ===== src/Auth/Account.antt =====
-- crates/liaozhai-auth/src/account.rs. Times are seconds since the Unix epoch.
use liaozhai.Common.{Option, Text, none, ℕ}
use liaozhai.Core.Id.{AccountId}

pub record Account : Type 0 where
  pub id : AccountId
  pub username : Text
  pub created_at : ℕ
  pub last_login_at : Option ℕ

-- `Account::new`; the random identifier and the clock are arguments.
abbrev pub new_account : AccountId → ℕ → Text → Account
new_account id now username = record {
  id = id;
  username = username;
  created_at = now;
  last_login_at = none;
}

abbrev pub from_row : AccountId → Text → ℕ → Option ℕ → Account
from_row id username created_at last_login_at = record {
  id = id;
  username = username;
  created_at = created_at;
  last_login_at = last_login_at;
}

-- ===== src/Net/Connection/Interleaved/Vouched.antt =====
-- Who is at the selection of a world, among many connections of connection.rs.
use liaozhai.Auth.Account.{Account}
use liaozhai.Auth.RateLimiter.{IpAddr}
use liaozhai.Common.{Text, some, ℕ, ◌≡◌, ◌⊎◌}
use liaozhai.Core.Error.{ok}
use liaozhai.Net.Connection.{Connection, Credentials}
use liaozhai.Net.Connection.Interleaved.{
  Live, Serving, World, accepted, ended, idle, passed, rejected, ungreeted,
}
use liaozhai.Net.Session.{SessionState, authenticating, world_selection}

module _ (creds : Credentials) (max_login_attempts : ℕ) where
  -- On the way to this state, the store verified a password for the account when a connection of the
  -- peer took a pass.
  abbrev pub VerifiedIn :
      (w : World creds max_login_attempts)
      → Serving creds max_login_attempts w
      → IpAddr
      → Account
      → Type 0
  VerifiedIn _ (idle l s) peer a = ⊥
  VerifiedIn _ (accepted w peer' registry results now d s h) peer a = VerifiedIn w s peer a
  VerifiedIn _ (rejected w peer' registry results now writer l s h) peer a = VerifiedIn w s peer a
  VerifiedIn _ (ungreeted w peer' registry results now writer l s h) peer a = VerifiedIn w s peer a
  VerifiedIn _ (passed w before after peer' c d e s at_ h) peer a =
      ((peer' ≡ peer)
        × ((name : Text) × (password : Text) × (creds.verify w.store name password ≡ ok (some a))))
      ⊎ VerifiedIn w s peer a
  VerifiedIn _ (ended w before after peer' c d e s at_ h) peer a = VerifiedIn w s peer a

  -- A session in this state is at the selection of a world only for an account that was verified.
  abbrev pub VouchedState : (IpAddr → Account → Type 0) → IpAddr → SessionState → Type 0
  VouchedState V peer (authenticating username) = Unit
  VouchedState V peer (world_selection a) = V peer a

  abbrev pub Vouched : (IpAddr → Account → Type 0) → Live creds max_login_attempts → Type 0
  Vouched V (peer, d) = VouchedState V peer d.session.state

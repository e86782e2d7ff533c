-- ===== src/Net/Connection/Reached.antt =====
-- What holds of every connection that the loop of connection.rs goes on with, whatever comes in and
-- whatever other connections do to the limiter and the store in between.
use liaozhai.Auth.Account.{Account}
use liaozhai.Auth.RateLimiter.{AuthRateLimiter, IpAddr}
use liaozhai.Common.{
  Bool, Bytes, List, [], arith, eq_list, false, if◌then◌else◌, inl, inr, none, refl, take, true, ℕ,
  ◌++◌, ◌<◌, ◌∷◌, ◌≡◌, ◌⊎◌,
}
use liaozhai.Core.Constants.{auth_failed_msg, banner, iac_will_echo, iac_wont_echo, username_prompt}
use liaozhai.Net.Connection.{Connection, Credentials, Event, running, step}
use liaozhai.Net.Connection.Passes.{Passed, asked, logged_in, refused, shown, step-Passed}
use liaozhai.Net.Session.{
  Session, authenticating, initial_prompt, is_password_input, welcome_output,
}
use liaozhai.Net.Session.Outputs.{
  StartsAscii, as_bytes-StartsAscii, banner_text-StartsAscii, failed_text-StartsAscii,
  welcome_text-StartsAscii,
}
use liaozhai.Text.Utf8.{as_bytes}

-- Whether the client was last told to mask its input.
unfoldable pub echo_after : Bool → Bytes → Bool
unfolding eq_list
echo_after masked frame =
    if eq_list (take 3 frame) iac_will_echo
    then true
    else if eq_list (take 3 frame) iac_wont_echo
    then false
    else masked

unfoldable pub echo_masked : Bool → List Bytes → Bool
unfolding echo_after
echo_masked masked [] = masked
echo_masked masked (f ∷ fs) = echo_masked (echo_after masked f) fs

pub echo_masked-append :
    (m : Bool) (fs : List Bytes) (f : Bytes)
    → echo_masked m (fs ++ f ∷ []) ≡ echo_after (echo_masked m fs) f
unfolding echo_masked
echo_masked-append m [] f = refl
echo_masked-append m (g ∷ fs) f = echo_masked-append (echo_after m g) fs f

pub echo_after-StartsAscii : (m : Bool) (f : Bytes) → StartsAscii f → echo_after m f ≡ m
unfolding echo_after eq_list
echo_after-StartsAscii m [] h = refl
echo_after-StartsAscii m (b ∷ f) h = ground arith

echo_after-will : (m : Bool) (t : Bytes) → echo_after m (iac_will_echo ++ t) ≡ true
unfolding echo_after eq_list
echo_after-will m t = refl

pub echo_after-wont : (m : Bool) → echo_after m iac_wont_echo ≡ false
unfolding echo_after eq_list
echo_after-wont m = refl

welcome-StartsAscii :
    (s : Session) (account : Account) → StartsAscii (as_bytes (welcome_output s account))
welcome-StartsAscii s account =
    as_bytes-StartsAscii (welcome_output s account) (welcome_text-StartsAscii account.username _)

module _ (creds : Credentials) (max_login_attempts : ℕ) (peer : IpAddr) where
  -- Passes of the loop that go on, with anything done to what is shared in between.
  pub data Reached (c : Connection creds max_login_attempts peer)
      : Connection creds max_login_attempts peer → Type 0 where
    begin_ : Reached c c
    pass :
        (d d' : Connection creds max_login_attempts peer) (e : Event)
        → Reached c d
        → step creds max_login_attempts peer d e ≡ running d'
        → Reached c d'
    others :
        (d : Connection creds max_login_attempts peer) (l : AuthRateLimiter) (s : creds.Store)
        → Reached c d
        → Reached c (record d { limiter = l; store = s })

  abbrev pub Masks : Connection creds max_login_attempts peer → Type 0
  Masks c = echo_masked false c.writer.sent ≡ is_password_input c.session

  Passed-Masks :
      (c d : Connection creds max_login_attempts peer)
      → {e : Event} → Passed creds max_login_attempts peer c d e
      → Masks c
      → Masks d
  Passed-Masks c d (shown text how a s f w) m =
      rw (w, s, echo_masked-append, echo_after-StartsAscii _ text a) m
  Passed-Masks c d (asked t name how st s f w) m =
      rw (w, s, echo_masked-append, echo_after-will) refl
  Passed-Masks c d (logged_in t name password account how st v s f l w) m =
      rw
        (
          w,
          s,
          echo_masked-append,
          echo_after-StartsAscii _ _ (welcome-StartsAscii c.session account),
          echo_masked-append false c.writer.sent iac_wont_echo,
          echo_after-wont (echo_masked false c.writer.sent),
        )
        refl
  Passed-Masks c d (refused t name password how st v s f few l w) m =
      rw
        (
          w,
          s,
          echo_masked-append,
          echo_after-StartsAscii _ _
              (as_bytes-StartsAscii (auth_failed_msg ++ username_prompt) failed_text-StartsAscii),
          echo_masked-append false c.writer.sent iac_wont_echo,
          echo_after-wont (echo_masked false c.writer.sent),
        )
        refl

  abbrev pub Counts : Connection creds max_login_attempts peer → Type 0
  Counts c = (c.auth_failures ≡ 0) ⊎ (c.auth_failures < max_login_attempts)

  Passed-Counts :
      (c d : Connection creds max_login_attempts peer)
      → {e : Event} → Passed creds max_login_attempts peer c d e
      → Counts c
      → Counts d
  Passed-Counts c d (shown text how a s f w) m = rw f m
  Passed-Counts c d (asked t name how st s f w) m = rw f m
  Passed-Counts c d (logged_in t name password account how st v s f l w) m = rw f m
  Passed-Counts c d (refused t name password how st v s f few l w) m = inr few

  -- The connection behind the banner.
  abbrev pub Fresh : Connection creds max_login_attempts peer → Type 0
  Fresh c =
      (c.session.state ≡ authenticating none)
      × (c.auth_failures ≡ 0)
      × (c.writer.sent ≡ as_bytes (banner ++ initial_prompt) ∷ [])

  Fresh-Masks : (c : Connection creds max_login_attempts peer) → Fresh c → Masks c
  unfolding echo_masked
  Fresh-Masks c (st, f, w) =
      rw (w, st)
        (echo_after-StartsAscii false (as_bytes (banner ++ initial_prompt)) (
          as_bytes-StartsAscii (banner ++ initial_prompt) (banner_text-StartsAscii initial_prompt)))

  -- While the loop goes on behind the banner, the client was last told to mask its input exactly if
  -- the session waits for a password, whatever has come in, and whatever other connections have
  -- done to the limiter and the store.
  pub echo_masked-is_password_input :
      (c d : Connection creds max_login_attempts peer)
      → Fresh c
      → Reached c d
      → echo_masked false d.writer.sent ≡ is_password_input d.session
  echo_masked-is_password_input c _ f begin_ = Fresh-Masks c f
  echo_masked-is_password_input c _ f (pass b d e r h) =
      Passed-Masks b d (step-Passed creds max_login_attempts peer b d e h)
        (echo_masked-is_password_input c b f r)
  echo_masked-is_password_input c _ f (others b l s r) = echo_masked-is_password_input c b f r

  -- While the loop goes on behind the banner, no login has failed or the counter of failures is
  -- below `max_login_attempts`.
  pub auth_failures-bounds :
      (c d : Connection creds max_login_attempts peer)
      → Fresh c
      → Reached c d
      → (d.auth_failures ≡ 0) ⊎ (d.auth_failures < max_login_attempts)
  auth_failures-bounds c _ f begin_ = inl f.1
  auth_failures-bounds c _ f (pass b d e r h) =
      Passed-Counts b d (step-Passed creds max_login_attempts peer b d e h)
        (auth_failures-bounds c b f r)
  auth_failures-bounds c _ f (others b l s r) = auth_failures-bounds c b f r

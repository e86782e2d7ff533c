-- ===== src/Net/Session/Input.antt =====
-- What the session makes of a line, in each state.
use liaozhai.Auth.Account.{Account}
use liaozhai.Common.{
  Option, Text, arith, false, inl, inr, is_empty, none, refl, some, ◌↔◌, ◌≡◌, ◌⊎◌,
}
use liaozhai.Core.Constants.{password_prompt}
use liaozhai.Net.Session.{
  Session, SessionState, advance, auth_pending, authenticating, complete_auth, handle_input,
  handle_state, is_session_terminator, world_selection,
}
use liaozhai.Text.Trim.{trim, trim_idem}
use liaozhai.Worlds.Registry.{WorldRegistry}

handle_state-trim :
    (st : SessionState) (r : WorldRegistry) (input : Text)
    → handle_state st r (trim input) ≡ handle_state st r input
unfolding handle_state
handle_state-trim (authenticating none) r input = rw trim_idem
handle_state-trim (authenticating (some name)) r input = rw trim_idem
handle_state-trim (world_selection account) r input = rw trim_idem

-- Whitespace around a line makes no difference, in any state.
pub handle_input-trim :
    (s : Session) (input : Text) → handle_input s (trim input) ≡ handle_input s input
unfolding handle_input
handle_input-trim s input = handle_state-trim s.state s.registry input

-- Why a line is handed over for verification.
pub record Pending (st : SessionState) (input username password : Text) : Type 0 where
  pub state : st ≡ authenticating (some username)
  pub typed : password ≡ trim input
  pub given : is_empty password ≡ false
  pub no_quit : is_session_terminator password ≡ false

handle_state-Pending :
    (st : SessionState) (r : WorldRegistry) (input username password : Text)
    → handle_state st r input ≡ auth_pending username password
    → Pending st input username password
unfolding handle_state
handle_state-Pending (authenticating none) r input username password h = ground arith
handle_state-Pending (authenticating (some name)) r input username password h = ground arith
handle_state-Pending (world_selection account) r input username password h = ground arith

-- Credentials are handed over exactly when the session waits for a password and the line is, without
-- the whitespace around it, a text that is not empty and no command to quit. They are the name that
-- was stored and that text.
pub auth_pending_iff :
    (s : Session) (input username password : Text)
    → (handle_input s input ≡ auth_pending username password)
      ↔ Pending s.state input username password
unfolding handle_input
auth_pending_iff s input username password =
    (handle_state-Pending s.state s.registry input username password, back_to s.state)
  where
    back_to :
        (st : SessionState)
        → Pending st input username password
        → handle_state st s.registry input ≡ auth_pending username password
    back_to st p = rw (p.state, handle_state, ← p.typed, p.no_quit, p.given)

-- Where a line moves the session by itself, it goes from waiting for a name to waiting for its
-- password.
pub record Moves (st : SessionState) (input : Text) (st' : SessionState) (output : Text)
    : Type 0 where
  pub before : st ≡ authenticating none
  pub behind : st' ≡ authenticating (some (trim input))
  pub given : is_empty (trim input) ≡ false
  pub prompts : output ≡ password_prompt

handle_state-Moves :
    (st : SessionState) (r : WorldRegistry) (input : Text) (st' : SessionState) (output : Text)
    → handle_state st r input ≡ advance st' output
    → Moves st input st' output
unfolding handle_state
handle_state-Moves (authenticating none) r input st' output h = ground arith
handle_state-Moves (authenticating (some name)) r input st' output h = ground arith
handle_state-Moves (world_selection account) r input st' output h = ground arith

-- A line that by itself moves the session on leads from asking for a name to asking for the
-- password of the name that was typed, which is not empty. So no line makes the session forget a
-- name or passes on to the selection of a world.
pub advance-Moves :
    (s : Session) (input : Text) (st' : SessionState) (output : Text)
    → handle_input s input ≡ advance st' output
    → Moves s.state input st' output
unfolding handle_input
advance-Moves s = handle_state-Moves s.state s.registry

-- The outcome of a verification always moves the session on, to the selection of a world for the
-- account that was verified and to the begin of the dialogue otherwise. So it never leads to the
-- state that waits for a password, and is never another transition.
pub complete_auth-advance :
    (s : Session) (result : Option Account)
    → (output : Text) × (((a : Account) × (result ≡ some a)
          × (complete_auth s result ≡ advance (world_selection a) output))
        ⊎ ((result ≡ none) × (complete_auth s result ≡ advance (authenticating none) output)))
unfolding complete_auth
complete_auth-advance s (some a) = (_, inl (a, refl, refl))
complete_auth-advance s none = (_, inr (refl, refl))

-- ===== src/Net/Connection.antt =====
-- crates/liaozhai-net/src/connection.rs and context.rs. One pass of the loop is a step on the state of
-- a connection and what `select!` gives it. The account store is an interface, which the store of the
-- authentication fills. Logging is left out.
pub mod Passes
pub mod Outcomes
pub mod Login
pub mod Restored
pub mod Accounts
pub mod Lockout
pub mod Visits
pub mod AtOnce
pub mod Typed
pub mod Interleaved
pub mod Reached
use liaozhai.Auth.Account.{Account}
use liaozhai.Auth.External.{Argon2, Database, UuidText}
use liaozhai.Auth.RateLimiter.{
  AuthRateLimiter, Instant, IpAddr, is_throttled, record_failure, reset,
}
use liaozhai.Auth.Store.{AccountStore, record_login, verify_credentials}
use liaozhai.Common.{
  Bool, Bytes, List, Option, Text, [], if◌then◌else◌, leb, none, some, ℕ, ◌%◌, ◌++◌, ◌+◌, ◌^◌, ◌∷◌,
}
use liaozhai.Core.Constants.{
  auth_internal_error_msg, auth_max_retries_msg, auth_rate_limited_msg, banner, buffer_overflow_msg,
  iac_will_echo, iac_wont_echo, line_too_long_msg, shutdown_msg,
}
use liaozhai.Core.Error.{Error, Result, err, ok}
use liaozhai.Core.Id.{AccountId}
use liaozhai.Net.Codec.{CodecItem, TelnetCodecError, buffer_overflow, io, line, line_too_long}
use liaozhai.Net.Output.{LineWriter, new_writer, shut_down, write_raw}
use liaozhai.Net.Session.{
  Session, SessionState, Transition, advance, apply_state, auth_pending, authenticating,
  complete_auth, disconnect, handle_input, initial_prompt, is_password_input, new_session, stay,
  world_selection,
}
use liaozhai.Text.Utf8.{as_bytes}
use liaozhai.Worlds.Registry.{WorldRegistry}

-- What the loop uses of `AccountStore`.
pub record Credentials : Type 1 where
  pub Store : Type 0
  pub verify : Store → Text → Text → Result Error (Option Account)
  pub log_in : Store → ℕ → AccountId → Result Error Store

-- `AccountStore` as the loop uses it.
abbrev pub store_credentials : (db : Database) → Argon2 → UuidText → Credentials
store_credentials db kdf uuids = record {
  Store = AccountStore db kdf uuids;
  verify = λ s name password. (verify_credentials db kdf uuids s name password).outcome;
  log_in = record_login db kdf uuids;
}

-- What the clocks read while a line is handled.
pub record Clock : Type 0 where
  pub pruned_at : Instant
  pub now : Instant
  pub unix_now : ℕ

-- What `select!` gives: the shutdown signal, or what the framed reader yields next.
pub data Event : Type 0 where
  shutdown : Event
  item : Clock → CodecItem → Event
  read_error : TelnetCodecError → Event
  eof : Event

-- The bytes before the output of an `Advance`.
unfoldable pub echo_prefix : SessionState → Bytes
echo_prefix (authenticating (some name)) = iac_will_echo
echo_prefix (authenticating none) = []
echo_prefix (world_selection account) = iac_wont_echo

module _ (creds : Credentials) (max_login_attempts : ℕ) (peer : IpAddr) where
  -- The local variables of the loop, and the limiter and the store, which connections share.
  pub record Connection : Type 0 where
    pub session : Session
    pub auth_failures : ℕ
    pub line_count : ℕ
    pub writer : LineWriter
    pub limiter : AuthRateLimiter
    pub store : creds.Store

  -- Whether the loop goes on or breaks.
  pub data Flow : Type 0 where
    running : Connection → Flow
    finished : Connection → Flow

  -- A write whose failure breaks the loop.
  unfoldable pub send : Connection → Bytes → (Connection → Flow) → Flow
  unfolding write_raw
  send c bytes k =
      let (w, success) = write_raw c.writer bytes in
      if success then k (record c { writer = w }) else finished (record c { writer = w })

  -- A write behind which the loop breaks, whether it succeeds or not.
  unfoldable pub send_last : Connection → Bytes → Flow
  unfolding write_raw
  send_last c bytes = finished (record c { writer = (write_raw c.writer bytes).0 })

  abbrev pub apply_to : Connection → SessionState → Connection
  apply_to c next = record c { session = apply_state c.session next }

  -- What `complete_auth` gives. Everything but an `Advance` breaks the loop.
  unfoldable pub complete : Connection → Transition → Flow
  unfolding send
  complete c (advance next output) = send c (as_bytes output) (λ d. running (apply_to d next))
  complete c _ = finished c

  -- The failed login is counted, here and in the limiter.
  unfoldable pub count_failure : Connection → Clock → Connection
  unfolding record_failure
  count_failure c t = record c {
    auth_failures = (c.auth_failures + 1) % 2 ^ 32;
    limiter = record_failure c.limiter t.pruned_at t.now peer;
  }

  -- The limiter forgets the peer, and the login is recorded where the store lets it.
  unfoldable pub count_success : Connection → Clock → Account → Connection
  unfolding reset
  count_success c t account = record c {
    limiter = reset c.limiter peer;
    store = elim (creds.log_in c.store t.unix_now account.id) [ ok s ↦ s | err e ↦ c.store ];
  }

  -- What follows the verification.
  unfoldable pub after_verification : Connection → Clock → Result Error (Option Account) → Flow
  unfolding complete count_failure count_success complete_auth send_last
  after_verification c t (err e) = send_last c (as_bytes auth_internal_error_msg)
  after_verification c t (ok (some account)) =
      complete (count_success c t account) (complete_auth c.session (some account))
  after_verification c t (ok none) =
      let d = count_failure c t in
      if leb max_login_attempts d.auth_failures
      then send_last d (as_bytes auth_max_retries_msg)
      else complete d (complete_auth d.session none)

  unfoldable pub handle_transition : Connection → Clock → Transition → Flow
  unfolding send echo_prefix after_verification send_last write_raw
  handle_transition c t (stay output) = send c (as_bytes output) running
  handle_transition c t (advance next output) =
      send c (echo_prefix next ++ as_bytes output) (λ d. running (apply_to d next))
  handle_transition c t (auth_pending username password) =
      send c iac_wont_echo (λ d. after_verification d t (creds.verify d.store username password))
  handle_transition c t (disconnect goodbye) =
      let w =
        if is_password_input c.session then (write_raw c.writer iac_wont_echo).0 else c.writer in
      send_last (record c { writer = w }) (as_bytes goodbye)

  -- One pass of the loop.
  unfoldable pub step : Connection → Event → Flow
  unfolding handle_transition handle_input send_last send
  step c shutdown = send_last c (as_bytes shutdown_msg)
  step c (item t (line text)) =
      let d = record c { line_count = (c.line_count + 1) % 2 ^ 64 } in
      handle_transition d t (handle_input d.session text)
  step c (item t line_too_long) = send c (as_bytes line_too_long_msg) running
  step c (read_error (buffer_overflow max)) = send_last c (as_bytes buffer_overflow_msg)
  step c (read_error (io e)) = finished c
  step c eof = finished c

  -- Behind the loop, the write half is shut down.
  abbrev pub then_run : (Connection → Flow) → Flow → Flow
  then_run again (running d) = again d
  then_run again (finished d) = finished (record d { writer = shut_down d.writer })

  -- The loop, on the events that come until it breaks or waits for more.
  unfoldable pub run : Connection → List Event → Flow
  unfolding step
  run c [] = running c
  run c (e ∷ es) = then_run (λ d. run d es) (step c e)

  -- `handle_connection`: the peer is turned away, the banner cannot be written, or the loop runs.
  pub data Served : Type 0 where
    turned_away : LineWriter → AuthRateLimiter → Served
    no_banner : LineWriter → AuthRateLimiter → Served
    looped : Flow → Served

  unfoldable pub start : Session → LineWriter → AuthRateLimiter → creds.Store → Connection
  start session w limiter store = record {
    session = session;
    auth_failures = 0;
    line_count = 0;
    writer = w;
    limiter = limiter;
    store = store;
  }

  unfoldable pub handle_connection :
      WorldRegistry → List Bool → Instant → AuthRateLimiter → creds.Store → List Event → Served
  unfolding is_throttled write_raw start run
  handle_connection registry results now limiter store events =
      let (l, throttled) = is_throttled limiter now peer in
      if throttled
      then turned_away
          (shut_down (write_raw (new_writer results) (as_bytes auth_rate_limited_msg)).0) l
      else (let (w, success) =
            write_raw (new_writer results) (as_bytes (banner ++ initial_prompt)) in
          if success
          then looped (run (start (new_session registry) w l store) events)
          else no_banner w l)

-- ===== src/Net/Connection/Accounts.antt =====
-- connection.rs over the store of store.rs, from the bytes that a client sends: an account that was
-- created can log in and choose a world.
use liaozhai.Auth.Account.{Account}
use liaozhai.Auth.External.{Argon2, Argon2Laws, Database, DatabaseLaws, UuidLaws, UuidText}
use liaozhai.Auth.RateLimiter.{AuthRateLimiter, Instant, IpAddr, is_throttled, reset}
use liaozhai.Auth.Store.{AccountStore, create_account}
use liaozhai.Auth.Store.Laws.{create_account-verify_credentials}
use liaozhai.Common.{
  Bytes, List, Text, [], ap, false, none, refl, some, true, ℕ, ◌%◌, ◌++◌, ◌+◌, ◌<◌, ◌^◌, ◌∙◌, ◌∷◌,
  ◌≡◌,
}
use liaozhai.Core.Constants.{banner}
use liaozhai.Core.Error.{ok}
use liaozhai.Core.Id.{AccountId}
use liaozhai.Net.Codec.{decode, line, reply}
use liaozhai.Net.Codec.RoundTrip.{IsReading}
use liaozhai.Net.Codec.Stream.{Framed}
use liaozhai.Net.Codec.Stream.Typed.{Framed-Spaced, IsTyped, Spaced, typed}
use liaozhai.Net.Connection.{
  Clock, Connection, Credentials, finished, handle_connection, handle_transition, item, looped, run,
  start, step, store_credentials,
}
use liaozhai.Net.Connection.Login.{Gives, send_last-sent_frame, sent_frame}
use liaozhai.Net.Connection.Typed.{run-login, run-spoken, stamped}
use liaozhai.Net.Iac.{TelnetLineCodec}
use liaozhai.Net.Output.{new_writer, shut_down, write_raw}
use liaozhai.Net.Session.{
  Session, authenticating, disconnect, handle_input, handle_state, initial_prompt,
  is_password_input, new_session, world_selection,
}
use liaozhai.Net.Session.Selection.{handle_state-to_string, selected_goodbye, to_string-IsTyped}
use liaozhai.Text.Decimal.{to_string, usize_mod}
use liaozhai.Text.Utf8.{as_bytes}
use liaozhai.Worlds.Metadata.{WorldMetadata}
use liaozhai.Worlds.Registry.{WorldRegistry, get_by_position}

handle_input-to_string_known :
    (s : Session) (account : Account) (n : ℕ) (w : WorldMetadata)
    → s.state ≡ world_selection account
    → n < usize_mod
    → get_by_position s.registry n ≡ some w
    → handle_input s (to_string n) ≡ disconnect (selected_goodbye w)
unfolding handle_input
handle_input-to_string_known s account n w st h known =
    ap (λ x. handle_state x s.registry (to_string n)) st
    ∙ handle_state-to_string s.registry account n w h known

no_password :
    (s : Session) (account : Account)
    → s.state ≡ world_selection account
    → is_password_input s ≡ false
unfolding is_password_input
no_password s account st = rw st refl

module _ (creds : Credentials) (max_login_attempts : ℕ) (peer : IpAddr) where
  -- The number of a world ends the loop.
  step-to_string :
      (c : Connection creds max_login_attempts peer) (t : Clock) (account : Account) (n : ℕ)
      (w : WorldMetadata)
      → c.writer.results ≡ []
      → c.session.state ≡ world_selection account
      → n < usize_mod
      → get_by_position c.session.registry n ≡ some w
      → step creds max_login_attempts peer c (item t (line (to_string n)))
        ≡ finished (
            sent_frame creds max_login_attempts peer
              (record c { line_count = (c.line_count + 1) % 2 ^ 64 })
              (as_bytes (selected_goodbye w)))
  unfolding step handle_transition
  step-to_string c t account n w e st h known =
      rw
        (
          handle_input-to_string_known c.session account n w st h known,
          no_password c.session account st,
        )
        (send_last-sent_frame creds max_login_attempts peer
          (record c { line_count = (c.line_count + 1) % 2 ^ 64 }) (as_bytes (selected_goodbye w)) e)

  -- A connection that has ended: its write half is shut down, behind a last frame.
  pub record IsGone (last : Bytes) (c d : Connection creds max_login_attempts peer) : Type 0 where
    pub closed : d.writer.closed ≡ true
    pub before : List Bytes
    pub sent : d.writer.sent ≡ before ++ last ∷ []
    pub auth_failures : d.auth_failures ≡ c.auth_failures
    pub limiter : d.limiter ≡ reset c.limiter peer

  -- A name, a password and the number of a world.
  run-IsGone :
      (clock : ℕ → Clock) (c : Connection creds max_login_attempts peer)
      (first second name password : Text) (account : Account) (n : ℕ) (w : WorldMetadata)
      (out : List Text)
      → c.writer.results ≡ []
      → c.session.state ≡ authenticating none
      → Gives first name
      → Gives second password
      → creds.verify c.store name password ≡ ok (some account)
      → n < usize_mod
      → get_by_position c.session.registry n ≡ some w
      → Spaced out (first ∷ second ∷ to_string n ∷ [])
      → (d : Connection creds max_login_attempts peer) × (run creds max_login_attempts peer c
            (stamped clock 0 out)
          ≡ finished d)
        × IsGone (as_bytes (selected_goodbye w)) c d
  unfolding run
  run-IsGone clock c first second name password account n w out e st g g' v h known s =
      let (b, j, mid, runs, l, s') =
        run-login creds max_login_attempts peer clock c first second name password account
          (to_string n ∷ []) out e st g g' v s in
      let (a, k, later, runs', x, _) =
        run-spoken creds max_login_attempts peer clock j b (to_string n) [] mid _ l.results refl
          s' in
      let session = x.session ∙ l.session in
      let last =
        sent_frame creds max_login_attempts peer
          (record a { line_count = (a.line_count + 1) % 2 ^ 64 }) (as_bytes (selected_goodbye w)) in
      let ends =
        step-to_string a (clock k) account n w (x.results ∙ l.results) (ap (λ y. y.state) session) h
          (ap (λ y. get_by_position y.registry n) session ∙ known) in
      (
        record last { writer = shut_down last.writer },
        runs ∙ runs' ∙ rw ends refl,
        record {
          closed = refl;
          before = a.writer.sent;
          sent = refl;
          auth_failures = x.auth_failures ∙ l.auth_failures;
          limiter = x.limiter ∙ l.limiter;
        },
      )

module _ (db : Database) (sql : DatabaseLaws db) (kdf : Argon2) (kdf_laws : Argon2Laws kdf)
    (uuids : UuidText) (uuid_laws : UuidLaws uuids) where
  -- Once an account is created, a client that connects, is not throttled, and sends the name, in any
  -- spelling that the database takes for the same, the password and the number of a world, in UTF-8
  -- and each ended by CR LF, is served to the end, however the bytes are cut into the pieces that
  -- arrive: when `decode` waits for more, the loop on the lines that it has given has ended, the last
  -- frame takes leave with the name of that world, the write half is shut down, no failure is counted,
  -- and the limiter forgets the peer. Its writes succeed, the session takes both words from what it
  -- sends, and no line was too long on the way.
  pub create_account-IsGone :
      (s : AccountStore db kdf uuids) (salt : ℕ) (id : AccountId) (now : ℕ)
      (username password : Text) (a : Account) (s' : AccountStore db kdf uuids)
      (max_login_attempts : ℕ) (peer : IpAddr) (registry : WorldRegistry)
      (limiter : AuthRateLimiter) (connected_at : Instant) (clock : ℕ → Clock)
      (codec : TelnetLineCodec) (first second name : Text) (n : ℕ) (w : WorldMetadata)
      (out : List Text) (codec' : TelnetLineCodec) (buf : Bytes) (codec'' : TelnetLineCodec)
      (buf' : Bytes)
      → create_account db kdf uuids s salt id now username password ≡ ok (a, s')
      → sql.nocase name ≡ sql.nocase username
      → Gives first name
      → Gives second password
      → IsTyped first
      → IsTyped second
      → n < usize_mod
      → get_by_position registry n ≡ some w
      → (is_throttled limiter connected_at peer).1 ≡ false
      → IsReading codec
      → Framed codec (typed (first ∷ second ∷ to_string n ∷ [])) out codec' buf
      → decode codec' buf ≡ some (reply codec'' buf' none)
      → (d : Connection (store_credentials db kdf uuids) max_login_attempts peer)
        × (handle_connection
              (store_credentials db kdf uuids)
              max_login_attempts
              peer
              registry
              []
              connected_at
              limiter
              s'
              (stamped clock 0 out)
            ≡ looped (finished d))
        × (d.writer.closed ≡ true)
        × ((before : List Bytes) × (d.writer.sent ≡ before ++ as_bytes (selected_goodbye w) ∷ []))
        × (d.auth_failures ≡ 0)
        × (d.limiter ≡ reset (is_throttled limiter connected_at peer).0 peer)
  unfolding handle_connection start write_raw
  create_account-IsGone s salt id now username password a s' max_login_attempts peer registry
        limiter connected_at clock codec first second name n w out codec' buf codec'' buf' created
        same g g' typed_name typed_password small known free r f waits =
      let creds = store_credentials db kdf uuids in
      let v =
        create_account-verify_credentials db sql kdf kdf_laws uuids uuid_laws s salt id now username
          password name a s' created same in
      let c =
        start creds max_login_attempts peer (new_session registry)
          (write_raw (new_writer []) (as_bytes (banner ++ initial_prompt))).0
          (is_throttled limiter connected_at peer).0 s' in
      let (lines, _) =
        Framed-Spaced codec (first ∷ second ∷ to_string n ∷ []) out codec' buf codec'' buf' r
          (typed_name, (typed_password, (to_string-IsTyped n small, tt))) f waits in
      let (d, runs, gone) =
        run-IsGone creds max_login_attempts peer clock c first second name password a n w out refl
          refl g g' (ap (λ x. x.outcome) v) small known lines in
      (
        d,
        rw free (ap looped runs),
        gone.closed,
        (gone.before, gone.sent),
        gone.auth_failures,
        gone.limiter,
      )

-- ===== src/Tests/Connection.antt =====
-- The tests of crates/liaozhai-net/src/connection.rs: a client talks to a connection over the codec,
-- with a store in memory. The test of a line of 5000 bytes is left out.
pub mod Logins
pub mod Streams
use liaozhai.Auth.Account.{Account}
use liaozhai.Auth.Params.{test_fast}
use liaozhai.Auth.RateLimiter.{AuthRateLimiter, is_some, new_limiter, record_failure}
use liaozhai.Auth.Store.{AccountStore, create_account, open_store}
use liaozhai.Common.{
  Bool, Bytes, List, Text, [], codes, drop, false, length, none, some, suc, true, zero, ℕ, ◌&&◌,
  ◌++◌, ◌+◌, ◌∷◌,
}
use liaozhai.Core.Error.{Error, Result, err, ok, ◌>>=◌}
use liaozhai.Examples.Memory.{memory, plain_kdf, plain_uuids}
use liaozhai.Net.Codec.{decode, new_codec}
use liaozhai.Net.Connection.{
  Clock, Connection, Credentials, Event, Flow, Served, eof, finished, handle_connection, item,
  looped, read_error, run, running, shutdown, store_credentials, turned_away,
}
use liaozhai.Net.Iac.{TelnetLineCodec}
use liaozhai.Tests.{contains_text}
use liaozhai.Tests.Session.{test_registry}
use liaozhai.Worlds.Metadata.{WorldEntryDto}
use liaozhai.Worlds.Registry.{WorldRegistry, load_from_toml}

abbrev pub Creds : Credentials
Creds = store_credentials memory plain_kdf plain_uuids

abbrev pub Client : Type 0
Client = Connection Creds 3 1

abbrev pub Looping : Type 0
Looping = Flow Creds 3 1

abbrev pub Store : Type 0
Store = AccountStore memory plain_kdf plain_uuids

abbrev pub test_password : Text
test_password = codes "secret"

abbrev pub ctx_limiter : AuthRateLimiter
ctx_limiter = new_limiter 60000 10 10000

abbrev pub at_noon : Clock
at_noon = record { pruned_at = 1000000; now = 1000000; unix_now = 500 }

-- What a client does, and parts of what it has to receive until it goes on.
pub data Act : Type 0 where
  writes : Bytes → Act
  shutdown_cancels drops : Act

abbrev pub Scene : Type 0
Scene = Act × List Bytes

unfoldable pub received_each : Bytes → List Bytes → Bool
unfolding contains_text
received_each got [] = true
received_each got (part ∷ parts) = contains_text got part && received_each got parts

-- What the framed reader yields of a buffer; each item takes a byte at least.
unfoldable pub drained_items : ℕ → TelnetLineCodec → Bytes → TelnetLineCodec × Bytes × List Event
unfolding decode
drained_items zero c buf = (c, buf, [])
drained_items (suc fuel) c buf = elim (decode c buf) [
  | none ↦ (c, buf, [])
  | some r ↦ elim r.result [
    | err e ↦ (r.codec, r.buf, read_error e ∷ [])
    | ok none ↦ (r.codec, r.buf, [])
    | ok (some i) ↦
        let (c', buf', events) = drained_items fuel r.codec r.buf in
        (c', buf', item at_noon i ∷ events)
  ]
]

unfoldable pub happens : Act → TelnetLineCodec → Bytes → TelnetLineCodec × Bytes × List Event
unfolding drained_items
happens (writes bytes) c buf = drained_items (length (buf ++ bytes) + 1) c (buf ++ bytes)
happens shutdown_cancels c buf = (c, buf, shutdown ∷ [])
happens drops c buf = (c, buf, eof ∷ [])

unfoldable pub frames_from : ℕ → List Bytes → Bytes
frames_from n frames = concat_frames (drop n frames)
  where
    concat_frames : List Bytes → Bytes
    concat_frames [] = []
    concat_frames (f ∷ fs) = f ++ concat_frames fs

abbrev pub client_of : Looping → Client
client_of (running d) = d
client_of (finished d) = d

-- The talk of a test; at its end the connection is over.
unfoldable pub converses : (Client → Bool) → Looping → TelnetLineCodec → Bytes → List Scene → Bool
unfolding received_each happens frames_from run
converses after (finished d) c buf [] = d.writer.closed && after d
converses after (running d) c buf [] = false
converses after (finished d) c buf (scene ∷ scenes) = false
converses after (running d) c buf (scene ∷ scenes) =
    let (c', buf', events) = happens scene.0 c buf in
    let flow = run Creds 3 1 d events in
    let rest = converses after flow c' buf' scenes in
    received_each (frames_from (length d.writer.sent) (client_of flow).writer.sent) scene.1 && rest

abbrev pub test_store : Result Error Store
test_store = do
  s ← open_store memory plain_kdf plain_uuids (codes "test.db") test_fast 0
  r ←
      create_account memory plain_kdf plain_uuids s 0 (record { uuid = 1 }) 100 (codes "alice")
        test_password
  ok r.1

abbrev pub greeted_with :
    (Client → Bool) → TelnetLineCodec → Text → List Scene → Served Creds 3 1 → Bool
greeted_with after c part scenes (looped (running d)) =
    received_each (frames_from 0 d.writer.sent) (part ∷ codes "Username: " ∷ [])
    && converses after (running d) c [] scenes
greeted_with after c part scenes _ = false

abbrev pub on_store : (Store → Bool) → Result Error Store → Bool
on_store f (ok s) = f s
on_store f (err e) = false

abbrev pub talks_over : (Client → Bool) → WorldRegistry → TelnetLineCodec → List Scene → Bool
talks_over after registry c scenes =
    on_store
      (λ s.
        greeted_with after c (codes "Liaozhai MUX") scenes
          (handle_connection Creds 3 1 registry [] 1000000 ctx_limiter s []))
      test_store

abbrev pub talks : List Scene → Bool
talks scenes = talks_over (λ d. true) test_registry new_codec scenes

abbrev pub types_line : Text → List Bytes → Scene
types_line text_ parts = (writes (text_ ++ codes "\r\n"), parts)

abbrev pub types_name : Scene
types_name = types_line (codes "alice") (codes "Password: " ∷ [])

abbrev pub types_password : Scene
types_password = types_line test_password (codes "Select a world" ∷ [])

abbrev pub quits : Scene
quits = types_line (codes "quit") []

abbrev pub quits_politely : Scene
quits_politely = types_line (codes "quit") (codes "Until the next strange tale." ∷ [])

abbrev pub closes_studio : Scene
closes_studio = (shutdown_cancels, codes "The studio closes for now" ∷ [])

unfoldable pub logged_in_before : Result Error (List Account) → Bool
logged_in_before (ok (a ∷ as_)) = is_some a.last_login_at
logged_in_before _ = false

unfoldable pub fail_times : ℕ → AuthRateLimiter → AuthRateLimiter
unfolding record_failure
fail_times zero l = l
fail_times (suc n) l = fail_times n (record_failure l 1000000 1000000 1)

abbrev pub rejected_with : Text → Served Creds 3 1 → Bool
rejected_with part (turned_away w l) = w.closed && received_each (frames_from 0 w.sent) (part ∷ [])
rejected_with part _ = false

abbrev pub toml_entries : List WorldEntryDto
toml_entries =
    record {
      slug = codes "test-a";
      name = codes "Test World Alpha";
      short = codes "The first test world.";
    }
    ∷ record {
      slug = codes "test-b";
      name = codes "Test World Bravo";
      short = codes "The second test world.";
    }
    ∷ []

abbrev pub toml_worlds : Result Error WorldRegistry
toml_worlds =
    load_from_toml (λ i. record { uuid = i }) (λ content. ok toml_entries) (λ path. ok [])
      (codes "worlds.toml")

abbrev pub on_registry : (WorldRegistry → Bool) → Result Error WorldRegistry → Bool
on_registry f (ok r) = f r
on_registry f (err e) = false

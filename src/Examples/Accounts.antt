-- ===== src/Examples/Accounts.antt =====
-- The theorem on an account that is created, and a client that logs in with it and chooses a world, at
-- a concrete input.
use liaozhai.Auth.RateLimiter.{get, is_throttled, reset}
use liaozhai.Common.{
  Bytes, List, Text, [], arith, codes, eq_list, false, inl, none, refl, some, true, ℕ, ◌++◌, ◌<◌,
  ◌∷◌, ◌≡◌, ◌≤◌,
}
use liaozhai.Examples.Connection.{limiter, noon}
use liaozhai.Examples.Memory.{
  memory, memory_laws, plain_kdf, plain_laws, plain_uuid_laws, plain_uuids,
}
use liaozhai.Examples.Store.{
  bob, bob_account, bob_upper, creates_bob, empty_store, id_7, pw, same_bob, store_with_bob,
}
use liaozhai.Net.Codec.{decode, line, new_codec, reply}
use liaozhai.Net.Codec.RoundTrip.{IsReading}
use liaozhai.Net.Codec.Stream.{Framed, begin_, gave, received}
use liaozhai.Net.Codec.Stream.Typed.{IsTyped, typed}
use liaozhai.Net.Connection.{Connection, finished, handle_connection, looped, store_credentials}
use liaozhai.Net.Connection.Accounts.{create_account-IsGone}
use liaozhai.Net.Connection.Login.{Gives}
use liaozhai.Net.Connection.Typed.{stamped}
use liaozhai.Net.Iac.{strip_iac}
use liaozhai.Net.Session.{is_session_terminator}
use liaozhai.Net.Session.Selection.{selected_goodbye}
use liaozhai.Text.Decimal.{to_string}
use liaozhai.Text.Trim.{is_whitespace, to_ascii_lowercase, trim, trim_end, trim_start}
use liaozhai.Text.Utf8.{as_bytes}
use liaozhai.Text.Utf8.RoundTrip.{IsLineChar}
use liaozhai.Worlds.Metadata.{WorldMetadata, new_world}
use liaozhai.Worlds.Registry.{WorldRegistry, get_by_position, new_registry}

bob_upper-Gives : Gives bob_upper bob_upper
unfolding trim trim_start trim_end is_whitespace is_session_terminator to_ascii_lowercase eq_list
    codes
bob_upper-Gives = record { typed = refl; given = refl; no_quit = refl }

pw-Gives : Gives pw pw
unfolding trim trim_start trim_end is_whitespace is_session_terminator to_ascii_lowercase eq_list
    codes
pw-Gives = record { typed = refl; given = refl; no_quit = refl }

lets_in : (is_throttled limiter 50 1).1 ≡ false
unfolding is_throttled get
lets_in = refl

abbrev one : Text
one = b'1' ∷ []

abbrev name_bytes : Bytes
name_bytes = bob_upper ++ b'\r' ∷ b'\n' ∷ []

abbrev choice_bytes : Bytes
choice_bytes = b'1' ∷ b'\r' ∷ b'\n' ∷ []

abbrev password_bytes : Bytes
password_bytes = pw ++ b'\r' ∷ b'\n' ∷ choice_bytes

gives_name :
    decode new_codec (name_bytes ++ password_bytes)
    ≡ some (reply new_codec password_bytes (some (line bob_upper)))
unfolding decode strip_iac
gives_name = refl

gives_password :
    decode new_codec password_bytes ≡ some (reply new_codec choice_bytes (some (line pw)))
unfolding decode strip_iac
gives_password = refl

gives_choice : decode new_codec choice_bytes ≡ some (reply new_codec [] (some (line one)))
unfolding decode strip_iac
gives_choice = refl

waits : decode new_codec [] ≡ some (reply new_codec [] none)
unfolding decode
waits = refl

reading : IsReading new_codec
reading = record { text_mode = refl; no_pending = refl; kept = refl }

abbrev given : List Text
given = bob_upper ∷ pw ∷ one ∷ []

reads_lines : Framed new_codec (typed (bob_upper ∷ pw ∷ to_string 1 ∷ [])) given new_codec []
unfolding as_bytes to_string
reads_lines =
    gave _ (bob_upper ∷ pw ∷ []) new_codec choice_bytes new_codec [] one
      (gave _ (bob_upper ∷ []) new_codec password_bytes new_codec choice_bytes pw
        (gave _ [] new_codec (name_bytes ++ password_bytes) new_codec password_bytes bob_upper
          (received [] [] new_codec [] (name_bytes ++ password_bytes) begin_) gives_name)
        gives_password)
      gives_choice

ascii-IsLineChar : (c : ℕ) → 32 ≤ c → c < 127 → IsLineChar c
ascii-IsLineChar c lo hi = ((omega arith, inl (omega arith)), (omega arith, omega arith))

bob_upper-IsTyped : IsTyped bob_upper
bob_upper-IsTyped = (
  (
    ascii-IsLineChar b'B' (omega arith) (omega arith),
    (
      ascii-IsLineChar b'O' (omega arith) (omega arith),
      (ascii-IsLineChar b'B' (omega arith) (omega arith), tt),
    ),
  ),
  refl,
)

pw-IsTyped : IsTyped pw
pw-IsTyped = (
  (
    ascii-IsLineChar b'p' (omega arith) (omega arith),
    (ascii-IsLineChar b'w' (omega arith) (omega arith), tt),
  ),
  refl,
)

abbrev bog : WorldMetadata
bog = new_world (record { uuid = 1 }) (b'b' ∷ []) (b'B' ∷ []) (b's' ∷ [])

abbrev one_world : WorldRegistry
one_world = new_registry (bog ∷ [])

finds_bog : get_by_position one_world 1 ≡ some bog
unfolding get_by_position
finds_bog = refl

create_account-IsGone_example :
    (d : Connection (store_credentials memory plain_kdf plain_uuids) 3 1) × (handle_connection
        (store_credentials memory plain_kdf plain_uuids)
        3
        1
        one_world
        []
        50
        limiter
        store_with_bob
        (stamped (λ i. noon) 0 given)
      ≡ looped (finished d))
    × (d.writer.closed ≡ true)
    × ((before : List Bytes) × (d.writer.sent ≡ before ++ as_bytes (selected_goodbye bog) ∷ []))
    × (d.auth_failures ≡ 0)
    × (d.limiter ≡ reset (is_throttled limiter 50 1).0 1)
create_account-IsGone_example =
    create_account-IsGone memory memory_laws plain_kdf plain_laws plain_uuids plain_uuid_laws
      empty_store 0 id_7 100 bob pw bob_account store_with_bob 3 1 one_world limiter 50 (λ i. noon)
      new_codec bob_upper pw bob_upper 1 bog given new_codec [] new_codec [] creates_bob same_bob
      bob_upper-Gives pw-Gives bob_upper-IsTyped pw-IsTyped (omega arith) finds_bog lets_in reading
      reads_lines waits

-- ===== src/Net/Codec.antt =====
-- crates/liaozhai-net/src/codec.rs: the buffer is the list of its bytes, and each operation returns
-- the codec and the buffer that it leaves. `none` is a panic, or fuel that ran out.
pub mod Telnet
pub mod Strip
pub mod Loop
pub mod Rounds
pub mod Stripped
pub mod Documented
pub mod Bounds
pub mod Outcome
pub mod Decoded
pub mod RoundTrip
pub mod InBounds
pub mod Stream
pub mod Chunks
pub mod Flush
pub mod Eof
pub mod Faults
use mathlib.Core.Option
use liaozhai.Core.Constants
use liaozhai.Common.{
  Bool, Bytes, Option, Text, [], codes, drop, false, get_elem?, if◌then◌else◌, is_empty, leb,
  length, ltb, none, not, some, suc, take, true, zero, ℕ, ◌++◌, ◌+◌, ◌-◌, ◌==◌, ◌||◌, ◌∷◌,
}
use liaozhai.Core.Error.{Error, Result, err, ok}
use liaozhai.Net.Iac.{TelnetLineCodec, iac, is_negotiation, strip_iac}
use liaozhai.Text.Decimal.{to_string}
use liaozhai.Text.Utf8.{from_utf8_lossy}

pub data TelnetCodecError : Type 0 where
  io : Text → TelnetCodecError
  buffer_overflow : (max : ℕ) → TelnetCodecError

-- `From<TelnetCodecError> for Error`; the message is what `to_string` gives.
unfoldable pub from_codec_error : TelnetCodecError → Error
from_codec_error (io e) = Error.io e
from_codec_error (buffer_overflow max) =
    Error.codec (codes "buffer overflow (max " ++ (to_string max ++ codes " bytes)"))

pub data CodecItem : Type 0 where
  line : Text → CodecItem
  line_too_long : CodecItem

abbrev pub with_limits : ℕ → ℕ → TelnetLineCodec
with_limits max_line_length max_buffer_size = record {
  max_line_length = max_line_length;
  max_buffer_size = max_buffer_size;
  discarding = false;
  in_subnegotiation = false;
  subneg_iac_pending = false;
}

abbrev pub new_codec : TelnetLineCodec
new_codec = with_limits Constants.max_line_length Constants.max_buffer_size

abbrev pub is_terminator : ℕ → Bool
is_terminator b = b == b'\n' || b == b'\r'

-- `position` of the first `\n` or `\r`
unfoldable pub find_line_terminator : Bytes → Option ℕ
find_line_terminator [] = none
find_line_terminator (b ∷ bs) =
    if is_terminator b then some 0 else Option.map suc (find_line_terminator bs)

-- `a && b` on tests that may panic.
unfoldable pub and_test : Option Bool → Option Bool → Option Bool
and_test none b = none
and_test (some false) b = some false
and_test (some true) b = b

-- `buf[i] == b`; out of bounds is a panic.
abbrev pub byte_is : Bytes → ℕ → ℕ → Option Bool
byte_is buf i b = Option.map (λ x. x == b) (get_elem? buf i)

-- `&buf[..n]`
unfoldable pub slice_to : ℕ → Bytes → Option Bytes
slice_to n buf = if leb n (length buf) then some (take n buf) else none

-- What `buf.split_to(n)` leaves in the buffer.
unfoldable pub split_to : ℕ → Bytes → Option Bytes
split_to n buf = if leb n (length buf) then some (drop n buf) else none

unfoldable pub consume_terminator : Bytes → ℕ → Option ℕ
unfolding and_test
consume_terminator buf pos =
    Option.map (λ crlf. if crlf then pos + 2 else pos + 1)
      (and_test (byte_is buf pos b'\r')
        (and_test (some (ltb (pos + 1) (length buf))) (byte_is buf (pos + 1) b'\n')))

-- What a call of `decode` leaves: the codec, the buffer and the result.
pub record Reply : Type 0 where
  pub codec : TelnetLineCodec
  pub buf : Bytes
  pub result : Result TelnetCodecError (Option CodecItem)

abbrev pub reply : TelnetLineCodec → Bytes → Option CodecItem → Reply
reply c buf item = record { codec = c; buf = buf; result = ok item }

-- `decode` behind `strip_iac`; `again` is the recursive call.
unfoldable pub after_strip :
    (TelnetLineCodec → Bytes → Option Reply) → TelnetLineCodec → Bytes → Option Reply
unfolding find_line_terminator consume_terminator slice_to split_to from_utf8_lossy Option.bind
after_strip again c buf = elim (find_line_terminator buf) [
  | some pos ↦
      if c.discarding
      then Option.bind (consume_terminator buf pos) (λ consume_len.
        Option.bind (split_to consume_len buf)
          (λ rest. again (record c { discarding = false }) rest))
      else Option.bind (slice_to pos buf) (λ line_bytes.
        Option.bind (consume_terminator buf pos) (λ consume_len.
          Option.bind (split_to consume_len buf)
            (λ rest. some (reply c rest (some (line (from_utf8_lossy line_bytes)))))))
  | none ↦
      if c.discarding
      then some (reply c [] none)
      else if ltb c.max_line_length (length buf)
      then some (reply (record c { discarding = true }) [] (some line_too_long))
      else some (reply c buf none)
]

unfoldable pub decode_fuel : ℕ → TelnetLineCodec → Bytes → Option Reply
unfolding strip_iac after_strip
decode_fuel zero c buf = none
decode_fuel (suc fuel) c buf =
    if ltb c.max_buffer_size (length buf)
    then some (record { codec = c; buf = buf; result = err (buffer_overflow c.max_buffer_size) })
    else elim (strip_iac c buf) [
      | none ↦ none
      | some (c', buf') ↦ after_strip (decode_fuel fuel) c' buf'
    ]

-- The recursive call finds the codec not discarding, so that it is the last one.
unfoldable pub decode : TelnetLineCodec → Bytes → Option Reply
unfolding decode_fuel
decode = decode_fuel 2

-- `a - b` on `usize`; below 0 is a panic.
unfoldable pub checked_sub : ℕ → ℕ → Option ℕ
checked_sub a b = if leb b a then some (a - b) else none

-- A test of `buf[end - k]`, where `end` is `buf.len()`.
unfoldable pub test_back : Bytes → ℕ → (ℕ → Bool) → Option Bool
unfolding checked_sub Option.bind
test_back buf k test =
    Option.bind (checked_sub (length buf) k) (λ i. Option.map test (get_elem? buf i))

-- `end >= 2 && buf[end - 2] == IAC && matches!(buf[end - 1], WILL | WONT | DO | DONT)`
unfoldable pub ends_in_verb : Bytes → Option Bool
unfolding and_test test_back
ends_in_verb buf =
    and_test (some (leb 2 (length buf)))
      (and_test (test_back buf 2 (λ b. b == iac)) (test_back buf 1 is_negotiation))

-- `end >= 1 && buf[end - 1] == IAC`
unfoldable pub ends_in_iac : Bytes → Option Bool
unfolding and_test test_back
ends_in_iac buf = and_test (some (leb 1 (length buf))) (test_back buf 1 (λ b. b == iac))

-- The end of the final line: an IAC sequence that was cut off is not part of it.
unfoldable pub line_end : Bytes → Option ℕ
unfolding ends_in_verb ends_in_iac checked_sub Option.bind
line_end buf = Option.bind (ends_in_verb buf) (λ verb.
    if verb
    then checked_sub (length buf) 2
    else Option.bind (ends_in_iac buf)
        (λ lone. if lone then checked_sub (length buf) 1 else some (length buf)))

-- The final line, up to `end`.
unfoldable pub last_line : TelnetLineCodec → Bytes → ℕ → Option Reply
unfolding slice_to from_utf8_lossy
last_line c buf end =
    if end == 0
    then some (reply c [] none)
    else Option.map (λ line_bytes. reply c [] (some (line (from_utf8_lossy line_bytes))))
        (slice_to end buf)

-- `decode_eof` where `decode` found no item.
unfoldable pub flush : TelnetLineCodec → Bytes → Option Reply
unfolding and_test line_end last_line Option.bind
flush c buf =
    if is_empty buf || c.discarding
    then some (reply (record c { discarding = false }) [] none)
    else Option.bind
        (if c.in_subnegotiation
          then some true
          else and_test (some (not (is_empty buf))) (byte_is buf 0 iac))
        (λ cut.
          if cut
          then some
              (reply (record c { in_subnegotiation = false; subneg_iac_pending = false }) [] none)
          else Option.bind (line_end buf) (last_line c buf))

-- `match self.decode(buf)?`
abbrev pub flush_if_none : Reply → Result TelnetCodecError (Option CodecItem) → Option Reply
flush_if_none r (err e) = some r
flush_if_none r (ok (some item)) = some r
flush_if_none r (ok none) = flush r.codec r.buf

unfoldable pub decode_eof : TelnetLineCodec → Bytes → Option Reply
unfolding decode flush Option.bind
decode_eof c buf = Option.bind (decode c buf) (λ r. flush_if_none r r.result)

-- ===== src/Tests/Codec.antt =====
-- The tests of crates/liaozhai-net/src/codec.rs. A test is a list of the calls that it makes, with what
-- it asserts of each.
use liaozhai.Common.{
  Bool, Bytes, List, Option, Text, [], codes, eq_list, false, is_empty, none, refl, replicate, some,
  true, ℕ, ◌&&◌, ◌++◌, ◌==◌, ◌∷◌, ◌≡◌,
}
use liaozhai.Core.Error.{Result, err, ok}
use liaozhai.Net.Codec.{
  CodecItem, TelnetCodecError, buffer_overflow, decode, decode_eof, line, line_too_long, new_codec,
  with_limits,
}
use liaozhai.Net.Iac.{TelnetLineCodec}
use liaozhai.Tests.{contains_text, every}

-- What a test asserts of the result of a call.
data Asserted : Type 0 where
  a_line_of : Text → Asserted
  too_long_line nothing anything : Asserted
  overflow : ℕ → Asserted
  line_with : List Text → Asserted

data Call : Type 0 where
  extend_from_slice : Bytes → Call
  decodes : Asserted → Call
  decodes_eof : Asserted → Call
  buffer_is_empty : Call

contains_each : Text → List Text → Bool
unfolding contains_text
contains_each s [] = true
contains_each s (part ∷ parts) = contains_text s part && contains_each s parts

meets : Asserted → Result TelnetCodecError (Option CodecItem) → Bool
unfolding contains_each eq_list
meets (a_line_of t) (ok (some (line s))) = eq_list s t
meets (line_with parts) (ok (some (line s))) = contains_each s parts
meets too_long_line (ok (some line_too_long)) = true
meets nothing (ok none) = true
meets (overflow n) (err (buffer_overflow max)) = n == max
meets anything r = true
meets _ _ = false

-- The calls of a test, one after the other; a panic fails it.
passes : TelnetLineCodec → Bytes → List Call → Bool
unfolding meets decode decode_eof
passes c buf [] = true
passes c buf (extend_from_slice bytes ∷ calls) = passes c (buf ++ bytes) calls
passes c buf (buffer_is_empty ∷ calls) = is_empty buf && passes c buf calls
passes c buf (decodes a ∷ calls) = elim (decode c buf) [
  | none ↦ false
  | some r ↦ meets a r.result && passes r.codec r.buf calls
]
passes c buf (decodes_eof a ∷ calls) = elim (decode_eof c buf) [
  | none ↦ false
  | some r ↦ meets a r.result && passes r.codec r.buf calls
]

-- `decode_line` on a new codec gives the text.
abbrev decode_line_is : Bytes → Text → Bool
decode_line_is data_ text_ = passes new_codec data_ (decodes (a_line_of text_) ∷ [])

abbrev hello : Text
hello = codes "hello"

abbrev line_ending_crlf : Bool
line_ending_crlf = decode_line_is (codes "hello\r\n") hello

abbrev line_ending_lf : Bool
line_ending_lf = decode_line_is (codes "hello\n") hello

abbrev line_ending_lone_cr : Bool
line_ending_lone_cr = decode_line_is (codes "hello\r") hello

abbrev empty_line_crlf : Bool
empty_line_crlf = decode_line_is (codes "\r\n") []

abbrev empty_line_lf : Bool
empty_line_lf = decode_line_is (codes "\n") []

abbrev multiple_lines_in_one_buffer : Bool
multiple_lines_in_one_buffer =
    passes new_codec (codes "one\r\ntwo\r\n")
      (decodes (a_line_of (codes "one")) ∷ decodes (a_line_of (codes "two")) ∷ [])

abbrev partial_line_waits : Bool
partial_line_waits = passes new_codec (codes "hel") (
    decodes nothing ∷ extend_from_slice (codes "lo\r\n") ∷ decodes (a_line_of (codes "hello")) ∷ [])

abbrev iac_iac_emits_literal_0xff : Bool
iac_iac_emits_literal_0xff =
    passes new_codec (0xFF ∷ 0xFF ∷ 0x0A ∷ []) (decodes (line_with ((0xFFFD ∷ []) ∷ [])) ∷ [])

abbrev iac_will_discarded : Bool
iac_will_discarded = decode_line_is (0xFF ∷ 0xFB ∷ 0x01 ∷ (codes "hello\r\n")) hello

abbrev iac_wont_discarded : Bool
iac_wont_discarded = decode_line_is (0xFF ∷ 0xFC ∷ 0x01 ∷ (codes "hello\r\n")) hello

abbrev iac_do_discarded : Bool
iac_do_discarded = decode_line_is (0xFF ∷ 0xFD ∷ 0x01 ∷ (codes "hello\r\n")) hello

abbrev iac_dont_discarded : Bool
iac_dont_discarded = decode_line_is (0xFF ∷ 0xFE ∷ 0x01 ∷ (codes "hello\r\n")) hello

abbrev iac_two_byte_command_discarded : Bool
iac_two_byte_command_discarded = decode_line_is (0xFF ∷ 0xF4 ∷ (codes "hello\r\n")) hello

abbrev iac_subnegotiation_discarded : Bool
iac_subnegotiation_discarded =
    decode_line_is
      (0xFF ∷ 0xFA ∷ 0x1F ∷ 0x00 ∷ 0x50 ∷ 0x00 ∷ 0x28 ∷ 0xFF ∷ 0xF0 ∷ (codes "hello\r\n")) hello

abbrev iac_subnegotiation_across_calls : Bool
iac_subnegotiation_across_calls = passes new_codec (0xFF ∷ 0xFA ∷ 0x1F ∷ 0x00 ∷ []) (
    decodes nothing
    ∷ extend_from_slice (0x50 ∷ 0x00 ∷ 0x28 ∷ 0xFF ∷ 0xF0 ∷ (codes "hello\r\n"))
    ∷ decodes (a_line_of (codes "hello"))
    ∷ [])

abbrev iac_at_end_of_buffer_waits : Bool
iac_at_end_of_buffer_waits = passes new_codec (codes "hello" ++ (0xFF ∷ [])) (
    decodes nothing
    ∷ extend_from_slice (0xFB ∷ 0x01 ∷ (codes "\r\n"))
    ∷ decodes (a_line_of (codes "hello"))
    ∷ [])

abbrev iac_incomplete_3byte_at_end : Bool
iac_incomplete_3byte_at_end = passes new_codec (0xFF ∷ 0xFB ∷ []) (
    decodes nothing
    ∷ extend_from_slice (0x01 ∷ (codes "hello\r\n"))
    ∷ decodes (a_line_of (codes "hello"))
    ∷ [])

abbrev iac_iac_inside_subnegotiation : Bool
iac_iac_inside_subnegotiation =
    decode_line_is (0xFF ∷ 0xFA ∷ 0x00 ∷ 0xFF ∷ 0xFF ∷ 0xFF ∷ 0xF0 ∷ (codes "hi\r\n")) (codes "hi")

abbrev multiple_iac_sequences_in_one_line : Bool
multiple_iac_sequences_in_one_line =
    decode_line_is (0xFF ∷ 0xFB ∷ 0x01 ∷ (codes "hel" ++ (0xFF ∷ 0xFD ∷ 0x03 ∷ (codes "lo\r\n"))))
      hello

abbrev line_too_long_triggers_discard_then_recovery : Bool
line_too_long_triggers_discard_then_recovery = passes (with_limits 10 1024) (replicate 16 b'a') (
    decodes too_long_line
    ∷ buffer_is_empty
    ∷ extend_from_slice (codes "more_garbage\r\n")
    ∷ decodes nothing
    ∷ extend_from_slice (codes "ok\r\n")
    ∷ decodes (a_line_of (codes "ok"))
    ∷ [])

abbrev buffer_overflow_disconnects : Bool
buffer_overflow_disconnects =
    passes (with_limits 4096 100) (replicate 101 b'x') (decodes (overflow 100) ∷ [])

abbrev valid_utf8_passes_through : Bool
valid_utf8_passes_through = decode_line_is (codes "hello world\r\n") (codes "hello world")

abbrev invalid_utf8_replaced : Bool
invalid_utf8_replaced =
    passes new_codec (0x80 ∷ 0x81 ∷ (codes "hello\r\n"))
      (decodes (line_with ((0xFFFD ∷ []) ∷ hello ∷ [])) ∷ [])

abbrev empty_buffer_returns_none : Bool
empty_buffer_returns_none = passes new_codec [] (decodes nothing ∷ [])

abbrev decode_eof_with_trailing_data : Bool
decode_eof_with_trailing_data = passes new_codec hello (decodes_eof (a_line_of hello) ∷ [])

abbrev decode_eof_with_empty_buffer : Bool
decode_eof_with_empty_buffer = passes new_codec [] (decodes_eof nothing ∷ [])

abbrev decode_eof_while_discarding : Bool
decode_eof_while_discarding =
    passes (with_limits 10 1024) (replicate 16 b'a')
      (decodes anything ∷ extend_from_slice (codes "trailing") ∷ decodes_eof nothing ∷ [])

abbrev decode_eof_with_incomplete_iac : Bool
decode_eof_with_incomplete_iac = passes new_codec (0xFF ∷ []) (decodes_eof nothing ∷ [])

abbrev decode_eof_strips_trailing_lone_iac : Bool
decode_eof_strips_trailing_lone_iac =
    passes new_codec (hello ++ 0xFF ∷ []) (decodes_eof (a_line_of hello) ∷ [])

abbrev decode_eof_strips_trailing_iac_will : Bool
decode_eof_strips_trailing_iac_will =
    passes new_codec (hello ++ 0xFF ∷ 0xFB ∷ []) (decodes_eof (a_line_of hello) ∷ [])

abbrev byte_at_a_time_feeding : Bool
byte_at_a_time_feeding = passes new_codec [] (
    extend_from_slice (b'h' ∷ [])
    ∷ decodes nothing
    ∷ extend_from_slice (b'e' ∷ [])
    ∷ decodes nothing
    ∷ extend_from_slice (b'l' ∷ [])
    ∷ decodes nothing
    ∷ extend_from_slice (b'l' ∷ [])
    ∷ decodes nothing
    ∷ extend_from_slice (b'o' ∷ [])
    ∷ decodes nothing
    ∷ extend_from_slice (0x0A ∷ [])
    ∷ decodes (a_line_of (codes "hello"))
    ∷ [])

line_ending_tests :
    every (
      line_ending_crlf ∷ line_ending_lf ∷ line_ending_lone_cr ∷ empty_line_crlf ∷ empty_line_lf
      ∷ multiple_lines_in_one_buffer ∷ partial_line_waits ∷ [])
    ≡ true
unfolding every codes passes decode decode_eof
line_ending_tests = refl

iac_tests :
    every (
      iac_iac_emits_literal_0xff ∷ iac_will_discarded ∷ iac_wont_discarded ∷ iac_do_discarded
      ∷ iac_dont_discarded ∷ iac_two_byte_command_discarded ∷ iac_subnegotiation_discarded
      ∷ iac_subnegotiation_across_calls ∷ iac_at_end_of_buffer_waits ∷ iac_incomplete_3byte_at_end
      ∷ iac_iac_inside_subnegotiation ∷ multiple_iac_sequences_in_one_line ∷ [])
    ≡ true
unfolding every codes passes decode decode_eof
iac_tests = refl

limit_tests :
    every (
      line_too_long_triggers_discard_then_recovery ∷ buffer_overflow_disconnects
      ∷ valid_utf8_passes_through ∷ invalid_utf8_replaced ∷ empty_buffer_returns_none ∷ [])
    ≡ true
unfolding every codes passes decode decode_eof
limit_tests = refl

eof_tests :
    every (
      decode_eof_with_trailing_data ∷ decode_eof_with_empty_buffer ∷ decode_eof_while_discarding
      ∷ decode_eof_with_incomplete_iac ∷ decode_eof_strips_trailing_lone_iac
      ∷ decode_eof_strips_trailing_iac_will ∷ byte_at_a_time_feeding ∷ [])
    ≡ true
unfolding every codes passes decode decode_eof
eof_tests = refl

-- ===== src/Examples/Codec.antt =====
-- The theorems on codec.rs and on the texts at concrete inputs.
use liaozhai.Common.{All, Bytes, Text, [], arith, inl, none, refl, some, true, ◌++◌, ◌∷◌, ◌≡◌}
use liaozhai.Net.Codec.{Reply, decode, decode_eof, line, new_codec, reply}
use liaozhai.Net.Codec.Decoded.{decode-Good}
use liaozhai.Net.Codec.Documented.{
  NoDoubled, documented, documented_byte, doubled_iac_ends_subnegotiation, is_doubled,
  strip_iac-documented,
}
use liaozhai.Net.Codec.Eof.{Flushed, decode_eof-Flushed}
use liaozhai.Net.Codec.Faults.{Kept, escaped_iac_dropped, subnegotiation_drops_text}
use liaozhai.Net.Codec.Outcome.{Good}
use liaozhai.Net.Codec.RoundTrip.{IsReading}
use liaozhai.Net.Codec.Stripped.{codec_mode, with_mode}
use liaozhai.Net.Codec.Telnet.{NoIac, leftover, sub, text}
use liaozhai.Net.Iac.{TelnetLineCodec, iac, sb, se, strip_iac}
use liaozhai.Text.Utf8.{from_utf8_lossy}
use liaozhai.Text.Utf8.RoundTrip.{IsLineChar}

abbrev hi : Text
hi = b'h' ∷ b'i' ∷ []

hi-IsLineChar : All IsLineChar hi
hi-IsLineChar = (
  ((omega arith, inl (omega arith)), (omega arith, omega arith)),
  (((omega arith, inl (omega arith)), (omega arith, omega arith)), tt),
)

hi-NoIac : NoIac hi
hi-NoIac = (omega arith, (omega arith, tt))

reading : IsReading new_codec
reading = record { text_mode = refl; no_pending = refl; kept = refl }

hi-Kept : Kept new_codec hi
hi-Kept = record {
  reading = reading;
  clean = hi-NoIac;
  unbroken = (refl, (refl, tt));
  small = omega arith;
  short = omega arith;
}

-- "hi", a negotiation, the end of the line and the begin of a second one
abbrev sent_bytes : Bytes
sent_bytes = b'h' ∷ b'i' ∷ 255 ∷ 253 ∷ 1 ∷ 13 ∷ 10 ∷ b'x' ∷ []

decode-Good_example :
    (r : Reply) × (decode new_codec sent_bytes ≡ some r) × Good new_codec sent_bytes r
decode-Good_example = decode-Good new_codec sent_bytes (λ e. refl)

-- "h", a subnegotiation, an escaped IAC and the begin of a command
abbrev framed_bytes : Bytes
framed_bytes = b'h' ∷ iac ∷ sb ∷ 31 ∷ iac ∷ se ∷ iac ∷ iac ∷ iac ∷ []

framed_bytes-NoDoubled : NoDoubled (codec_mode new_codec) framed_bytes
unfolding is_doubled documented_byte
framed_bytes-NoDoubled = (refl, (refl, (refl, (refl, (refl, (refl, (refl, (refl, (refl, tt)))))))))

strip_iac-documented_example :
    let (out, m) = documented (codec_mode new_codec) framed_bytes in
    strip_iac new_codec framed_bytes ≡ some (with_mode new_codec m, out ++ leftover m)
strip_iac-documented_example =
    strip_iac-documented new_codec framed_bytes (λ e. refl) framed_bytes-NoDoubled

abbrev inside : TelnetLineCodec
inside = record new_codec { in_subnegotiation = true }

doubled_iac_ends_subnegotiation_example :
    (strip_iac inside (iac ∷ iac ∷ se ∷ hi) ≡ some (with_mode inside text, hi))
    × (documented (codec_mode inside) (iac ∷ iac ∷ se ∷ hi) ≡ ([], sub))
doubled_iac_ends_subnegotiation_example =
    doubled_iac_ends_subnegotiation inside hi refl refl hi-NoIac

decode_eof-Flushed_example :
    (r : Reply) × (decode_eof new_codec hi ≡ some r) × Flushed new_codec hi r
decode_eof-Flushed_example = decode_eof-Flushed new_codec hi (λ e. refl)

subnegotiation_drops_text_example :
    (decode new_codec (hi ++ iac ∷ sb ∷ []) ≡ some (reply (with_mode new_codec sub) hi none))
    × (decode (with_mode new_codec sub) (hi ++ iac ∷ se ∷ b'\n' ∷ [])
        ≡ some (reply (with_mode new_codec text) [] (some (line []))))
    × (decode new_codec (hi ++ iac ∷ sb ∷ iac ∷ se ∷ b'\n' ∷ [])
        ≡ some (reply (with_mode new_codec text) [] (some (line (from_utf8_lossy hi)))))
subnegotiation_drops_text_example = subnegotiation_drops_text new_codec hi hi-Kept

escaped_iac_dropped_example :
    (decode new_codec (hi ++ iac ∷ iac ∷ b'x' ∷ [])
      ≡ some (reply (with_mode new_codec text) (hi ++ iac ∷ b'x' ∷ []) none))
    × (decode (with_mode new_codec text) (hi ++ iac ∷ b'x' ∷ b'\n' ∷ [])
        ≡ some (reply (with_mode new_codec text) [] (some (line (from_utf8_lossy hi)))))
    × (decode new_codec (hi ++ iac ∷ iac ∷ b'x' ∷ b'\n' ∷ [])
        ≡ some (
            reply
              (with_mode new_codec text)
              []
              (some (line (from_utf8_lossy (hi ++ iac ∷ b'x' ∷ []))))))
escaped_iac_dropped_example =
    escaped_iac_dropped new_codec hi b'x' hi-Kept (omega arith) (omega arith) refl refl

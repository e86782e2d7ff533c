-- ===== src/Net/Codec/Stream/Delivered.antt =====
-- The lines of a whole stream.
use mathlib.Core.List.{map, map-append}
use liaozhai.Common.{
  All-append, Bytes, List, Text, [], ap, append-nil, none, refl, some, sym, ◌++◌, ◌∙◌, ◌∷◌, ◌≡◌,
}
use liaozhai.Net.Codec.{decode, line, reply}
use liaozhai.Net.Codec.RoundTrip.{IsReading}
use liaozhai.Net.Codec.Stream.{
  Framed, begin_, close, gave, kept_runs, received, runs_of, scan, waited,
}
use liaozhai.Net.Codec.Stream.Runs.{scan-NoTerminator, scan-append}
use liaozhai.Net.Codec.Stream.Steps.{Decoded-line, Decoded-none, NoIac-append, decode-Decoded}
use liaozhai.Net.Codec.Telnet.{NoIac}
use liaozhai.Net.Iac.{TelnetLineCodec}
use liaozhai.Text.Utf8.{from_utf8_lossy}

-- What is left of a stream when some of its lines are given.
record Delivered (c : TelnetLineCodec) (stream : Bytes) (out : List Text) (c' : TelnetLineCodec)
    (buf : Bytes) : Type 0 where
  raw : List Bytes
  texts : out ≡ map from_utf8_lossy raw
  same : c' ≡ c
  clean : NoIac buf
  ahead : scan (kept_runs [] raw) [] buf ≡ runs_of stream

kept_runs-append :
    (ended rs : List Bytes) (r : Bytes)
    → kept_runs ended (rs ++ r ∷ []) ≡ close (kept_runs ended rs) r
kept_runs-append ended [] r = refl
kept_runs-append ended (x ∷ rs) r = kept_runs-append (close ended x) rs r

Framed-Delivered :
    (c : TelnetLineCodec) (stream : Bytes) (out : List Text) (c' : TelnetLineCodec) (buf : Bytes)
    → IsReading c
    → Framed c stream out c' buf
    → NoIac stream
    → Delivered c stream out c' buf
Framed-Delivered c _ _ _ _ r begin_ n = record {
  raw = [];
  texts = refl;
  same = refl;
  clean = tt;
  ahead = refl;
}
Framed-Delivered c _ out c' _ r (received stream _ _ buf bytes f) n =
    let (n', m) = NoIac-append stream bytes n in
    let d = Framed-Delivered c stream out c' buf r f n' in
    record {
      raw = d.raw;
      texts = d.texts;
      same = d.same;
      clean = All-append _ buf bytes d.clean m;
      ahead =
          scan-append (kept_runs [] d.raw) [] buf bytes
          ∙ ap (λ x. scan x.0 x.1 bytes) d.ahead
          ∙ sym (scan-append [] [] stream bytes);
    }
Framed-Delivered c stream _ c'' buf' r (gave _ out c' buf _ _ t f h) n =
    let d = Framed-Delivered c stream out c' buf r f n in
    let h' : decode c buf ≡ some (reply c'' buf' (some (line t))) = rw d.same at h in
    let (xs, typed, same, clean, step) =
      Decoded-line c buf c'' buf' _ t (decode-Decoded c buf c'' buf' _ r d.clean h') refl in
    record {
      raw = d.raw ++ xs ∷ [];
      texts =
          ap (λ x. x ++ t ∷ []) d.texts
          ∙ ap (λ x. map from_utf8_lossy d.raw ++ x ∷ []) typed
          ∙ sym (map-append from_utf8_lossy d.raw (xs ∷ []));
      same = same;
      clean = clean;
      ahead =
          ap (λ x. scan x [] buf') (kept_runs-append [] d.raw xs)
          ∙ sym (step (kept_runs [] d.raw))
          ∙ d.ahead;
    }
Framed-Delivered c stream out c'' buf' r (waited _ _ c' buf _ _ f h) n =
    let d = Framed-Delivered c stream out c' buf r f n in
    let h' : decode c buf ≡ some (reply c'' buf' none) = rw d.same at h in
    let (same, left, plain) =
      Decoded-none c buf c'' buf' _ (decode-Decoded c buf c'' buf' _ r d.clean h') refl in
    record {
      raw = d.raw;
      texts = d.texts;
      same = same;
      clean = rw left d.clean;
      ahead = ap (scan (kept_runs [] d.raw) []) left ∙ d.ahead;
    }

-- However a stream with no IAC is cut into the pieces that arrive, and whenever `decode` is called in
-- between, from a codec at the begin of a line: when `decode` waits for more, the lines that it has
-- given are, up to empty ones, the runs of bytes between the terminators of the stream, in their
-- order and decoded, and the buffer holds the run that is not ended. No line was too long on the way.
pub Framed-runs_of :
    (c : TelnetLineCodec) (stream : Bytes) (out : List Text) (c' : TelnetLineCodec) (buf : Bytes)
    (c'' : TelnetLineCodec) (buf' : Bytes)
    → IsReading c
    → NoIac stream
    → Framed c stream out c' buf
    → decode c' buf ≡ some (reply c'' buf' none)
    → (raw : List Bytes) × (out ≡ map from_utf8_lossy raw)
      × (runs_of stream ≡ (kept_runs [] raw, buf))
unfolding scan
Framed-runs_of c stream out c' buf c'' buf' r n f h =
    let d = Framed-Delivered c stream out c' buf r f n in
    let h' : decode c buf ≡ some (reply c'' buf' none) = rw d.same at h in
    let (_, _, plain) =
      Decoded-none c buf c'' buf' _ (decode-Decoded c buf c'' buf' _ r d.clean h') refl in
    (
      d.raw,
      d.texts,
      sym d.ahead
          ∙ ap (scan (kept_runs [] d.raw) []) (sym (append-nil buf))
          ∙ scan-NoTerminator (kept_runs [] d.raw) [] buf [] plain,
    )

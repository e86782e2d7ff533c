-- ===== src/Net/Codec/Eof.antt =====
-- `decode_eof`: calling it until it finds nothing comes to an end, and leaves nothing behind.
use mathlib.Core.Option
use liaozhai.Common.{Bytes, Option, [], ap, arith, length, none, refl, some, ◌<◌, ◌≡◌}
use liaozhai.Core.Error.{Result, err, ok}
use liaozhai.Net.Codec.{
  CodecItem, Reply, TelnetCodecError, decode_eof, flush_if_none, line, line_too_long,
}
use liaozhai.Net.Codec.Decoded.{decode-Good}
use liaozhai.Net.Codec.Flush.{flush-Flushes}
use liaozhai.Net.Codec.Outcome.{Good}
use liaozhai.Net.Codec.Stripped.{IsCoherent}
use liaozhai.Net.Iac.{TelnetLineCodec}

pub record Flushed (c : TelnetLineCodec) (buf : Bytes) (r : Reply) : Type 0 where
  pub coherent : IsCoherent r.codec
  pub emptied : r.result ≡ ok none → r.buf ≡ []
  pub takes : (item : CodecItem) → r.result ≡ ok (some item) → length r.buf < length buf
  pub fails : (e : TelnetCodecError) → r.result ≡ err e → c.max_buffer_size < length buf

module _ (c : TelnetLineCodec) (buf : Bytes) (r : Reply) (g : Good c buf r) where
  Good-takes : (item : CodecItem) → r.result ≡ ok (some item) → length r.buf < length buf
  Good-takes (line t) p = (g.a_line t p).1
  Good-takes line_too_long p = (g.too_long p).2

-- The reply of `decode` stands, or the rest is flushed.
flush_if_none-Flushed :
    (c : TelnetLineCodec) (buf : Bytes) (r : Reply) (o : Result TelnetCodecError (Option CodecItem))
    → r.result ≡ o
    → Good c buf r
    → (q : Reply) × (flush_if_none r o ≡ some q) × Flushed c buf q
flush_if_none-Flushed c buf r (err e) p g = (
  r,
  refl,
  record {
    coherent = g.coherent;
    emptied = λ q. cc;
    takes = λ i q. Good-takes c buf r g i q;
    fails = λ e' q. (g.overflows e' q).1;
  },
)
flush_if_none-Flushed c buf r (ok (some item)) p g = (
  r,
  refl,
  record {
    coherent = g.coherent;
    emptied = λ q. cc;
    takes = λ i q. Good-takes c buf r g i q;
    fails = λ e' q. (g.overflows e' q).1;
  },
)
flush_if_none-Flushed c buf r (ok none) p g =
    let (q, e, f) = flush-Flushes r.codec r.buf in
    (
      q,
      e,
      record {
        coherent = f.coherent g.coherent;
        emptied = λ _. f.emptied;
        takes = λ i same. omega (arith, f.takes i same, g.shrinks, ap length f.emptied);
        fails = λ e' same. absurd (f.no_error e' same);
      },
    )

-- At the end of the input `decode_eof` returns on every buffer, for a codec that awaits the end of
-- a subnegotiation only inside one. Each item that it returns takes bytes from the buffer, so that
-- calling it again comes to an end; when it finds nothing more, the buffer is empty; and it fails
-- only on a buffer above the limit.
pub decode_eof-Flushed :
    (c : TelnetLineCodec) (buf : Bytes)
    → IsCoherent c
    → (r : Reply) × (decode_eof c buf ≡ some r) × Flushed c buf r
unfolding decode_eof Option.bind
decode_eof-Flushed c buf h =
    let (r, e, g) = decode-Good c buf h in
    let (q, same, f) = flush_if_none-Flushed c buf r r.result refl g in (q, rw e same, f)

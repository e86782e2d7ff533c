-- ===== src/Net/Codec/Stream.antt =====
-- The decoder of codec.rs on a stream that arrives in pieces: a reader appends what it receives to the
-- buffer, and calls `decode` whenever it likes.
pub mod Runs
pub mod Steps
pub mod Delivered
pub mod Typed
use liaozhai.Common.{Bytes, List, Text, [], if◌then◌else◌, none, some, ◌++◌, ◌∷◌, ◌≡◌}
use liaozhai.Net.Codec.{decode, is_terminator, line, reply}
use liaozhai.Net.Iac.{TelnetLineCodec}

-- What a reader has done: the stream that it has received, the lines that `decode` has given, and the
-- codec and the buffer that are left. No line was too long on the way, and the buffer never too large.
pub data Framed (c : TelnetLineCodec) : Bytes → List Text → TelnetLineCodec → Bytes → Type 0 where
  begin_ : Framed c [] [] c []
  received :
      (stream : Bytes) (out : List Text) (c' : TelnetLineCodec) (buf bytes : Bytes)
      → Framed c stream out c' buf
      → Framed c (stream ++ bytes) out c' (buf ++ bytes)
  gave :
      (stream : Bytes) (out : List Text) (c' : TelnetLineCodec) (buf : Bytes)
      (c'' : TelnetLineCodec) (buf' : Bytes) (t : Text)
      → Framed c stream out c' buf
      → decode c' buf ≡ some (reply c'' buf' (some (line t)))
      → Framed c stream (out ++ t ∷ []) c'' buf'
  waited :
      (stream : Bytes) (out : List Text) (c' : TelnetLineCodec) (buf : Bytes)
      (c'' : TelnetLineCodec) (buf' : Bytes)
      → Framed c stream out c' buf
      → decode c' buf ≡ some (reply c'' buf' none)
      → Framed c stream out c'' buf'

-- A run of bytes that is ended; an empty one does not count.
abbrev pub close : List Bytes → Bytes → List Bytes
close ended [] = ended
close ended (b ∷ bs) = ended ++ (b ∷ bs) ∷ []

-- The runs of bytes between terminators that are ended, and the run that is not.
unfoldable pub scan : List Bytes → Bytes → Bytes → List Bytes × Bytes
scan ended current [] = (ended, current)
scan ended current (b ∷ bs) =
    scan (if is_terminator b then close ended current else ended)
      (if is_terminator b then [] else current ++ b ∷ []) bs

abbrev pub runs_of : Bytes → List Bytes × Bytes
runs_of = scan [] []

-- The runs that are not empty.
abbrev pub kept_runs : List Bytes → List Bytes → List Bytes
kept_runs ended [] = ended
kept_runs ended (r ∷ rs) = kept_runs (close ended r) rs

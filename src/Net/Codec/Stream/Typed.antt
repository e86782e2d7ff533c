-- ===== src/Net/Codec/Stream/Typed.antt =====
-- The lines that codec.rs gives for texts that a client types, each ended by CR LF, however their
-- bytes are cut.
use mathlib.Core.List.{map}
use mathlib.Core.Path.{subst}
use liaozhai.Common.{
  All, All-append, Bytes, List, Text, [], ap, append-nil, append_assoc, arith, false, is_empty,
  none, refl, some, sym, ◌++◌, ◌∙◌, ◌∷◌, ◌≡◌,
}
use liaozhai.Net.Codec.{decode, reply}
use liaozhai.Net.Codec.RoundTrip.{All-plain-NoIac, All-plain-NoTerminator, IsReading}
use liaozhai.Net.Codec.Stream.{Framed, close, kept_runs, scan}
use liaozhai.Net.Codec.Stream.Delivered.{Framed-runs_of}
use liaozhai.Net.Codec.Stream.Runs.{scan-terminator}
use liaozhai.Net.Codec.Telnet.{NoIac}
use liaozhai.Net.Iac.{TelnetLineCodec}
use liaozhai.Text.Utf8.{as_bytes, decode_from, from_utf8_lossy}
use liaozhai.Text.Utf8.RoundTrip.{
  All-IsScalar, IsLineChar, as_bytes-IsPlain, from_utf8_lossy-as_bytes,
}

-- The bytes of these lines.
abbrev pub typed : List Text → Bytes
typed [] = []
typed (l ∷ ls) = as_bytes l ++ b'\r' ∷ b'\n' ∷ typed ls

-- A text that can be typed in a line.
abbrev pub IsTyped : Text → Type 0
IsTyped l = All IsLineChar l × (is_empty l ≡ false)

-- These lines, and empty ones in between.
pub data Spaced : List Text → List Text → Type 0 where
  quiet : Spaced [] []
  blank : (out ls : List Text) → Spaced out ls → Spaced ([] ∷ out) ls
  spoken : (l : Text) (out ls : List Text) → Spaced out ls → Spaced (l ∷ out) (l ∷ ls)

from_utf8_lossy-IsTyped : (l : Text) → IsTyped l → from_utf8_lossy (as_bytes l) ≡ l
from_utf8_lossy-IsTyped l h = from_utf8_lossy-as_bytes l (All-IsScalar l h.0)

as_bytes-ne-nil :
    (l : Text) (bs : Bytes) → IsTyped l → as_bytes l ≡ bs → is_empty (as_bytes l) ≡ false
unfolding from_utf8_lossy decode_from
as_bytes-ne-nil l [] h e =
    let none_typed : [] ≡ l = ap from_utf8_lossy (sym e) ∙ from_utf8_lossy-IsTyped l h in
    absurd (ne_nil l h.1 none_typed)
  where
    ne_nil : (l : Text) → is_empty l ≡ false → [] ≡ l → ⊥
    ne_nil [] h e = cc
    ne_nil (c ∷ cs) h e = cc
as_bytes-ne-nil l (b ∷ bs) h e = rw e refl

close-append :
    (ended : List Bytes) (xs : Bytes) → is_empty xs ≡ false → close ended xs ≡ ended ++ xs ∷ []
close-append ended [] h = cc
close-append ended (x ∷ xs) h = refl

scan-typed :
    (ended : List Bytes) (ls : List Text)
    → All IsTyped ls
    → scan ended [] (typed ls) ≡ (ended ++ map as_bytes ls, [])
unfolding scan
scan-typed ended [] h = ap (λ x. (x, [])) (sym (append-nil ended))
scan-typed ended (l ∷ ls) h =
    let plain = All-plain-NoTerminator (as_bytes l) (as_bytes-IsPlain l h.0.0) in
    scan-terminator ended (as_bytes l) b'\r' (b'\n' ∷ typed ls) plain refl
    ∙ ap (λ x. scan x [] (typed ls))
        (close-append ended (as_bytes l) (as_bytes-ne-nil l (as_bytes l) h.0 refl))
    ∙ scan-typed (ended ++ as_bytes l ∷ []) ls h.1
    ∙ ap (λ x. (x, [])) (append_assoc ended (as_bytes l ∷ []) (map as_bytes ls))

kept_runs-cons :
    (ended : List Bytes) (rs : List Bytes) → kept_runs ended rs ≡ ended ++ kept_runs [] rs
kept_runs-cons ended [] = sym (append-nil ended)
kept_runs-cons ended ([] ∷ rs) = kept_runs-cons ended rs
kept_runs-cons ended ((b ∷ bs) ∷ rs) =
    kept_runs-cons (ended ++ (b ∷ bs) ∷ []) rs
    ∙ append_assoc ended ((b ∷ bs) ∷ []) (kept_runs [] rs)
    ∙ ap (λ x. ended ++ x) (sym (kept_runs-cons ((b ∷ bs) ∷ []) rs))

no_bytes : from_utf8_lossy [] ≡ []
unfolding from_utf8_lossy decode_from
no_bytes = refl

kept_runs-Spaced :
    (raw : List Bytes) (ls : List Text)
    → All IsTyped ls
    → kept_runs [] raw ≡ map as_bytes ls
    → Spaced (map from_utf8_lossy raw) ls
kept_runs-Spaced [] [] h e = quiet
kept_runs-Spaced [] (l ∷ ls) h e = cc
kept_runs-Spaced ([] ∷ rs) ls h e =
    rw no_bytes (blank (map from_utf8_lossy rs) ls (kept_runs-Spaced rs ls h e))
kept_runs-Spaced ((b ∷ bs) ∷ rs) [] h e =
    let run : (b ∷ bs) ∷ kept_runs [] rs ≡ [] = sym (kept_runs-cons ((b ∷ bs) ∷ []) rs) ∙ e in cc
kept_runs-Spaced ((b ∷ bs) ∷ rs) (l ∷ ls) h e =
    let all : (b ∷ bs) ∷ kept_runs [] rs ≡ as_bytes l ∷ map as_bytes ls =
      sym (kept_runs-cons ((b ∷ bs) ∷ []) rs) ∙ e in
    let first : b ∷ bs ≡ as_bytes l = cc in
    let others : kept_runs [] rs ≡ map as_bytes ls = cc in
    let text : from_utf8_lossy (b ∷ bs) ≡ l =
      ap from_utf8_lossy first ∙ from_utf8_lossy-IsTyped l h.0 in
    rw text (spoken l (map from_utf8_lossy rs) ls (kept_runs-Spaced rs ls h.1 others))

All-typed-NoIac : (ls : List Text) → All IsTyped ls → NoIac (typed ls)
All-typed-NoIac [] h = tt
All-typed-NoIac (l ∷ ls) h =
    All-append _ (as_bytes l) (b'\r' ∷ b'\n' ∷ typed ls)
      (All-plain-NoIac (as_bytes l) (as_bytes-IsPlain l h.0.0))
      (omega arith, (omega arith, All-typed-NoIac ls h.1))

-- However the bytes of texts that are typed, each ended by CR LF, are cut into the pieces that arrive,
-- from a codec at the begin of a line: when `decode` waits for more, it has given these texts, in
-- their order, with nothing but empty lines in between, and the buffer is empty.
pub Framed-Spaced :
    (c : TelnetLineCodec) (ls out : List Text) (c' : TelnetLineCodec) (buf : Bytes)
    (c'' : TelnetLineCodec) (buf' : Bytes)
    → IsReading c
    → All IsTyped ls
    → Framed c (typed ls) out c' buf
    → decode c' buf ≡ some (reply c'' buf' none)
    → Spaced out ls × (buf ≡ [])
Framed-Spaced c ls out c' buf c'' buf' r h f w =
    let (raw, texts, runs) =
      Framed-runs_of c (typed ls) out c' buf c'' buf' r (All-typed-NoIac ls h) f w in
    let all = sym runs ∙ scan-typed [] ls h in
    (
      subst (λ x. Spaced x ls) (sym texts) (kept_runs-Spaced raw ls h (ap (λ x. x.0) all)),
      ap (λ x. x.1) all,
    )

-- ===== src/Net/Codec/Chunks.antt =====
-- What arrives in pieces: `strip_iac` runs again over what it kept of an earlier piece.
use liaozhai.Common.{Bool-cases, Bytes, [], append-nil, false, inl, inr, refl, true, ◌++◌, ◌≡◌, ◌⊎◌}
use liaozhai.Net.Codec.Telnet.{
  IsMode, Mode, NoIac, command, feed, feed-IsMode, feed-NoIac, feed-append, feed-leftover,
  in_sub_of, leftover, mode_of, option, pending_of, strip, sub, sub_iac, text,
}

-- The mode that the codec's flags stand for between two calls.
abbrev pub resumed : Mode → Mode
resumed m = mode_of (in_sub_of m) (pending_of m)

resumed-text : (m : Mode) → in_sub_of m ≡ false → resumed m ≡ text
resumed-text text h = refl
resumed-text command h = refl
resumed-text (option verb) h = refl
resumed-text sub h = cc
resumed-text sub_iac h = cc

resumed-sub : (m : Mode) → in_sub_of m ≡ true → (resumed m ≡ m) × (leftover m ≡ [])
resumed-sub text h = cc
resumed-sub command h = cc
resumed-sub (option verb) h = cc
resumed-sub sub h = (refl, refl)
resumed-sub sub_iac h = (refl, refl)

feed-resumed :
    (m : Mode) (out ys : Bytes)
    → IsMode m
    → in_sub_of m ≡ false
    → NoIac out
    → feed (resumed m) ((out ++ leftover m) ++ ys) ≡ (out ++ (feed m ys).0, (feed m ys).1)
feed-resumed m out ys v h n = rw (
  resumed-text m h,
  feed-append text (out ++ leftover m) ys,
  feed-append text out (leftover m),
  feed-NoIac out n,
  feed-leftover m v h,
  append-nil out,
)

feed-resumed_sub :
    (m : Mode) (out ys : Bytes)
    → in_sub_of m ≡ true
    → out ≡ []
    → feed (resumed m) ((out ++ leftover m) ++ ys) ≡ (out ++ (feed m ys).0, (feed m ys).1)
feed-resumed_sub m out ys h e = rw (e, (resumed-sub m h).0, (resumed-sub m h).1)

no_text :
    (m : Mode) (out : Bytes) → (in_sub_of m ≡ false) ⊎ (out ≡ []) → in_sub_of m ≡ true → out ≡ []
no_text m out (inl f) h = cc
no_text m out (inr e) h = e

-- Text that arrives in two pieces is stripped as if it had arrived in one, provided that the text
-- kept of the first piece has no IAC byte, and that there is none at all if the first piece ends
-- inside a subnegotiation.
pub strip-append :
    (m : Mode) (xs ys : Bytes)
    → IsMode m
    → NoIac (feed m xs).0
    → (in_sub_of (feed m xs).1 ≡ false) ⊎ ((feed m xs).0 ≡ [])
    → (strip (resumed (feed m xs).1) (strip m xs ++ ys) ≡ strip m (xs ++ ys))
      × ((feed (resumed (feed m xs).1) (strip m xs ++ ys)).1 ≡ (feed m (xs ++ ys)).1)
unfolding strip
strip-append m xs ys v n how = elim (Bool-cases (in_sub_of (feed m xs).1)) [
  | inr f ↦
      let e = feed-resumed (feed m xs).1 (feed m xs).0 ys (feed-IsMode m xs v) f n in
      (rw (e, feed-append m xs ys), rw (e, feed-append m xs ys))
  | inl s ↦
      let e =
        feed-resumed_sub (feed m xs).1 (feed m xs).0 ys s
          (no_text (feed m xs).1 (feed m xs).0 how s) in
      (rw (e, feed-append m xs ys), rw (e, feed-append m xs ys))
]

-- ===== src/Net/Codec/Stripped.antt =====
-- `strip_iac` as a whole: the loop ends within its fuel, without a panic, and leaves in the buffer
-- what the description of the framing gives.
use liaozhai.Common.{
  Bool, Bytes, [], append-nil, append_assoc, arith, false, length, ltb, refl, some, suc, sym, take,
  true, zero, ℕ, ◌++◌, ◌<◌, ◌∙◌, ◌∷◌, ◌≡◌,
}
use liaozhai.Net.Codec.Loop.{take-of-length}
use liaozhai.Net.Codec.Rounds.{strip_round-Round}
use liaozhai.Net.Codec.Strip.{Layout, Round, goes, stops}
use liaozhai.Net.Codec.Telnet.{
  Mode, command, feed, in_sub_of, leftover, mode_of, option, pending_of, strip, sub, sub_iac, text,
}
use liaozhai.Net.Iac.{Scan, TelnetLineCodec, strip_iac, strip_loop, strip_round}

ltb_of_lt : (a b : ℕ) → a < b → ltb a b ≡ true
ltb_of_lt a b h = ground arith

ltb_of_eq : (a b : ℕ) → a ≡ b → ltb a b ≡ false
ltb_of_eq a b h = ground arith

-- The loop ends with the text of what was unread behind what was written.
record Ends (len fuel : ℕ) (w rest : Bytes) (m : Mode) (s : Scan) : Type 0 where
  last : Scan
  ends : strip_loop fuel len s ≡ some last
  kept : take last.write last.buf ≡ w ++ strip m rest
  in_sub : last.in_sub ≡ in_sub_of (feed m rest).1
  pending : last.pending ≡ pending_of (feed m rest).1

strip-next :
    (w out : Bytes) (m m' : Mode) (rest rest' : Bytes)
    → feed m rest ≡ (out ++ (feed m' rest').0, (feed m' rest').1)
    → w ++ strip m rest ≡ (w ++ out) ++ strip m' rest'
unfolding strip
strip-next w out m m' rest rest' e = rw e (simp append_assoc)

module _ {len : ℕ} where
  step-Ends :
      (fuel : ℕ) (w rest : Bytes) (m : Mode) (s : Scan)
      → s.read < len
      → Round len w rest m (strip_round len s)
      → ((w' gap' rest' : Bytes) (m' : Mode) (s' : Scan)
          → leftover m' ≡ []
          → Layout len w' gap' rest' m' s'
          → length rest' < length rest
          → Ends len fuel w' rest' m' s')
      → Ends len (suc fuel) w rest m s
  unfolding strip_loop
  step-Ends fuel w rest m s h (stops s' f k i p) ih = record {
    last = s';
    ends = rw (ltb_of_lt s.read len h, strip_loop, f);
    kept = k;
    in_sub = i;
    pending = p;
  }
  step-Ends fuel w rest m s h (goes s' out gap' rest' m' f l lt e lo) ih =
      let r = ih (w ++ out) gap' rest' m' s' lo l lt in
      record {
        last = r.last;
        ends = rw (ltb_of_lt s.read len h, strip_loop, f) r.ends;
        kept = r.kept ∙ sym (strip-next w out m m' _ rest' e);
        in_sub = r.in_sub ∙ rw e;
        pending = r.pending ∙ rw e;
      }

  loop-Ends :
      (fuel : ℕ) (w gap rest : Bytes) (m : Mode) (s : Scan)
      → leftover m ≡ []
      → Layout len w gap rest m s
      → length rest < fuel
      → Ends len fuel w rest m s
  unfolding strip_loop strip feed
  loop-Ends zero w gap rest m s lo l h = elim h [ ]
  loop-Ends (suc fuel) w gap [] m s lo l h = record {
    last = s;
    ends = rw (ltb_of_eq s.read len (omega (arith, l.read, l.size)));
    kept = rw (l.buf, lo) (take-of-length _ w (gap ++ []) l.write ∙ sym (append-nil w));
    in_sub = l.in_sub;
    pending = l.pending;
  }
  loop-Ends (suc fuel) w gap (b ∷ rest) m s lo l h =
      step-Ends fuel w (b ∷ rest) m s (omega (arith, l.read, l.size))
        (strip_round-Round w gap s b rest m lo l)
        (λ w' gap' rest' m' s' lo' l' lt. loop-Ends fuel w' gap' rest' m' s' lo' l' (omega arith))

-- The codec as the loop of `strip_iac` leaves it.
abbrev pub with_mode : TelnetLineCodec → Mode → TelnetLineCodec
with_mode c m = record c { in_subnegotiation = in_sub_of m; subneg_iac_pending = pending_of m }

-- The mode in which the codec is between two calls.
abbrev pub codec_mode : TelnetLineCodec → Mode
codec_mode c = mode_of c.in_subnegotiation c.subneg_iac_pending

-- An IAC is pending only inside a subnegotiation.
abbrev pub IsCoherent : TelnetLineCodec → Type 0
IsCoherent c = c.in_subnegotiation ≡ false → c.subneg_iac_pending ≡ false

pub leftover-mode_of : (i p : Bool) → leftover (mode_of i p) ≡ []
leftover-mode_of true true = refl
leftover-mode_of true false = refl
leftover-mode_of false p = refl

in_sub_of-mode_of : (i p : Bool) → in_sub_of (mode_of i p) ≡ i
in_sub_of-mode_of true true = refl
in_sub_of-mode_of true false = refl
in_sub_of-mode_of false p = refl

pending_of-mode_of : (i p : Bool) → (i ≡ false → p ≡ false) → pending_of (mode_of i p) ≡ p
pending_of-mode_of true true h = refl
pending_of-mode_of true false h = refl
pending_of-mode_of false p h = sym (h refl)

pub with_mode-IsCoherent : (c : TelnetLineCodec) (m : Mode) → IsCoherent (with_mode c m)
with_mode-IsCoherent c sub_iac = λ e. cc
with_mode-IsCoherent c text = λ e. refl
with_mode-IsCoherent c sub = λ e. refl
with_mode-IsCoherent c command = λ e. refl
with_mode-IsCoherent c (option verb) = λ e. refl

-- For a codec that awaits the end of a subnegotiation only inside one, `strip_iac` never panics and
-- always ends, and its loop leaves the text of the buffer as the machine of Telnet gives it: escapes
-- undone, negotiations and subnegotiations dropped, and a sequence that is cut off kept behind the
-- text.
pub strip_iac-strip :
    (c : TelnetLineCodec) (buf : Bytes)
    → IsCoherent c
    → strip_iac c buf ≡ some (with_mode c (feed (codec_mode c) buf).1, strip (codec_mode c) buf)
unfolding strip_iac
strip_iac-strip c buf h =
    let r =
      loop-Ends {len = length buf} (suc (length buf)) [] [] buf (codec_mode c)
        (record {
          in_sub = c.in_subnegotiation;
          pending = c.subneg_iac_pending;
          buf = buf;
          read = 0;
          write = 0;
        })
        (leftover-mode_of c.in_subnegotiation c.subneg_iac_pending)
        (record {
          buf = refl;
          read = refl;
          write = refl;
          size = omega arith;
          in_sub = sym (in_sub_of-mode_of c.in_subnegotiation c.subneg_iac_pending);
          pending = sym (pending_of-mode_of c.in_subnegotiation c.subneg_iac_pending h);
        })
        (omega arith) in
    rw (r.ends) (rw (r.in_sub, r.pending, r.kept))

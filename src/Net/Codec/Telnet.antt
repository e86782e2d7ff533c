-- ===== src/Net/Codec/Telnet.antt =====
-- The telnet framing as `strip_iac` reads it, described byte by byte and with no buffer: a machine
-- that reads one byte and writes the text bytes that it stands for. Inside a subnegotiation a second
-- IAC is not an escape; Documented has the framing where it is one.
use liaozhai.Common.{
  All, Bool, Bytes, [], append_assoc, arith, false, if◌then◌else◌, refl, true, ℕ, ◌++◌, ◌==◌, ◌∷◌,
  ◌≡◌, ◌≢◌,
}
use liaozhai.Net.Iac.{iac, is_negotiation, sb, se}

-- Between two bytes: in the text, behind an IAC, behind IAC and a negotiation verb, inside a
-- subnegotiation, and behind an IAC there.
pub data Mode : Type 0 where
  text command : Mode
  option : ℕ → Mode
  sub sub_iac : Mode

unfoldable pub feed_byte : Mode → ℕ → Bytes × Mode
feed_byte text b = if b == iac then ([], command) else (b ∷ [], text)
feed_byte command b =
    if b == iac
    then (iac ∷ [], text)
    else if is_negotiation b
    then ([], option b)
    else if b == sb
    then ([], sub)
    else ([], text)
feed_byte (option verb) b = ([], text)
feed_byte sub b = if b == iac then ([], sub_iac) else ([], sub)
feed_byte sub_iac b = if b == se then ([], text) else if b == iac then ([], sub_iac) else ([], sub)

unfoldable pub feed : Mode → Bytes → Bytes × Mode
unfolding feed_byte
feed m [] = ([], m)
feed m (b ∷ bs) =
    let (out, m') = feed_byte m b in let (rest, last) = feed m' bs in (out ++ rest, last)

-- The bytes of a sequence that has begun and is not complete: they are kept for the next call.
abbrev pub leftover : Mode → Bytes
leftover command = iac ∷ []
leftover (option verb) = iac ∷ verb ∷ []
leftover _ = []

-- The two flags that the codec keeps between calls.
abbrev pub in_sub_of : Mode → Bool
in_sub_of sub = true
in_sub_of sub_iac = true
in_sub_of _ = false

abbrev pub pending_of : Mode → Bool
pending_of sub_iac = true
pending_of _ = false

-- The mode in which a call begins.
abbrev pub mode_of : Bool → Bool → Mode
mode_of in_sub pending = if in_sub then (if pending then sub_iac else sub) else text

-- The text of a buffer, with the sequence that it breaks off in.
unfoldable pub strip : Mode → Bytes → Bytes
unfolding feed
strip m bs = (feed m bs).0 ++ leftover (feed m bs).1

pub feed-cons :
    (m : Mode) (b : ℕ) (bs : Bytes)
    → feed m (b ∷ bs)
      ≡ ((feed_byte m b).0 ++ (feed (feed_byte m b).1 bs).0, (feed (feed_byte m b).1 bs).1)
unfolding feed
feed-cons m b bs = refl

-- Reading two pieces one after the other is reading them together.
pub feed-append :
    (m : Mode) (xs ys : Bytes)
    → feed m (xs ++ ys) ≡ ((feed m xs).0 ++ (feed (feed m xs).1 ys).0, (feed (feed m xs).1 ys).1)
unfolding feed
feed-append m [] ys = refl
feed-append m (x ∷ xs) ys = rw (feed-append (feed_byte m x).1 xs ys, append_assoc)

abbrev pub NoIac : Bytes → Type 0
NoIac = All (λ b. b ≢ iac)

pub feed-NoIac : (bs : Bytes) → NoIac bs → feed text bs ≡ (bs, text)
unfolding feed
feed-NoIac [] h = refl
feed-NoIac (b ∷ bs) h = ground (arith, feed-NoIac bs h.1)

-- A verb that is waiting for its option is one of the four.
abbrev pub IsMode : Mode → Type 0
IsMode (option verb) = is_negotiation verb ≡ true
IsMode _ = Unit

feed_byte-IsMode : (m : Mode) (b : ℕ) → IsMode (feed_byte m b).1
unfolding feed_byte
feed_byte-IsMode text b = ground arith
feed_byte-IsMode command b = ground arith
feed_byte-IsMode (option verb) b = tt
feed_byte-IsMode sub b = ground arith
feed_byte-IsMode sub_iac b = ground arith

pub feed-IsMode : (m : Mode) (bs : Bytes) → IsMode m → IsMode (feed m bs).1
unfolding feed
feed-IsMode m [] h = h
feed-IsMode m (b ∷ bs) h = feed-IsMode (feed_byte m b).1 bs (feed_byte-IsMode m b)

-- A sequence that has begun is read again from its first byte.
pub feed-leftover : (m : Mode) → IsMode m → in_sub_of m ≡ false → feed text (leftover m) ≡ ([], m)
unfolding feed
feed-leftover text v h = refl
feed-leftover command v h = refl
feed-leftover (option verb) v h = ground arith
feed-leftover sub v h = cc
feed-leftover sub_iac v h = cc

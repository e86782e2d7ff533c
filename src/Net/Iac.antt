-- ===== src/Net/Iac.antt =====
-- crates/liaozhai-net/src/codec.rs: the codec's state, and `strip_iac` as the loop that moves bytes
-- within the buffer.
use mathlib.Core.Option
use liaozhai.Common.{
  Bool, Bytes, Option, [], false, get_elem?, if◌then◌else◌, leb, length, ltb, none, not, some, suc,
  take, true, zero, ℕ, ◌&&◌, ◌+◌, ◌-◌, ◌==◌, ◌||◌, ◌∷◌,
}

abbrev pub iac : ℕ
iac = 0xFF

abbrev pub sb : ℕ
sb = 0xFA

abbrev pub se : ℕ
se = 0xF0

abbrev pub will : ℕ
will = 0xFB

abbrev pub wont : ℕ
wont = 0xFC

abbrev pub do_ : ℕ
do_ = 0xFD

abbrev pub dont : ℕ
dont = 0xFE

-- The pattern `WILL | WONT | DO | DONT`.
abbrev pub is_negotiation : ℕ → Bool
is_negotiation b = b == will || b == wont || b == do_ || b == dont

pub record TelnetLineCodec : Type 0 where
  pub max_line_length : ℕ
  pub max_buffer_size : ℕ
  pub discarding : Bool
  pub in_subnegotiation : Bool
  pub subneg_iac_pending : Bool

-- `buf[i] = b`; out of bounds is a panic.
unfoldable pub store_at : Bytes → ℕ → ℕ → Option Bytes
store_at [] i b = none
store_at (x ∷ xs) zero b = some (b ∷ xs)
store_at (x ∷ xs) (suc i) b = Option.map (λ ys. x ∷ ys) (store_at xs i b)

-- The locals of `strip_iac`, with the two flags of the codec.
pub record Scan : Type 0 where
  pub in_sub : Bool
  pub pending : Bool
  pub buf : Bytes
  pub read : ℕ
  pub write : ℕ

-- One round of the loop goes on (`continue`), leaves the loop (`break`) or panics.
pub data Flow : Type 0 where
  next break : Scan → Flow
  panic : Flow

abbrev pub and_flow : Option Bytes → (Bytes → Flow) → Flow
and_flow none k = panic
and_flow (some b) k = k b

-- `if write != read { buf[write] = buf[read]; }`, where `b` is `buf[read]`
unfoldable pub move_byte : Scan → ℕ → Option Bytes
unfolding store_at
move_byte s b = if s.write == s.read then some s.buf else store_at s.buf s.write b

-- `for i in 0..remaining { buf[write + i] = buf[read + i]; }`
unfoldable pub copy_down : ℕ → Bytes → ℕ → ℕ → Option Bytes
unfolding store_at Option.bind
copy_down zero buf write read = some buf
copy_down (suc remaining) buf write read = Option.bind (get_elem? buf read) (λ b.
    Option.bind (store_at buf write b) (λ buf'. copy_down remaining buf' (write + 1) (read + 1)))

-- `b` is `buf[read]`, inside a subnegotiation.
unfoldable pub sub_round : Scan → ℕ → Flow
sub_round s b =
    if s.pending && b == se
    then next (record s { pending = false; in_sub = false; read = s.read + 1 })
    else if s.pending && not (b == iac)
    then next (record s { pending = false; read = s.read + 1 })
    else if b == iac
    then next (record s { pending = true; read = s.read + 1 })
    else next (record s { read = s.read + 1 })

-- `match cmd`, where `cmd` is the byte behind an IAC.
unfoldable pub command_round : ℕ → Scan → ℕ → Flow
unfolding store_at copy_down
command_round len s cmd =
    if cmd == iac
    then and_flow (store_at s.buf s.write iac)
        (λ buf. next (record s { buf = buf; write = s.write + 1; read = s.read + 2 }))
    else if is_negotiation cmd
    then (if leb len (s.read + 2)
        then and_flow (copy_down (len - s.read) s.buf s.write s.read)
            (λ buf. break (record s { buf = buf; write = s.write + (len - s.read) }))
        else next (record s { read = s.read + 3 }))
    else if cmd == sb
    then next (record s { in_sub = true; pending = false; read = s.read + 2 })
    else next (record s { read = s.read + 2 })

-- `b` is `buf[read]`, in normal mode.
unfoldable pub normal_round : ℕ → Scan → ℕ → Flow
unfolding move_byte command_round
normal_round len s b =
    if not (b == iac)
    then and_flow (move_byte s b)
        (λ buf. next (record s { buf = buf; write = s.write + 1; read = s.read + 1 }))
    else if leb len (s.read + 1)
    then and_flow (move_byte s b) (λ buf. break (record s { buf = buf; write = s.write + 1 }))
    else elim (get_elem? s.buf (s.read + 1)) [ none ↦ panic | some cmd ↦ command_round len s cmd ]

unfoldable pub strip_round : ℕ → Scan → Flow
unfolding sub_round normal_round
strip_round len s = elim (get_elem? s.buf s.read) [
  | none ↦ panic
  | some b ↦ if s.in_sub then sub_round s b else normal_round len s b
]

-- `while read < len`
unfoldable pub strip_loop : ℕ → ℕ → Scan → Option Scan
unfolding strip_round
strip_loop zero len s = none
strip_loop (suc fuel) len s =
    if ltb s.read len
    then elim (strip_round len s) [
      | next s' ↦ strip_loop fuel len s'
      | break s' ↦ some s'
      | panic ↦ none
    ]
    else some s

-- The flags after the loop, and the buffer cut at `write`.
unfoldable pub strip_iac : TelnetLineCodec → Bytes → Option (TelnetLineCodec × Bytes)
unfolding strip_loop
strip_iac c buf =
    Option.map
      (λ s. (
        record c { in_subnegotiation = s.in_sub; subneg_iac_pending = s.pending },
        take s.write s.buf,
      ))
      (strip_loop (suc (length buf)) (length buf) (record {
        in_sub = c.in_subnegotiation;
        pending = c.subneg_iac_pending;
        buf = buf;
        read = 0;
        write = 0;
      }))

-- ===== src/Net/Output.antt =====
-- crates/liaozhai-net/src/output.rs. The write half is what was written in full, one frame for each
-- call, what the writes to come will give (those behind the list succeed), and whether it was shut
-- down. Nothing is buffered, so that `flush` has no effect.
use liaozhai.Common.{Bool, Bytes, List, Text, [], codes, false, true, ◌++◌, ◌∷◌}
use liaozhai.Text.Utf8.{as_bytes}

pub record LineWriter : Type 0 where
  pub sent : List Bytes
  pub results : List Bool
  pub closed : Bool

-- `LineWriter::new`, on a write half whose writes will have the given results.
abbrev pub new_writer : List Bool → LineWriter
new_writer results = record { sent = []; results = results; closed = false }

-- `LineWriter::write_raw`, and whether it succeeded.
unfoldable pub write_raw : LineWriter → Bytes → LineWriter × Bool
write_raw w bytes = elim w.results [
  | [] ↦ (record w { sent = w.sent ++ bytes ∷ [] }, true)
  | true ∷ rs ↦ (record w { sent = w.sent ++ bytes ∷ []; results = rs }, true)
  | false ∷ rs ↦ (record w { results = rs }, false)
]

-- `LineWriter::write_line`
unfoldable pub write_line : LineWriter → Text → LineWriter × Bool
unfolding write_raw
write_line w line = write_raw w (as_bytes line ++ as_bytes (codes "\r\n"))

-- `LineWriter::shutdown`
abbrev pub shut_down : LineWriter → LineWriter
shut_down w = record w { closed = true }

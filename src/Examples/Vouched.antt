-- ===== src/Examples/Vouched.antt =====
-- The theorem on who is at the selection of a world at a concrete input: one client, which logs in.
use liaozhai.Common.{[], ◌∷◌}
use liaozhai.Examples.Connection.{logged_in_alice, one_account}
use liaozhai.Net.Connection.Interleaved.{World, behind}
use liaozhai.Net.Connection.Interleaved.Vouched.{Vouched}

abbrev chosen : World one_account 3
chosen = behind one_account 3 1 logged_in_alice ((1, logged_in_alice) ∷ [])

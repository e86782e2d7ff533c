-- ===== src/Examples/Visits.antt =====
-- The theorem on a client that connects again and again at a concrete input: three wrong passwords, and
-- one more on a second connection, where two failures are allowed.
use liaozhai.Auth.RateLimiter.{AuthRateLimiter, get, is_throttled, new_limiter}
use liaozhai.Common.{All, List, [], arith, leb, length, refl, ◌*◌, ◌+◌, ◌<◌, ◌∷◌, ◌≡◌}
use liaozhai.Examples.Connection.{greeted, one_account, registry}
use liaozhai.Examples.Logins.{wrong, wrong-IsWrong}
use liaozhai.Net.Connection.{Connection, handle_connection, looped, run, running, start}
use liaozhai.Net.Connection.AtOnce.{IsGreeted, run_each, run_each-failed}
use liaozhai.Net.Connection.Visits.{AnsweredIn, IsWrongVisit, Visit, visits, visits-bounds}
use liaozhai.Net.Output.{write_raw}

abbrev limiter : AuthRateLimiter
limiter = new_limiter 60 2 10

abbrev two_visits : List Visit
two_visits =
    record { connected_at = 90; attempts = wrong ∷ wrong ∷ wrong ∷ wrong ∷ [] }
    ∷ record { connected_at = 110; attempts = wrong ∷ [] }
    ∷ []

noon-InWindow : AnsweredIn one_account 3 1 60 120 wrong
noon-InWindow = (omega arith, omega arith, omega arith, omega arith)

wrong_visits : All (IsWrongVisit one_account 3 1 60 120 tt) two_visits
wrong_visits = (
  record {
    wrong = (wrong-IsWrong, (wrong-IsWrong, (wrong-IsWrong, (wrong-IsWrong, tt))));
    answered = (noon-InWindow, (noon-InWindow, (noon-InWindow, (noon-InWindow, tt))));
    since = omega arith;
    until = omega arith;
  },
  (
    record {
      wrong = (wrong-IsWrong, tt);
      answered = (noon-InWindow, tt);
      since = omega arith;
      until = omega arith;
    },
    tt,
  ),
)

visits-bounds_example :
    let w =
      visits one_account 3 1 registry
        (record { limiter = limiter; store = tt; failed = 0 })
        two_visits in
    (w.failed < limiter.max_failures + 3)
    × ((is_throttled w.limiter 120 1).1 ≡ leb limiter.max_failures w.failed)
unfolding get
visits-bounds_example =
    visits-bounds one_account 3 1 registry limiter tt 120 two_visits (omega arith) (omega arith)
      (omega arith) refl (omega arith) (omega arith) wrong_visits

abbrev greeted_here : Connection one_account 3 1
greeted_here = record greeted { limiter = limiter }

first_greeted :
    handle_connection one_account 3 1 registry [] 100 limiter tt [] ≡ looped (running greeted_here)
unfolding handle_connection start run is_throttled get write_raw
first_greeted = refl

first_connection : IsGreeted one_account 3 1 limiter tt greeted_here
first_connection = record { registry = registry; connected_at = 100; begins = first_greeted }

-- Two failures are allowed, and six happen.
run_each-failed_example :
    (run_each one_account 3 1
      (record { limiter = limiter; store = tt; failed = 0 })
      (wrong ∷ wrong ∷ wrong ∷ [])
      (greeted_here ∷ greeted_here ∷ [])).failed
    ≡ 0 + length {A = Connection one_account 3 1} (greeted_here ∷ greeted_here ∷ []) * 3
run_each-failed_example =
    run_each-failed one_account 3 1 limiter tt
      (record { limiter = limiter; store = tt; failed = 0 }) (wrong ∷ wrong ∷ wrong ∷ [])
      (greeted_here ∷ greeted_here ∷ []) refl (first_connection, (first_connection, tt))
      (wrong-IsWrong, (wrong-IsWrong, (wrong-IsWrong, tt))) refl (omega arith) (omega arith)

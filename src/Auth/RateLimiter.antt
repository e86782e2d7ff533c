-- ===== src/Auth/RateLimiter.antt =====
-- crates/liaozhai-auth/src/rate_limiter.rs. An instant is a number, counted from the first one that
-- the platform can represent, and what the clock reads is an argument of each call. An address is a
-- number. The map is the list of its entries with distinct keys; the order in which `HashMap`
-- iterates is the list's. The mutex makes each operation one step.
use mathlib.Core.Option
pub mod Entries
pub mod Window
pub mod History
pub mod Bound
pub mod Eviction
pub mod Counted
pub mod SameMap
pub mod Unordered
pub mod Log
use liaozhai.Common.{
  Bool, List, Option, [], false, if◌then◌else◌, leb, length, ltb, none, not, some, true, ℕ, ◌&&◌,
  ◌++◌, ◌-◌, ◌==◌, ◌∷◌,
}

abbrev pub IpAddr : Type 0
IpAddr = ℕ

abbrev pub Instant : Type 0
Instant = ℕ

abbrev pub Entry : Type 0
Entry = IpAddr × List Instant

pub record AuthRateLimiter : Type 0 where
  pub window : ℕ
  pub max_failures : ℕ
  pub max_entries : ℕ
  pub failures : List Entry

abbrev pub new_limiter : ℕ → ℕ → ℕ → AuthRateLimiter
new_limiter window max_failures max_entries = record {
  window = window;
  max_failures = max_failures;
  max_entries = max_entries;
  failures = [];
}

-- `HashMap::get`
unfoldable pub get : IpAddr → List Entry → Option (List Instant)
get ip [] = none
get ip ((k, deque) ∷ map) = if k == ip then some deque else get ip map

-- `HashMap::remove`
unfoldable pub remove : IpAddr → List Entry → List Entry
remove ip [] = []
remove ip ((k, deque) ∷ map) = if k == ip then map else (k, deque) ∷ remove ip map

-- The entry of `ip` is given a new value; a key that is not there gets an entry at the end.
unfoldable pub put : IpAddr → List Instant → List Entry → List Entry
put ip value [] = (ip, value) ∷ []
put ip value ((k, deque) ∷ map) =
    if k == ip then (k, value) ∷ map else (k, deque) ∷ put ip value map

-- `Instant::now().checked_sub(window).unwrap_or(Instant::now())`: an instant before the begin of the
-- clock does not exist.
abbrev pub cutoff : ℕ → Instant → Instant
cutoff window now = if leb window now then now - window else now

-- `while deque.front() < cutoff { deque.pop_front(); }`
unfoldable pub pop_before : Instant → List Instant → List Instant
pop_before limit [] = []
pop_before limit (t ∷ ts) = if ltb t limit then pop_before limit ts else t ∷ ts

unfoldable pub prune : ℕ → Instant → List Instant → List Instant
unfolding pop_before
prune window now deque = pop_before (cutoff window now) deque

-- `VecDeque::back`
unfoldable pub back : List Instant → Option Instant
back [] = none
back (t ∷ []) = some t
back (t ∷ u ∷ ts) = back (u ∷ ts)

-- `min_by_key` over the entries that have a last failure; of equal keys the first is taken.
unfoldable pub min_by_back : Option (IpAddr × Instant) → List Entry → Option (IpAddr × Instant)
unfolding back
min_by_back best [] = best
min_by_back best ((ip, deque) ∷ map) =
    min_by_back
      (elim (back deque) [
        | none ↦ best
        | some t ↦ elim best [
          | none ↦ some (ip, t)
          | some (ip', t') ↦ if ltb t t' then some (ip, t) else some (ip', t')
        ]
      ])
      map

unfoldable pub find_oldest_entry : List Entry → Option IpAddr
unfolding min_by_back
find_oldest_entry map = Option.map (λ e. e.0) (min_by_back none map)

abbrev pub is_some : {A : Type 0} → Option A → Bool
is_some none = false
is_some (some a) = true

unfoldable pub is_throttled : AuthRateLimiter → Instant → IpAddr → AuthRateLimiter × Bool
unfolding get put prune
is_throttled l now ip = elim (get ip l.failures) [
  | none ↦ (l, false)
  | some deque ↦
      let pruned = prune l.window now deque in
      (record l { failures = put ip pruned l.failures }, leb l.max_failures (length pruned))
]

-- The map with room for `ip`.
unfoldable pub make_room : ℕ → IpAddr → List Entry → List Entry
unfolding get remove find_oldest_entry
make_room max_entries ip map =
    if not (is_some (get ip map)) && leb max_entries (length map)
    then elim (find_oldest_entry map) [ none ↦ map | some oldest_ip ↦ remove oldest_ip map ]
    else map

-- `map.entry(ip).or_default()`
abbrev pub deque_of : IpAddr → List Entry → List Instant
deque_of ip map = elim (get ip map) [ none ↦ [] | some deque ↦ deque ]

-- The clock reads `pruned_at` in `prune`, and `now` behind it.
unfoldable pub record_failure : AuthRateLimiter → Instant → Instant → IpAddr → AuthRateLimiter
unfolding make_room put prune
record_failure l pruned_at now ip =
    let room = make_room l.max_entries ip l.failures in
    record l { failures = put ip (prune l.window pruned_at (deque_of ip room) ++ now ∷ []) room }

unfoldable pub reset : AuthRateLimiter → IpAddr → AuthRateLimiter
unfolding remove
reset l ip = record l { failures = remove ip l.failures }

-- ===== src/RateLimit.antt =====
-- app/rate_limit.py: the sliding-window limiter and the three limits that the routes enforce.
-- `monotonic()` is an argument `now` of each call, in nanoseconds (the resolution of that clock);
-- a difference of two times is written as a sum on the other side, so no time is truncated at 0.
-- The lock makes each call one atomic step.
pub mod Windows
pub mod Refinement
pub mod Runs
pub mod Retry
mod Tests
use Prim.Native.String.{◌++◌ as str_append}
use smart_monitor_back_end.Base.{
  ℕ, zero, suc, ◌+◌, ◌-◌, ◌*◌, ◌/◌, ◌%◌, max, String, Bool, true, false, ◌||◌, Option, none, some,
  List, [], ◌∷◌, ◌++◌, ltb, leb, if◌then◌else◌, length, string_eq,
}
use smart_monitor_back_end.Base.Text.{str_ℕ}
use smart_monitor_back_end.Base.Dict
use smart_monitor_back_end.Base.Dict.{Dict}
use smart_monitor_back_end.Base.Http.{Error, http_exception, index_error}

abbrev pub second : ℕ
second = 1000000000

abbrev pub max_window_seconds : ℕ
max_window_seconds = 600

abbrev pub cleanup_interval_seconds : ℕ
cleanup_interval_seconds = 60

-- `_events`, each deque with its oldest time first, and `_last_cleanup`.
pub record InMemoryRateLimiter : Type 0 where
  pub events : Dict String (List ℕ)
  pub last_cleanup : ℕ

unfoldable pub init : ℕ → InMemoryRateLimiter
init now = record { events = Dict.empty; last_cleanup = now }

-- the deque of a key; a `defaultdict` gives an empty one for a missing key
abbrev pub deque : Option (List ℕ) → List ℕ
deque none = []
deque (some es) = es

-- not events or events[-1] <= now - MAX_WINDOW_SECONDS
unfoldable pub is_stale : ℕ → List ℕ → Bool
is_stale now [] = true
is_stale now (e ∷ []) = leb (e + max_window_seconds * second) now
is_stale now (e ∷ f ∷ es) = is_stale now (f ∷ es)

abbrev pub is_live : ℕ → List ℕ → Bool
is_live now es = if is_stale now es then false else true

unfoldable pub cleanup_if_needed : InMemoryRateLimiter → ℕ → InMemoryRateLimiter
unfolding is_stale
cleanup_if_needed s now =
    if ltb now (s.last_cleanup + cleanup_interval_seconds * second)
    then s
    else record { events = Dict.retain (is_live now) s.events; last_cleanup = now }

-- while events and events[0] <= now - window: events.popleft()
unfoldable pub pop_expired : ℕ → ℕ → List ℕ → List ℕ
pop_expired window now [] = []
pop_expired window now (e ∷ es) = if leb (e + window) now then pop_expired window now es else e ∷ es

-- max(1, ceil(events[0] + window_seconds - now))
unfoldable pub retry_after : ℕ → ℕ → ℕ → ℕ
retry_after e window now = max 1 ((e + window - now + (second - 1)) / second)

-- `(True, 0)`, `(False, retry_after)`, or the IndexError of `events[0]` on an empty deque
pub data Decision : Type 0 where
  allowed : Decision
  denied : ℕ → Decision
  crashed : Decision

unfoldable pub decide : ℕ → ℕ → ℕ → List ℕ → Decision
unfolding retry_after
decide limit window now es =
    if leb limit (length es)
    then (elim es [ [] ↦ crashed | e ∷ _ ↦ denied (retry_after e window now) ])
    else allowed

-- what the call leaves in the deque of its key
unfoldable pub record_event : ℕ → ℕ → List ℕ → List ℕ
record_event limit now es = if leb limit (length es) then es else es ++ now ∷ []

-- The part of `check` behind the cleanup.
unfoldable pub check_clean :
    String → ℕ → ℕ → ℕ → InMemoryRateLimiter → Decision × InMemoryRateLimiter
unfolding pop_expired decide record_event
check_clean key limit window_seconds now s =
    let es = pop_expired (window_seconds * second) now (deque (Dict.get s.events key)) in
    (
      decide limit (window_seconds * second) now es,
      record s { events = Dict.insert key (record_event limit now es) s.events },
    )

unfoldable pub check : String → ℕ → ℕ → ℕ → InMemoryRateLimiter → Decision × InMemoryRateLimiter
unfolding check_clean cleanup_if_needed
check key limit window_seconds now s =
    check_clean key limit window_seconds now (cleanup_if_needed s now)

-- How `_enforce` ends: it returns, or it raises (with the header `Retry-After` in the second case).
pub data Enforced : Type 0 where
  passed : Enforced
  raised : Error → Enforced
  raised_retry : Error → ℕ → Enforced

unfoldable pub enforcement : String → Decision → Enforced
enforcement detail allowed = passed
enforcement detail (denied seconds) = raised_retry (http_exception 429 detail) seconds
enforcement detail crashed = raised index_error

unfoldable pub enforce :
    String → ℕ → ℕ → String → ℕ → InMemoryRateLimiter → Enforced × InMemoryRateLimiter
unfolding check enforcement
enforce key limit window_seconds detail now s =
    let (d, s') = check key limit window_seconds now s in (enforcement detail d, s')

-- `request.client` is None when the transport gives no address
unfoldable pub client_ip : Option String → String
client_ip none = "unknown"
client_ip (some host) = host

unfoldable pub enforce_login_rate_limit :
    Option String → ℕ → InMemoryRateLimiter → Enforced × InMemoryRateLimiter
unfolding enforce client_ip
enforce_login_rate_limit client =
    enforce (str_append "login:" (client_ip client)) 10 60 "Too many login attempts"

unfoldable pub enforce_register_rate_limit :
    Option String → ℕ → InMemoryRateLimiter → Enforced × InMemoryRateLimiter
unfolding enforce client_ip
enforce_register_rate_limit client =
    enforce (str_append "register:" (client_ip client)) 5 600 "Too many registration attempts"

unfoldable pub enforce_command_rate_limit :
    ℕ → ℕ → InMemoryRateLimiter → Enforced × InMemoryRateLimiter
unfolding enforce str_ℕ
enforce_command_rate_limit user_id =
    enforce (str_append "commands:user:" (str_ℕ user_id)) 30 60 "Too many device commands"

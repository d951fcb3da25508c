-- ===== src/RateLimit/Refinement.antt =====
-- The limiter against its specification: a log of every time at which a key was admitted, and the
-- test that fewer than `limit` of them lie in the window that ends now. Dropping old times, per call
-- and in the periodic cleanup, is a matter of storage only.
use smart_monitor_back_end.Base.{
  ℕ, ◌+◌, ◌*◌, ◌≤◌, ◌≡◌, sym, ◌∙◌, subst, inl, inr, String, Bool, true, false, Option, none, some,
  List, [], ◌∷◌, ◌++◌, arith, ltb, if◌then◌else◌, Bool-cases, length, ap, lt→ltb, le→leb,
  le→ltb_false, gt→leb_false, ◌==◌, string_eq,
}
use native.Mathlib.Decide.{dec_le}
use smart_monitor_back_end.Base.Dict
use smart_monitor_back_end.RateLimit.{
  InMemoryRateLimiter, Decision, allowed, denied, crashed, deque, is_stale, is_live, second,
  max_window_seconds, cleanup_if_needed, pop_expired, decide, record_event, check_clean, check,
}
use smart_monitor_back_end.RateLimit.Windows.{
  Ordered, Retained, count_recent, Ordered-weaken, Ordered-append, pop_expired-Ordered,
  length-pop_expired, count_recent-Retained, pop_expired-Retained, Retained-later, Retained-append,
  pop_expired_stale,
}

abbrev pub Log : Type 0
Log = String → List ℕ

-- The log after a call that was admitted, or was not.
abbrev pub log_call : String → ℕ → Bool → Log → Log
log_call key now admitted log j =
    if key == j then (if admitted then log j ++ now ∷ [] else log j) else log j

unfoldable pub spec_allows : ℕ → ℕ → ℕ → List ℕ → Bool
spec_allows limit window now times = ltb (count_recent window now times) limit

unfoldable pub spec_check : String → ℕ → ℕ → ℕ → Log → Bool × Log
unfolding spec_allows
spec_check key limit window_seconds now log =
    let admitted = spec_allows limit (window_seconds * second) now (log key) in
    (admitted, log_call key now admitted log)

abbrev pub is_allowed : Decision → Bool
is_allowed allowed = true
is_allowed (denied _) = false
is_allowed crashed = false

-- The deque `es` stands for the log `times` of its key at time `t`.
abbrev pub Tracks : ℕ → ℕ → List ℕ → List ℕ → Type 0
Tracks window t es times = Ordered 0 es t × Retained window t es times

-- The limiter stands for the log at time `t`, where `window` gives each key's window in seconds.
abbrev pub Refines : (String → ℕ) → ℕ → InMemoryRateLimiter → Log → Type 0
Refines window t s log = (k : String) → Tracks (window k * second) t (deque (s.events k)) (log k)

Tracks-later :
    (w t now : ℕ) (es times : List ℕ) → t ≤ now → Tracks w t es times → Tracks w now es times
Tracks-later w t now es times h v =
    (Ordered-weaken 0 0 es t now (omega arith) h v.0, Retained-later w t now es times h v.1)

Tracks-pop_expired :
    (w t now : ℕ) (es times : List ℕ)
    → t ≤ now
    → Tracks w t es times
    → Tracks w now (pop_expired w now es) times
Tracks-pop_expired w t now es times h v = (
  pop_expired-Ordered w now 0 es now (Ordered-weaken 0 0 es t now (omega arith) h v.0),
  pop_expired-Retained w t now es times h v.1,
)

-- What the cleanup leaves of one entry.
Tracks-retain :
    (w t now : ℕ) (entry : Option (List ℕ)) (times : List ℕ)
    → w ≤ max_window_seconds * second
    → t ≤ now
    → Tracks w t (deque entry) times
    → Tracks w now (deque (Dict.keep_if (is_live now) entry)) times
Tracks-retain w t now none times small h v = Tracks-later w t now [] times h v
Tracks-retain w t now (some es) times small h v = elim (Bool-cases (is_stale now es)) [
  | inl e ↦ rw e (
      subst (λ l. Tracks w now l times) (pop_expired_stale w now 0 es t small v.0 e)
        (Tracks-pop_expired w t now es times h v))
  | inr e ↦ rw e (Tracks-later w t now es times h v)
]

cleanup_if_needed-Refines :
    (window : String → ℕ) (t now : ℕ) (s : InMemoryRateLimiter) (log : Log)
    → ((k : String) → window k ≤ max_window_seconds)
    → t ≤ now
    → Refines window t s log
    → Refines window now (cleanup_if_needed s now) log
unfolding cleanup_if_needed
cleanup_if_needed-Refines window t now s log small h v k =
    elim (Bool-cases (ltb now (s.last_cleanup + 60 * second))) [
      | inl e ↦ rw e (Tracks-later (window k * second) t now (deque (s.events k)) (log k) h (v k))
      | inr e ↦ rw e (
          Tracks-retain (window k * second) t now (s.events k) (log k) (omega (arith, small k)) h
            (v k))
    ]

decide-allowed :
    (limit w now : ℕ) (es : List ℕ) → is_allowed (decide limit w now es) ≡ ltb (length es) limit
unfolding decide
decide-allowed limit w now [] = ground arith
decide-allowed limit w now (e ∷ es) = ground arith

-- What `check` does with a deque whose expired part is gone.
decide-Tracks :
    (limit w now : ℕ) (es times : List ℕ)
    → length es ≡ count_recent w now times
    → Tracks w now es times
    → (is_allowed (decide limit w now es) ≡ spec_allows limit w now times)
      × Tracks w now
          (record_event limit now es)
          (if spec_allows limit w now times then times ++ now ∷ [] else times)
unfolding spec_allows record_event
decide-Tracks limit w now es times e v = (
  decide-allowed limit w now es ∙ ap (λ n. ltb n limit) e,
  elim (dec_le limit (length es)) [
    | yes full ↦
        rw
          (
            le→leb limit (length es) full,
            le→ltb_false (count_recent w now times) limit (omega arith),
          )
          v
    | no free ↦
        rw
          (
            gt→leb_false limit (length es) (omega arith),
            lt→ltb (count_recent w now times) limit (omega arith),
          )
          (Ordered-append 0 es now now (omega arith) v.0, Retained-append w now now es times v.1)
  ],
)

-- One call on the deque of its own key, with the times that have left the window popped.
record_event-Tracks :
    (limit w t now : ℕ) (es times : List ℕ)
    → t ≤ now
    → Tracks w t es times
    → (is_allowed (decide limit w now (pop_expired w now es)) ≡ spec_allows limit w now times)
      × Tracks w now
          (record_event limit now (pop_expired w now es))
          (if spec_allows limit w now times then times ++ now ∷ [] else times)
record_event-Tracks limit w t now es times h v =
    decide-Tracks limit w now (pop_expired w now es) times
      (length-pop_expired w now 0 es t v.0 ∙ sym (count_recent-Retained w t now es times h v.1))
      (Tracks-pop_expired w t now es times h v)

check_clean-Refines :
    (window : String → ℕ) (key : String) (limit t now : ℕ) (s : InMemoryRateLimiter) (log : Log)
    → t ≤ now
    → Refines window t s log
    → (is_allowed (check_clean key limit (window key) now s).0
        ≡ (spec_check key limit (window key) now log).0)
      × Refines window now
          (check_clean key limit (window key) now s).1
          (spec_check key limit (window key) now log).1
unfolding check_clean spec_check
check_clean-Refines window key limit t now s log h v = (
  here.0,
  λ k. elim (Bool-cases (key == k)) [
    | inl e ↦ rw e (subst at_key ((string_eq.beq_iff key k).0 e) here.1)
    | inr e ↦ rw e (Tracks-later (window k * second) t now (deque (s.events k)) (log k) h (v k))
  ],
)
  where
    here :
        (is_allowed (
            decide limit
              (window key * second)
              now
              (pop_expired (window key * second) now (deque (s.events key))))
          ≡ spec_allows limit (window key * second) now (log key))
        × Tracks
            (window key * second)
            now
            (record_event limit now (pop_expired (window key * second) now (deque (s.events key))))
            (if spec_allows limit (window key * second) now (log key)
              then (log key) ++ now ∷ []
              else (log key))
    here =
        record_event-Tracks limit (window key * second) t now (deque (s.events key)) (log key) h
          (v key)

    at_key : String → Type 0
    at_key k =
        Tracks (window k * second) now
          (record_event limit now (pop_expired (window key * second) now (deque (s.events key))))
          (if spec_allows limit (window key * second) now (log key)
            then (log k) ++ now ∷ []
            else (log k))

-- One call: the limiter admits it exactly when fewer than `limit` admitted times of its key lie in
-- the window, and stands for the log with the call added.
pub check-Refines :
    (window : String → ℕ) (key : String) (limit t now : ℕ) (s : InMemoryRateLimiter) (log : Log)
    → ((k : String) → window k ≤ max_window_seconds)
    → t ≤ now
    → Refines window t s log
    → (is_allowed (check key limit (window key) now s).0
        ≡ (spec_check key limit (window key) now log).0)
      × Refines window now
          (check key limit (window key) now s).1
          (spec_check key limit (window key) now log).1
unfolding check
check-Refines window key limit t now s log small h v =
    check_clean-Refines window key limit now now (cleanup_if_needed s now) log (omega arith)
      (cleanup_if_needed-Refines window t now s log small h v)

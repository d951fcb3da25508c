-- ===== src/RateLimit/Runs.antt =====
-- app/rate_limit.py: whole histories of calls, next to the specification.
use smart_monitor_back_end.Base.{
  ℕ, ◌+◌, ◌*◌, ◌≤◌, ◌≡◌, refl, String, Bool, true, false, List, [], ◌∷◌, ◌++◌, arith, if◌then◌else◌,
  Bool-cases, ◌==◌, string_eq, inl, inr, ap, ap₂, All, subst, sym, eq_iff,
}
use smart_monitor_back_end.RateLimit.{InMemoryRateLimiter, check, init, second, max_window_seconds}
use smart_monitor_back_end.RateLimit.Windows.{count_recent, count_recent_mono, count_recent-append}
use smart_monitor_back_end.RateLimit.Refinement.{
  Log, is_allowed, spec_allows, spec_check, Refines, check-Refines,
}

-- A call of `check`: its key and its time. The routes fix a limit and a window for each key.
pub record Call : Type 0 where
  pub key : String
  pub now : ℕ

module _ (limit window : String → ℕ) where
  -- the decisions of the calls, in order
  unfoldable pub run : List Call → InMemoryRateLimiter → List Bool
  run [] s = []
  run (c ∷ cs) s =
      let (d, s') = check c.key (limit c.key) (window c.key) c.now s in is_allowed d ∷ run cs s'

  unfoldable pub spec_run : List Call → Log → List Bool
  spec_run [] log = []
  spec_run (c ∷ cs) log =
      let (admitted, log') = spec_check c.key (limit c.key) (window c.key) c.now log in
      admitted ∷ spec_run cs log'

-- The times of the calls do not decrease, and begin no earlier than `t`.
abbrev pub InOrder : ℕ → List Call → Type 0
InOrder t [] = Unit
InOrder t (c ∷ cs) = (t ≤ c.now) × InOrder c.now cs

abbrev pub no_calls : Log
no_calls key = []

run_from :
    (limit window : String → ℕ) (cs : List Call) (t : ℕ) (s : InMemoryRateLimiter) (log : Log)
    → ((k : String) → window k ≤ max_window_seconds)
    → InOrder t cs
    → Refines window t s log
    → run limit window cs s ≡ spec_run limit window cs log
unfolding run spec_run
run_from limit window [] t s log small o v = refl
run_from limit window (c ∷ cs) t s log small o v =
    let step = check-Refines window c.key (limit c.key) t c.now s log small o.0 v in
    ap₂ ◌∷◌ step.0 (run_from limit window cs c.now _ _ small o.1 step.1)

-- From a fresh limiter, every history of calls in order of time, each with its key's limit and with
-- its key's window of at most MAX_WINDOW_SECONDS, gets exactly the decisions of the specification:
-- a call is admitted when fewer than `limit` admitted calls of its key lie in the window that ends
-- with it. Neither the pops nor the periodic cleanup is ever seen.
pub run-eq-spec_run :
    (limit window : String → ℕ) (cs : List Call) (t : ℕ)
    → ((k : String) → window k ≤ max_window_seconds)
    → InOrder t cs
    → run limit window cs (init t) ≡ spec_run limit window cs no_calls
unfolding init
run-eq-spec_run limit window cs t small o =
    run_from limit window cs t (init t) no_calls small o (λ k. (omega arith, refl))

-- The admitted times of a key among the calls, given the decisions.
abbrev pub admitted_times : String → List Call → List Bool → List ℕ
admitted_times key [] ds = []
admitted_times key (c ∷ cs) [] = []
admitted_times key (c ∷ cs) (d ∷ ds) =
    if key == c.key
    then (if d then c.now ∷ admitted_times key cs ds else admitted_times key cs ds)
    else admitted_times key cs ds

module _ (limit window : String → ℕ) where
  abbrev spec_call : Call → Log → Bool × Log
  spec_call c log = spec_check c.key (limit c.key) (window c.key) c.now log

  spec_call_other :
      (c : Call) (key : String) (log : Log)
      → (key == c.key) ≡ false
      → (spec_call c log).1 key ≡ log key
  unfolding spec_check
  spec_call_other c key log e = ground (arith, eq_iff c.key key, eq_iff key c.key)

  spec_call_same :
      (c : Call) (key : String) (log : Log)
      → key ≡ c.key
      → ((spec_call c log).1 key ≡ (if (spec_call c log).0 then log key ++ c.now ∷ [] else log key))
        × ((spec_call c log).0 ≡ spec_allows (limit key) (window key * second) c.now (log key))
  unfolding spec_check
  spec_call_same c key log e = (ground (arith, eq_iff c.key key), cc)

count_recent_grown :
    (limit w n : ℕ) (log : List ℕ)
    → count_recent w n log ≤ limit
    → count_recent w n (if spec_allows limit w n log then log ++ n ∷ [] else log) ≤ limit
unfolding spec_allows
count_recent_grown limit w n log h = ground (arith, count_recent-append w n log (n ∷ []))

count_recent_moved :
    (w now n : ℕ) (b : Bool) (log rest : List ℕ)
    → count_recent w now (if b then log ++ n ∷ [] else log) + count_recent w now rest
      ≡ count_recent w now log + count_recent w now (if b then n ∷ rest else rest)
count_recent_moved w now n true log rest = omega (arith, count_recent-append w now log (n ∷ []))
count_recent_moved w now n false log rest = refl

spec_run-count :
    (limit window : String → ℕ) (key : String) (now : ℕ) (cs : List Call) (t : ℕ) (log : Log)
    → InOrder t cs
    → t ≤ now
    → All (λ c. c.now ≤ now) cs
    → count_recent (window key * second) t (log key) ≤ limit key
    → count_recent (window key * second) now (log key)
        + count_recent
            (window key * second)
            now
            (admitted_times key cs (spec_run limit window cs log))
      ≤ limit key
unfolding spec_run
spec_run-count limit window key now [] t log o h u b =
    omega (arith, count_recent_mono (window key * second) t now (log key) h)
spec_run-count limit window key now (c ∷ cs) t log o h u b =
    let w = window key * second in
    let log' = (spec_call limit window c log).1 in
    let admitted = (spec_call limit window c log).0 in
    let rest = admitted_times key cs (spec_run limit window cs log') in
    let later : count_recent w c.now (log key) ≤ limit key =
      omega (arith, count_recent_mono w t c.now (log key) o.0) in
    let ih : count_recent w c.now (log' key) ≤ limit key
        → count_recent w now (log' key) + count_recent w now rest ≤ limit key =
      spec_run-count limit window key now cs c.now log' o.1 u.0 u.1 in
    elim (Bool-cases (key == c.key)) [
      | inl e ↦
          let (grown, decision) =
            spec_call_same limit window c key log ((string_eq.beq_iff key c.key).0 e) in
          let within : count_recent w c.now (log' key) ≤ limit key =
            subst (λ l. count_recent w c.now l ≤ limit key) (sym grown)
              (subst
                (λ d.
                  count_recent w c.now (if d then log key ++ c.now ∷ [] else log key) ≤ limit key)
                (sym decision) (count_recent_grown (limit key) w c.now (log key) later)) in
          rw e (
            omega (
              arith,
              ih within,
              count_recent_moved w now c.now admitted (log key) rest,
              ap (count_recent w now) grown,
            ))
      | inr e ↦ rw e (
          subst
            (λ l.
              count_recent w c.now l ≤ limit key
              → count_recent w now l + count_recent w now rest ≤ limit key)
            (spec_call_other limit window c key log e) ih later)
    ]

-- After any history of calls on a fresh limiter, in order of time and with windows of at most
-- MAX_WINDOW_SECONDS, and at any time `now` no earlier than its calls, at most `limit` of the
-- admitted calls of a key lie in that key's window that ends at `now`.
pub run_within_limit :
    (limit window : String → ℕ) (key : String) (cs : List Call) (t now : ℕ)
    → ((k : String) → window k ≤ max_window_seconds)
    → InOrder t cs
    → t ≤ now
    → All (λ c. c.now ≤ now) cs
    → count_recent (window key * second) now (admitted_times key cs (run limit window cs (init t)))
      ≤ limit key
run_within_limit limit window key cs t now small o h u =
    rw (run-eq-spec_run limit window cs t small o)
      (omega (arith, spec_run-count limit window key now cs t no_calls o h u (omega arith)))

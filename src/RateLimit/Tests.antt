-- ===== src/RateLimit/Tests.antt =====
-- Runs of the limiter at concrete inputs, and the theorems at inputs that meet their hypotheses.
use smart_monitor_back_end.Base.{
  ℕ, ◌*◌, ◌≤◌, ◌≡◌, ◌≢◌, refl, String, true, false, List, [], ◌∷◌, arith, string_eq, some,
}
use smart_monitor_back_end.RateLimit.{
  InMemoryRateLimiter, allowed, denied, check, init, second, passed, enforce_login_rate_limit,
  enforce_command_rate_limit,
}
use smart_monitor_back_end.RateLimit.Windows.{count_recent}
use smart_monitor_back_end.RateLimit.Runs.{
  Call, run, spec_run, no_calls, admitted_times, run-eq-spec_run, run_within_limit,
}
use smart_monitor_back_end.RateLimit.Retry.{after_calls, check_after_retry}

abbrev two : String → ℕ
two key = 2

abbrev minute : String → ℕ
minute key = 60

-- Two calls of one client pass, the third is denied, another client passes; 70 seconds on, behind
-- a cleanup, the first client passes again.
abbrev calls : List Call
calls =
    record { key = "login:a"; now = 1 * second }
    ∷ record { key = "login:a"; now = 2 * second }
    ∷ record { key = "login:a"; now = 3 * second }
    ∷ record { key = "login:b"; now = 3 * second }
    ∷ record { key = "login:a"; now = 73 * second }
    ∷ []

run-calls : run two minute calls (init 0) ≡ true ∷ true ∷ false ∷ true ∷ true ∷ []
unfolding run check init
run-calls = refl

run-eq-spec_run_example : run two minute calls (init 0) ≡ spec_run two minute calls no_calls
run-eq-spec_run_example = run-eq-spec_run two minute calls 0 (λ k. omega arith) (omega arith)

run_within_limit_example :
    count_recent
      (60 * second)
      (74 * second)
      (admitted_times "login:a" calls (run two minute calls (init 0)))
    ≤ 2
run_within_limit_example =
    run_within_limit two minute "login:a" calls 0 (74 * second) (λ k. omega arith) (omega arith)
      (omega arith) (omega arith)

abbrev one : String → ℕ
one key = 1

abbrev busy : InMemoryRateLimiter
busy = (check "login:a" 1 60 (5 * second) (init 0)).1

busy_denied : (check "login:a" 1 60 (6 * second) busy).0 ≡ denied 59
unfolding check init
busy_denied = refl

-- Another client, whose second call is behind a cleanup.
abbrev meanwhile : List Call
meanwhile =
    record { key = "login:b"; now = 7 * second }
    ∷ record { key = "login:b"; now = 64 * second }
    ∷ []

other_client : ◌≢◌ {A = String} "login:b" "login:a"
other_client e = cc ((string_eq.beq_iff "login:b" "login:a").1 e)

check_after_retry_example :
    (check "login:a" 1 60
      (65 * second)
      (after_calls one minute meanwhile (check "login:a" 1 60 (6 * second) busy).1)).0
    ≡ allowed
unfolding check init
check_after_retry_example =
    check_after_retry one minute "login:a" (6 * second) (65 * second) 59 meanwhile busy
      (omega arith) busy_denied (other_client, (other_client, tt)) (omega arith)

first_login_passes : (enforce_login_rate_limit (some "10.0.0.1") 0 (init 0)).0 ≡ passed
unfolding enforce_login_rate_limit init
first_login_passes = refl

command_passes : (enforce_command_rate_limit 1024 0 (init 0)).0 ≡ passed
unfolding enforce_command_rate_limit init
command_passes = refl

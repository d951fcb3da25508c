-- ===== src/RateLimit/Retry.antt =====
-- The header `Retry-After` of app/rate_limit.py: how long a rejected client has to wait.
use smart_monitor_back_end.Base.{
  ℕ, ◌+◌, ◌*◌, ◌≤◌, ◌<◌, ◌≡◌, ◌≢◌, All, ◌==◌, refl, ◌∙◌, ◌⊎◌, inl, inr, ap, sym, String, List, [],
  ◌∷◌, arith, ltb, Bool-cases, length, gt→leb_false, Option, none, some, beq_self, string_eq,
  length-append,
}
use smart_monitor_back_end.Base.Dict
use smart_monitor_back_end.RateLimit.Runs.{Call}
use smart_monitor_back_end.RateLimit.Windows.{pop_expired_gone}
use smart_monitor_back_end.RateLimit.{
  InMemoryRateLimiter, allowed, denied, deque, is_stale, is_live, second, pop_expired, decide,
  record_event, check, retry_after, cleanup_if_needed,
}

length-pop_expired_le : (w now : ℕ) (xs : List ℕ) → length (pop_expired w now xs) ≤ length xs
unfolding pop_expired
length-pop_expired_le w now [] = omega arith
length-pop_expired_le w now (x ∷ xs) = ground (arith, length-pop_expired_le w now xs)

-- The cleanup keeps a deque or drops it whole.
deque-retain :
    (now : ℕ) (entry : Option (List ℕ))
    → (deque (Dict.keep_if (is_live now) entry) ≡ deque entry)
      ⊎ (deque (Dict.keep_if (is_live now) entry) ≡ [])
deque-retain now none = inl refl
deque-retain now (some es) = elim (Bool-cases (is_stale now es)) [
  | inl e ↦ inr (rw e)
  | inr e ↦ inl (rw e)
]

deque-cleanup_if_needed :
    (s : InMemoryRateLimiter) (now : ℕ) (key : String)
    → (deque ((cleanup_if_needed s now).events key) ≡ deque (s.events key))
      ⊎ (deque ((cleanup_if_needed s now).events key) ≡ [])
unfolding cleanup_if_needed
deque-cleanup_if_needed s now key = elim (Bool-cases (ltb now (s.last_cleanup + 60 * second))) [
  | inl e ↦ rw e (inl refl)
  | inr e ↦ rw e (deque-retain now (s.events key))
]

-- The deque of the key as `check` sees it, behind the cleanup and the pops.
abbrev pub seen : String → ℕ → ℕ → InMemoryRateLimiter → List ℕ
seen key window now s =
    pop_expired (window * second) now (deque ((cleanup_if_needed s now).events key))

seen_cases :
    (key : String) (window now : ℕ) (s : InMemoryRateLimiter)
    → (seen key window now s ≡ pop_expired (window * second) now (deque (s.events key)))
      ⊎ (length (seen key window now s) ≡ 0)
seen_cases key window now s = elim (deque-cleanup_if_needed s now key) [
  | inl e ↦ inl (ap (pop_expired (window * second) now) e)
  | inr e ↦ inr (rw e (unfold pop_expired in refl))
]

length-seen_le :
    (key : String) (window now : ℕ) (s : InMemoryRateLimiter)
    → length (seen key window now s) ≤ length (deque (s.events key))
length-seen_le key window now s = elim (seen_cases key window now s) [
  | inl e ↦ rw e (length-pop_expired_le (window * second) now (deque (s.events key)))
  | inr e ↦ omega arith
]

check-decision :
    (key : String) (limit window now : ℕ) (s : InMemoryRateLimiter)
    → (check key limit window now s).0 ≡ decide limit (window * second) now (seen key window now s)
unfolding check
check-decision key limit window now s = refl

check-deque :
    (key : String) (limit window now : ℕ) (s : InMemoryRateLimiter)
    → deque ((check key limit window now s).1.events key)
      ≡ record_event limit now (seen key window now s)
unfolding check
check-deque key limit window now s = rw (beq_self key)

decide-denied :
    (limit w now r : ℕ) (es : List ℕ)
    → decide limit w now es ≡ denied r
    → (e : ℕ) × (rest : List ℕ) × (es ≡ e ∷ rest) × (limit ≤ length es) × (r ≡ retry_after e w now)
unfolding decide
decide-denied limit w now r [] h = absurd (ground arith)
decide-denied limit w now r (e ∷ es) h = (e, es, refl, ground arith, ground arith)

retry_after_enough : (e w now : ℕ) → e + w ≤ now + retry_after e w now * second
unfolding retry_after
retry_after_enough e w now = omega arith

-- What a denied call leaves behind is shorter than the limit once the wait is over.
after_wait :
    (limit w now later r : ℕ) (es : List ℕ)
    → length es ≤ limit
    → decide limit w now es ≡ denied r
    → now + r * second ≤ later
    → length (pop_expired w later es) < limit
after_wait limit w now later r es cap h wait =
    let (e, rest, shape, full, wait_eq) = decide-denied limit w now r es h in
    let gone : e + w ≤ later = omega (arith, retry_after_enough e w now) in
    let popped : pop_expired w later es ≡ pop_expired w later rest =
      ap (pop_expired w later) shape ∙ pop_expired_gone w later e rest gone in
    omega (arith, ap length popped, ap length shape, length-pop_expired_le w later rest)

record_event_full :
    (limit now : ℕ) (es : List ℕ) → limit ≤ length es → record_event limit now es ≡ es
unfolding record_event
record_event_full limit now es h = ground arith

decide_free : (limit w now : ℕ) (es : List ℕ) → length es < limit → decide limit w now es ≡ allowed
unfolding decide
decide_free limit w now es h = rw (gt→leb_false limit (length es) h)

length-record_event :
    (limit now : ℕ) (es : List ℕ) → length es ≤ limit → length (record_event limit now es) ≤ limit
unfolding record_event
length-record_event limit now es h = ground (arith, length-append es (now ∷ []))

-- A key whose deque is within its limit stays within it.
pub check-length :
    (key : String) (limit window now : ℕ) (s : InMemoryRateLimiter)
    → length (deque (s.events key)) ≤ limit
    → length (deque ((check key limit window now s).1.events key)) ≤ limit
check-length key limit window now s h = rw (check-deque key limit window now s) (
    length-record_event limit now (seen key window now s)
      (omega (arith, length-seen_le key window now s)))

-- The limiter after calls, of any keys with their limits and windows.
abbrev pub after_calls :
    (String → ℕ) → (String → ℕ) → List Call → InMemoryRateLimiter → InMemoryRateLimiter
after_calls limit window [] s = s
after_calls limit window (c ∷ cs) s =
    after_calls limit window cs (check c.key (limit c.key) (window c.key) c.now s).1

check-other :
    (other key : String) (limit window now : ℕ) (s : InMemoryRateLimiter)
    → other ≢ key
    → (check other limit window now s).1.events key ≡ (cleanup_if_needed s now).events key
unfolding check
check-other other key limit window now s h = elim (Bool-cases (other == key)) [
  | inl e ↦ absurd (h ((string_eq.beq_iff other key).0 e))
  | inr e ↦ rw e
]

-- Calls of other keys leave the deque of a key, or their cleanups drop it.
deque-after_calls :
    (limit window : String → ℕ) (key : String) (cs : List Call) (s : InMemoryRateLimiter)
    → All (λ c. c.key ≢ key) cs
    → (deque ((after_calls limit window cs s).events key) ≡ deque (s.events key))
      ⊎ (deque ((after_calls limit window cs s).events key) ≡ [])
deque-after_calls limit window key [] s h = inl refl
deque-after_calls limit window key (c ∷ cs) s h =
    let s' = (check c.key (limit c.key) (window c.key) c.now s).1 in
    let same = ap deque (check-other c.key key (limit c.key) (window c.key) c.now s h.0) in
    elim (deque-after_calls limit window key cs s' h.1) [
      | inr gone ↦ inr gone
      | inl kept ↦ elim (deque-cleanup_if_needed s c.now key) [
        | inl e ↦ inl (kept ∙ same ∙ e)
        | inr e ↦ inr (kept ∙ same ∙ e)
      ]
    ]

free_then :
    (key : String) (limit window later : ℕ) (s : InMemoryRateLimiter) (es : List ℕ)
    → (deque (s.events key) ≡ es) ⊎ (deque (s.events key) ≡ [])
    → length (pop_expired (window * second) later es) < limit
    → length (seen key window later s) < limit
free_then key limit window later s es kept free =
    let popped = length-seen_le key window later s in
    elim kept [
      | inr gone ↦ omega (arith, popped, ap length gone, free)
      | inl same ↦ elim (seen_cases key window later s) [
        | inl e ↦ omega (
          arith,
          free,
          ap length e,
          ap (λ l. length (pop_expired (window * second) later l)) same,
        )
        | inr e ↦ omega (arith, free, e)
      ]
    ]

-- A client that is denied with `Retry-After: r` is admitted at every time at least `r` seconds later,
-- whatever calls of other keys, at any times, there are meanwhile, if there is none of its own key (for
-- a deque within its limit, which every call keeps).
pub check_after_retry :
    (limit window : String → ℕ) (key : String) (now later r : ℕ) (cs : List Call)
    (s : InMemoryRateLimiter)
    → length (deque (s.events key)) ≤ limit key
    → (check key (limit key) (window key) now s).0 ≡ denied r
    → All (λ c. c.key ≢ key) cs
    → now + r * second ≤ later
    → (check key
        (limit key)
        (window key)
        later
        (after_calls limit window cs (check key (limit key) (window key) now s).1)).0
      ≡ allowed
check_after_retry limit window key now later r cs s cap h others wait =
    check-decision key (limit key) (window key) later (after_calls limit window cs after)
    ∙ decide_free (limit key) (window key * second) later
        (seen key (window key) later (after_calls limit window cs after))
        (free_then key (limit key) (window key) later (after_calls limit window cs after) es still
          free)
  where
    after : InMemoryRateLimiter
    after = (check key (limit key) (window key) now s).1

    es : List ℕ
    es = seen key (window key) now s

    full : decide (limit key) (window key * second) now es ≡ denied r
    full = sym (check-decision key (limit key) (window key) now s) ∙ h

    kept : deque (after.events key) ≡ es
    kept =
        check-deque key (limit key) (window key) now s
        ∙ record_event_full (limit key) now es
            (decide-denied (limit key) (window key * second) now r es full).3

    still :
        (deque ((after_calls limit window cs after).events key) ≡ es)
        ⊎ (deque ((after_calls limit window cs after).events key) ≡ [])
    still = elim (deque-after_calls limit window key cs after others) [
      | inl e ↦ inl (e ∙ kept)
      | inr e ↦ inr e
    ]

    free : length (pop_expired (window key * second) later es) < limit key
    free =
        after_wait (limit key) (window key * second) now later r es
          (omega (arith, length-seen_le key (window key) now s)) full wait

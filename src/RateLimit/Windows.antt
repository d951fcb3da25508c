-- ===== src/RateLimit/Windows.antt =====
-- app/rate_limit.py: the deque of one key under the pops and the cleanup.
use smart_monitor_back_end.Base.{
  ℕ, ◌+◌, ◌*◌, ◌≤◌, ◌<◌, ◌≡◌, refl, sym, ◌∙◌, subst, ◌⊎◌, inl, inr, true, List, [], ◌∷◌, ◌++◌,
  arith, leb, if◌then◌else◌, Bool-cases, length,
}
use native.Mathlib.Decide.{dec_le}
use smart_monitor_back_end.RateLimit.{max_window_seconds, second, is_stale, pop_expired}

-- `xs` is in order between the two bounds.
abbrev pub Ordered : ℕ → List ℕ → ℕ → Type 0
Ordered lo [] hi = lo ≤ hi
Ordered lo (x ∷ xs) hi = (lo ≤ x) × Ordered x xs hi

-- How many of the times are still inside the window that ends at `now`.
abbrev pub count_recent : ℕ → ℕ → List ℕ → ℕ
count_recent window now [] = 0
count_recent window now (x ∷ xs) =
    (if leb (x + window) now then 0 else 1) + count_recent window now xs

-- `es` is `log` without a prefix that has left the window at time `t`.
abbrev pub Retained : ℕ → ℕ → List ℕ → List ℕ → Type 0
Retained window t es [] = es ≡ []
Retained window t es (x ∷ log) = (es ≡ x ∷ log) ⊎ (x + window ≤ t) × Retained window t es log

pub Ordered-weaken :
    (lo lo' : ℕ) (xs : List ℕ) (hi hi' : ℕ)
    → lo' ≤ lo
    → hi ≤ hi'
    → Ordered lo xs hi
    → Ordered lo' xs hi'
Ordered-weaken lo lo' [] hi hi' h k o = omega arith
Ordered-weaken lo lo' (x ∷ xs) hi hi' h k o =
    (omega arith, Ordered-weaken x x xs hi hi' (omega arith) k o.1)

pub Ordered-append :
    (lo : ℕ) (xs : List ℕ) (hi n : ℕ) → hi ≤ n → Ordered lo xs hi → Ordered lo (xs ++ n ∷ []) n
Ordered-append lo [] hi n h o = omega arith
Ordered-append lo (x ∷ xs) hi n h o = (o.0, Ordered-append x xs hi n h o.1)

pub pop_expired-Ordered :
    (w now lo : ℕ) (xs : List ℕ) (hi : ℕ) → Ordered lo xs hi → Ordered lo (pop_expired w now xs) hi
unfolding pop_expired
pop_expired-Ordered w now lo [] hi o = o
pop_expired-Ordered w now lo (x ∷ xs) hi o = elim (Bool-cases (leb (x + w) now)) [
  | inl e ↦
      rw e (pop_expired-Ordered w now lo xs hi (Ordered-weaken x lo xs hi hi o.0 (omega arith) o.1))
  | inr e ↦ rw e o
]

-- In an ordered deque whose head is inside the window, every time is.
pub count_recent_all :
    (w now lo : ℕ) (xs : List ℕ) (hi : ℕ)
    → now < lo + w
    → Ordered lo xs hi
    → count_recent w now xs ≡ length xs
count_recent_all w now lo [] hi h o = refl
count_recent_all w now lo (x ∷ xs) hi h o =
    ground (arith, count_recent_all w now x xs hi (omega arith) o.1)

-- After the pops the deque holds exactly the times inside the window.
pub length-pop_expired :
    (w now lo : ℕ) (xs : List ℕ) (hi : ℕ)
    → Ordered lo xs hi
    → length (pop_expired w now xs) ≡ count_recent w now xs
unfolding pop_expired
length-pop_expired w now lo [] hi o = refl
length-pop_expired w now lo (x ∷ xs) hi o =
    ground (arith, length-pop_expired w now x xs hi o.1, count_recent_all w now x xs hi)

pub count_recent-Retained :
    (w t now : ℕ) (es log : List ℕ)
    → t ≤ now
    → Retained w t es log
    → count_recent w now log ≡ count_recent w now es
count_recent-Retained w t now es [] h r = rw r
count_recent-Retained w t now es (x ∷ log) h (inl same) = rw same
count_recent-Retained w t now es (x ∷ log) h (inr (gone, r)) =
    ground (arith, count_recent-Retained w t now es log h r)

pub pop_expired_gone :
    (w now x : ℕ) (xs : List ℕ) → x + w ≤ now → pop_expired w now (x ∷ xs) ≡ pop_expired w now xs
unfolding pop_expired
pop_expired_gone w now x xs h = ground arith

pop_expired_kept : (w now x : ℕ) (xs : List ℕ) → now < x + w → pop_expired w now (x ∷ xs) ≡ x ∷ xs
unfolding pop_expired
pop_expired_kept w now x xs h = ground arith

pop_expired-Retained_self : (w now : ℕ) (log : List ℕ) → Retained w now (pop_expired w now log) log
unfolding pop_expired
pop_expired-Retained_self w now [] = refl
pop_expired-Retained_self w now (x ∷ log) = elim (dec_le (x + w) now) [
  | yes e ↦
      subst (λ l. Retained w now l (x ∷ log)) (sym (pop_expired_gone w now x log e))
        (inr (e, pop_expired-Retained_self w now log))
  | no e ↦ inl (pop_expired_kept w now x log (omega arith))
]

pub Retained-later :
    (w t now : ℕ) (es log : List ℕ) → t ≤ now → Retained w t es log → Retained w now es log
Retained-later w t now es [] h r = r
Retained-later w t now es (x ∷ log) h (inl same) = inl same
Retained-later w t now es (x ∷ log) h (inr (gone, r)) =
    inr (omega arith, Retained-later w t now es log h r)

pub pop_expired-Retained :
    (w t now : ℕ) (es log : List ℕ)
    → t ≤ now
    → Retained w t es log
    → Retained w now (pop_expired w now es) log
unfolding pop_expired
pop_expired-Retained w t now es [] h r = rw r refl
pop_expired-Retained w t now es (x ∷ log) h (inl same) =
    subst (λ l. Retained w now (pop_expired w now l) (x ∷ log)) (sym same)
      (pop_expired-Retained_self w now (x ∷ log))
pop_expired-Retained w t now es (x ∷ log) h (inr (gone, r)) =
    inr (omega arith, pop_expired-Retained w t now es log h r)

pub Retained-append :
    (w t n : ℕ) (es log : List ℕ)
    → Retained w t es log
    → Retained w t (es ++ n ∷ []) (log ++ n ∷ [])
Retained-append w t n es [] r = rw r (inl refl)
Retained-append w t n es (x ∷ log) (inl same) = rw same (inl refl)
Retained-append w t n es (x ∷ log) (inr (gone, r)) = inr (gone, Retained-append w t n es log r)

stale-le :
    (now x : ℕ) (xs : List ℕ) (hi : ℕ)
    → Ordered x xs hi
    → is_stale now (x ∷ xs) ≡ true
    → x + max_window_seconds * second ≤ now
unfolding is_stale
stale-le now x [] hi o s = ground arith
stale-le now x (y ∷ ys) hi o s = omega (arith, stale-le now y ys hi o.1 s)

-- A deque that the cleanup drops has left every window that the program uses.
pub pop_expired_stale :
    (w now lo : ℕ) (xs : List ℕ) (hi : ℕ)
    → w ≤ max_window_seconds * second
    → Ordered lo xs hi
    → is_stale now xs ≡ true
    → pop_expired w now xs ≡ []
unfolding is_stale
pop_expired_stale w now lo [] hi h o s = unfold pop_expired in refl
pop_expired_stale w now lo (x ∷ []) hi h o s =
    pop_expired_gone w now x [] (omega (arith, stale-le now x [] hi o.1 s))
    ∙ (unfold pop_expired in refl)
pop_expired_stale w now lo (x ∷ y ∷ ys) hi h o s =
    pop_expired_gone w now x (y ∷ ys) (omega (arith, stale-le now x (y ∷ ys) hi o.1 s))
    ∙ pop_expired_stale w now x (y ∷ ys) hi h o.1 s

pub count_recent_mono :
    (w t now : ℕ) (xs : List ℕ) → t ≤ now → count_recent w now xs ≤ count_recent w t xs
count_recent_mono w t now [] h = omega arith
count_recent_mono w t now (x ∷ xs) h = ground (arith, count_recent_mono w t now xs h)

pub count_recent-append :
    (w now : ℕ) (xs ys : List ℕ)
    → count_recent w now (xs ++ ys) ≡ count_recent w now xs + count_recent w now ys
count_recent-append w now [] ys = omega arith
count_recent-append w now (x ∷ xs) ys = ground (arith, count_recent-append w now xs ys)

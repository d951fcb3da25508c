-- ===== src/IngestionCache/Histories.antt =====
-- app/ingestion_cache.py: histories of calls, and a description of their effect on a channel by the
-- times that they name.
use smart_monitor_back_end.Base.{
  ℕ, ◌≤◌, eqb_iff, max, ◌≡◌, refl, sym, ◌∙◌, ap, subst, false, Option, none, some, List, [], ◌∷◌,
  arith, keep, if◌then◌else◌, ◌==◌, nat_eq, string_eq, pair_eq, Bool-cases, inl, inr, beq_self,
}
use smart_monitor_back_end.IngestionCache.{
  PowerChannelState, Key, PowerIngestionCache, init, get, set_if_absent, record_measurement,
  ignored, put_if_absent,
}

-- A call that may change the cache.
pub data Call : Type 0 where
  sets : Key → PowerChannelState → Call
  records : Key → ℕ → ℕ → Call

abbrev pub call_key : Call → Key
call_key (sets key state) = key
call_key (records key channel_id measured_at) = key

abbrev pub apply : Call → PowerIngestionCache → PowerIngestionCache
apply (sets key state) states = (set_if_absent key state states).1
apply (records key channel_id measured_at) states =
    record_measurement key channel_id measured_at states

abbrev pub run : List Call → PowerIngestionCache → PowerIngestionCache
run [] states = states
run (c ∷ cs) states = run cs (apply c states)

-- The times measured for a channel.
abbrev pub times : ℕ → List Call → List ℕ
times channel_id [] = []
times channel_id (sets key state ∷ cs) = times channel_id cs
times channel_id (records key id measured_at ∷ cs) =
    if channel_id == id then measured_at ∷ times channel_id cs else times channel_id cs

abbrev pub later : Option ℕ → Option ℕ → Option ℕ
later none b = b
later (some a) none = some a
later (some a) (some b) = some (max a b)

abbrev pub latest : List ℕ → Option ℕ
latest [] = none
latest (t ∷ ts) = later (some t) (latest ts)

-- The state of a channel after the calls on its key.
abbrev pub summary : List Call → Option PowerChannelState
summary [] = none
summary (sets key state ∷ cs) = some (record {
  channel_id = state.channel_id;
  last_measured_at = later state.last_measured_at (latest (times state.channel_id cs));
})
summary (records key id measured_at ∷ cs) =
    some (record { channel_id = id; last_measured_at = latest (measured_at ∷ times id cs) })

-- What one call does to the entry of its key.
abbrev pub step : Call → Option PowerChannelState → Option PowerChannelState
step (sets key state) none = some state
step (sets key state) (some existing) = some existing
step (records key id measured_at) entry =
    if ignored id measured_at entry
    then entry
    else some (record { channel_id = id; last_measured_at = some measured_at })

abbrev pub steps : List Call → Option PowerChannelState → Option PowerChannelState
steps [] entry = entry
steps (c ∷ cs) entry = steps cs (step c entry)

put-own :
    (key : Key) (state : PowerChannelState) (states : PowerIngestionCache)
    (entry : Option PowerChannelState)
    → states key ≡ entry
    → put_if_absent entry key state states key ≡ step (sets key state) entry
put-own key state states none h = rw (beq_self key)
put-own key state states (some existing) h = h

put-other :
    (key k : Key) (state : PowerChannelState) (states : PowerIngestionCache)
    (entry : Option PowerChannelState)
    → (key == k) ≡ false
    → put_if_absent entry key state states k ≡ states k
put-other key k state states none h = rw h
put-other key k state states (some existing) h = refl

apply-own :
    (c : Call) (states : PowerIngestionCache)
    → apply c states (call_key c) ≡ step c (states (call_key c))
unfolding set_if_absent record_measurement
apply-own (sets key state) states = put-own key state states (states key) refl
apply-own (records key id measured_at) states =
    elim (Bool-cases (ignored id measured_at (states key))) [
      | inl e ↦ rw e
      | inr e ↦ rw (e, beq_self key)
    ]

apply-other :
    (c : Call) (states : PowerIngestionCache) (k : Key)
    → (call_key c == k) ≡ false
    → apply c states k ≡ states k
unfolding set_if_absent record_measurement
apply-other (sets key state) states k h = put-other key k state states (states key) h
apply-other (records key id measured_at) states k h =
    elim (Bool-cases (ignored id measured_at (states key))) [ inl e ↦ rw e | inr e ↦ rw (e, h) ]

-- The entry of a key sees the calls on that key, and no others.
run-eq-steps :
    (cs : List Call) (states : PowerIngestionCache) (k : Key)
    → run cs states k ≡ steps (keep (λ c. call_key c == k) cs) (states k)
run-eq-steps [] states k = refl
run-eq-steps (c ∷ cs) states k = elim (Bool-cases (call_key c == k)) [
  | inl e ↦ rw e (
      run-eq-steps cs (apply c states) k
      ∙ ap (steps (keep (λ c. call_key c == k) cs)) (
          subst (λ j. apply c states j ≡ step c (states j)) ((pair_eq.beq_iff (call_key c) k).0 e)
            (apply-own c states)))
  | inr e ↦ rw e (
      run-eq-steps cs (apply c states) k
      ∙ ap (steps (keep (λ c. call_key c == k) cs)) (apply-other c states k e))
]

later_assoc : (a b c : Option ℕ) → later (later a b) c ≡ later a (later b c)
later_assoc none b c = refl
later_assoc (some a) none c = refl
later_assoc (some a) (some b) none = refl
later_assoc (some a) (some b) (some c) = ap some (omega arith)

later-none : (a : Option ℕ) → later a none ≡ a
later-none none = refl
later-none (some a) = refl

-- The entry of a channel that is known: its id, and the latest of its times.
abbrev known : ℕ → Option ℕ → Option PowerChannelState
known id last = some (record { channel_id = id; last_measured_at = last })

max_left : (a b : ℕ) → b ≤ a → max a b ≡ a
max_left a b h = omega arith

max_right : (a b : ℕ) → a ≤ b → max a b ≡ b
max_right a b h = omega arith

step-records :
    (key : Key) (id other t : ℕ) (last : Option ℕ)
    → step (records key other t) (known id last)
      ≡ known id (if id == other then later last (some t) else last)
unfolding ignored
step-records key id other t none = ground (arith, eqb_iff id other)
step-records key id other t (some a) = ground (arith, eqb_iff id other, max_left a t, max_right a t)

steps-known :
    (cs : List Call) (id : ℕ) (last : Option ℕ)
    → steps cs (known id last) ≡ known id (later last (latest (times id cs)))
steps-known [] id last = ap (known id) (sym (later-none last))
steps-known (sets key state ∷ cs) id last = steps-known cs id last
steps-known (records key other t ∷ cs) id last =
    ap (steps cs) (step-records key id other t last)
    ∙ steps-known cs id (if id == other then later last (some t) else last)
    ∙ ap (known id) (latest_times t)
  where
    latest_times :
        (t : ℕ)
        → later (if id == other then later last (some t) else last) (latest (times id cs))
          ≡ later last (latest (times id (records key other t ∷ cs)))
    latest_times t = elim (Bool-cases (id == other)) [
      | inl e ↦ rw e (later_assoc last (some t) (latest (times id cs)))
      | inr e ↦ rw e
    ]

steps-summary : (cs : List Call) → steps cs none ≡ summary cs
unfolding ignored
steps-summary [] = refl
steps-summary (sets key state ∷ cs) = steps-known cs state.channel_id state.last_measured_at
steps-summary (records key id t ∷ cs) = steps-known cs id (some t)

-- After any history of calls on a fresh cache, in any order of times and channels, the entry of a key
-- is missing if no call named it; else it holds the channel of the first call that did, with the
-- latest time that was recorded for that channel (and the initial time that the first call may give).
pub run-eq-summary :
    (cs : List Call) (k : Key) → get k (run cs init) ≡ summary (keep (λ c. call_key c == k) cs)
unfolding get init
run-eq-summary cs k = run-eq-steps cs init k ∙ steps-summary (keep (λ c. call_key c == k) cs)

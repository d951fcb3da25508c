-- ===== src/LiveState/Shown.antt =====
-- app/device_live_state.py: which value of a field a device shows, after a history of messages.
use smart_monitor_back_end.Base.{
  ℕ, ◌≤◌, ◌≡◌, ◌∙◌, refl, sym, ap, subst, inl, inr, String, Bool, true, false, Bool-cases, Option,
  none, some, List, [], ◌∷◌, arith, if◌then◌else◌, ◌==◌, string_eq, pair_eq, beq_self, eq_iff,
}
use smart_monitor_back_end.Base.Http.{Result, ok, err}
use smart_monitor_back_end.Base.Json.{Number, Fields}
use smart_monitor_back_end.LiveState.Blocks.{Floats}
use smart_monitor_back_end.LiveState.Snapshot.{Snapshot, read_snapshot}
use smart_monitor_back_end.LiveState.Store.{
  Entry, retain_recent_values, DeviceLiveStateStore, init, or_no_values, last_values_of,
  put_snapshot, put_read, update, get,
}
use smart_monitor_back_end.LiveState.Slots.{
  Slot, is_slot, key_of, value_at, retain_recent_values-own,
}
use smart_monitor_back_end.LiveState.Follows.{
  shown, latest, Follows, Follows-later, retain_entry-Follows,
}

-- A state message: when it is received, the device of its topic, and what it says.
pub record Message : Type 0 where
  pub time : ℕ
  pub device : String
  pub payload : Fields

abbrev pub Ordered : ℕ → List Message → Type 0
Ordered t [] = Unit
Ordered t (m ∷ ms) = (m.time ≤ t) × Ordered m.time ms

abbrev reported_by : Slot → Result Snapshot → Option Number
reported_by slot (err e) = none
reported_by slot (ok s) = value_at slot s

abbrev pub is_read : Result Snapshot → Bool
is_read (err e) = false
is_read (ok s) = true

abbrev pub value_shown : Slot → Option Snapshot → Option Number
value_shown slot none = none
value_shown slot (some s) = value_at slot s

module _ (floats : Floats) where
  -- The store after the messages, the latest first.
  unfoldable pub run : List Message → DeviceLiveStateStore
  run [] = init
  run (m ∷ ms) = (update floats m.time m.device m.payload (run ms)).1

  -- The last value that the device itself has sent for the slot, and when.
  abbrev pub last_report : Slot → String → List Message → Option Entry
  last_report slot device [] = none
  last_report slot device (m ∷ ms) =
      let rest = last_report slot device ms in
      if m.device == device
      then latest m.time (reported_by slot (read_snapshot floats m.time m.payload)) rest
      else rest

  module _ (slot : Slot) (known : is_slot slot ≡ true) where
    abbrev entry_of : String → DeviceLiveStateStore → Option Entry
    entry_of device store = last_values_of device store (key_of slot)

    -- The snapshot that is put, and the entry of its device.
    put_snapshot-own :
        (now : ℕ) (device : String) (s : Snapshot) (store : DeviceLiveStateStore)
        (last : Option Entry)
        → Follows now (entry_of device store) last
        → let store' = put_snapshot now device s store in
          (value_shown slot (get device store') ≡ shown now (latest now (value_at slot s) last))
          × Follows now (entry_of device store') (latest now (value_at slot s) last)
    unfolding put_snapshot get
    put_snapshot-own now device s store last f =
        let cached = last_values_of device store in
        let (v, e) = retain_recent_values-own now slot s cached known in
        let (shows, follows) =
          retain_entry-Follows now now (value_at slot s) (entry_of device store) last (omega arith)
            f in
        let r = retain_recent_values now s cached in
        (
          ap (λ (t : Bool). value_shown slot (if t then some r.0 else store.states device))
                (beq_self device)
              ∙ v
              ∙ shows,
          subst (λ x. Follows now x (latest now (value_at slot s) last))
              (sym (
                ap
                  (λ (t : Bool).
                    or_no_values (if t then some r.1 else store.last_values device) (key_of slot))
                  (beq_self device)
                ∙ e))
              follows,
        )

    put_snapshot-other :
        (now : ℕ) (other device : String) (s : Snapshot) (store : DeviceLiveStateStore)
        → (other == device) ≡ false
        → entry_of device (put_snapshot now other s store) ≡ entry_of device store
    unfolding put_snapshot
    put_snapshot-other now other device s store h =
        let r = retain_recent_values now s (last_values_of other store) in
        ap
          (λ (t : Bool).
            or_no_values (if t then some r.1 else store.last_values device) (key_of slot))
          h

    put_read-Follows :
        (now : ℕ) (other device : String) (last : Option Entry) (r : Result Snapshot)
        (store : DeviceLiveStateStore)
        → Follows now (entry_of device store) last
        → Follows now
            (entry_of device (put_read now other r store).1)
            (if other == device then latest now (reported_by slot r) last else last)
    put_read-Follows now other device last (err e) store f = elim (Bool-cases (other == device)) [
      | inl q ↦ rw q f
      | inr q ↦ rw q f
    ]
    put_read-Follows now other device last (ok s) store f = elim (Bool-cases (other == device)) [
      | inl q ↦ rw q (
          subst
            (λ d.
              Follows now (entry_of device (put_snapshot now d s store))
                (latest now (value_at slot s) last))
            (sym ((eq_iff other device).0 q)) (put_snapshot-own now device s store last f).1)
      | inr q ↦
          rw q (
            subst (λ x. Follows now x last) (sym (put_snapshot-other now other device s store q)) f)
    ]

    run-Follows :
        (t : ℕ) (device : String) (ms : List Message)
        → Ordered t ms
        → Follows t (entry_of device (run ms)) (last_report slot device ms)
    unfolding run update
    run-Follows t device [] h = record { past = tt; same = λ t' k. refl }
    run-Follows t device (m ∷ ms) (le, older) =
        Follows-later m.time t (entry_of device (run (m ∷ ms))) (last_report slot device (m ∷ ms))
          le
          (put_read-Follows m.time m.device device (last_report slot device ms)
            (read_snapshot floats m.time m.payload) (run ms) (run-Follows m.time device ms older))

-- After any messages of any devices, in the order of their times, of which the last can be read, the
-- snapshot of its device shows, for each value of the sensor and of the four channels, what this
-- device itself has last sent for it in a message that can be read, if that was at most 15 seconds
-- before the last message, and else nothing.
pub run_shows_last_report :
    (floats : Floats) (slot : Slot) (m : Message) (ms : List Message)
    → is_slot slot ≡ true
    → Ordered m.time ms
    → is_read (read_snapshot floats m.time m.payload) ≡ true
    → value_shown slot (get m.device (run floats (m ∷ ms)))
      ≡ shown m.time (last_report floats slot m.device (m ∷ ms))
unfolding run update
run_shows_last_report floats slot m ms known h readable =
    go (read_snapshot floats m.time m.payload) readable
    ∙ ap
        (λ (b : Bool). shown m.time (
          if b
          then latest m.time (reported_by slot (read_snapshot floats m.time m.payload)) before
          else before))
        (sym (beq_self m.device))
  where
    before : Option Entry
    before = last_report floats slot m.device ms

    go :
        (r : Result Snapshot)
        → is_read r ≡ true
        → value_shown slot (get m.device (put_read m.time m.device r (run floats ms)).1)
          ≡ shown m.time (latest m.time (reported_by slot r) before)
    go (err e) k = cc
    go (ok s) k =
        (put_snapshot-own floats slot known m.time m.device s (run floats ms) before
          (run-Follows floats slot known m.time m.device ms h)).0

-- ===== src/HistoryRecovery/Coordinator.antt =====
-- app/local_history_recovery.py, `LocalHistoryRecoveryCoordinator`: what the threads that schedule
-- and the worker do to the queue, in the steps that the lock and the queue make atomic. Times are
-- nanoseconds of `monotonic()`; a dictionary's default of 0.0 is the number 0.
pub mod Serial
use smart_monitor_back_end.Base.{
  ℕ, zero, suc, ◌+◌, ◌-◌, String, Bool, true, false, not, ◌&&◌, ◌||◌, Option, none, some, List, [],
  ◌∷◌, ◌++◌, leb, ltb, length, any, keep, if◌then◌else◌, ◌==◌, nat_eq, string_eq, pair_eq,
  option_eq,
}
use smart_monitor_back_end.Base.Dict
use smart_monitor_back_end.Base.Dict.{Dict}
use smart_monitor_back_end.Base.Json.{
  is_true, ℤ, pos, Json, boolean, integer, Fields, get_field, as_object, as_boolean, as_text,
}
use smart_monitor_back_end.Base.Text.{is_empty}
use smart_monitor_back_end.HistoryRecovery.{HistoryRecoveryRequest, at_least}

-- The thread of `_run`: none, one that waits, one that recovers, one whose recovery has ended.
pub data Worker : Type 0 where
  absent waiting : Worker
  recovering ended : HistoryRecoveryRequest → Worker

-- `reserved` has the requests between the two halves of `schedule`; a queue entry of None is the
-- sentinel of `stop`.
pub record Coordinator : Type 0 where
  pub queue : List (Option HistoryRecoveryRequest)
  pub reserved : List HistoryRecoveryRequest
  pub pending_devices : List String
  pub retry_after : Dict String ℕ
  pub completed_markers : Dict String (ℕ × ℕ)
  pub worker : Worker
  pub running : Bool
  pub completed_runs : ℕ
  pub failed_runs : ℕ
  pub imported_records : ℕ
  pub last_acknowledged : Dict String ℕ

abbrev pub queue_size : ℕ
queue_size = 100

abbrev pub history_retry_delay : ℕ
history_retry_delay = 30000000000

abbrev pub init : Coordinator
init = record {
  queue = [];
  reserved = [];
  pending_devices = [];
  retry_after = Dict.empty;
  completed_markers = Dict.empty;
  worker = absent;
  running = false;
  completed_runs = 0;
  failed_runs = 0;
  imported_records = 0;
  last_acknowledged = Dict.empty;
}

abbrev pub contains : String → List String → Bool
contains d ds = any (λ e. e == d) ds

-- set.add and set.discard
abbrev pub add : String → List String → List String
add d ds = if contains d ds then ds else d ∷ ds

abbrev pub discard : String → List String → List String
discard d ds = keep (λ e. not (e == d)) ds

-- Chains of values that may be missing.
infixl 5 ◌>>=◌
abbrev ◌>>=◌ : {A B : Type 0} → Option A → (A → Option B) → Option B
none >>= f = none
some a >>= f = f a

-- The checks of `schedule` on its arguments, which all return False.
unfoldable pub read_request : String → Json → Json → Json → Option HistoryRecoveryRequest
read_request mqtt_device_id device_uid local_history managers = do
  uid ← as_text device_uid
  history ← as_object local_history
  threads ← as_object managers
  network ← as_object (get_field "network" threads)
  mqtt ← as_object (get_field "mqtt" threads)
  network_recovery ← at_least 0 (get_field "recovery_count" network)
  mqtt_recovery ← at_least 0 (get_field "recovery_count" mqtt)
  acknowledged ← at_least 0 (get_field "acknowledged_through_sequence" history)
  next_sequence ← at_least 1 (get_field "next_sequence" history)
  if is_empty mqtt_device_id || not (is_true (get_field "ready" history))
      then none
      else some (record {
        mqtt_device_id = mqtt_device_id;
        device_uid = uid;
        acknowledged_through_sequence = acknowledged;
        newest_sequence = next_sequence - 1;
        recovery_marker = (network_recovery, mqtt_recovery);
      })

abbrev pub or_zero : Option ℕ → ℕ
or_zero none = 0
or_zero (some n) = n

-- The first lock section of `schedule`; True when the request is reserved.
unfoldable pub reserve : ℕ → HistoryRecoveryRequest → Coordinator → Bool × Coordinator
reserve now r s =
    if not s.running || contains r.mqtt_device_id s.pending_devices
    then (false, s)
    else if Dict.get s.completed_markers r.mqtt_device_id == some r.recovery_marker
    then (false, s)
    else if leb r.newest_sequence r.acknowledged_through_sequence
    then (
      false,
      record s {
        completed_markers = Dict.insert r.mqtt_device_id r.recovery_marker s.completed_markers;
      },
    )
    else if ltb now (or_zero (Dict.get s.retry_after r.mqtt_device_id))
    then (false, s)
    else (
      true,
      record s {
        pending_devices = add r.mqtt_device_id s.pending_devices;
        reserved = r ∷ s.reserved;
      },
    )

-- put_nowait, and the discard on `Full`
unfoldable pub enqueue : HistoryRecoveryRequest → Coordinator → Bool × Coordinator
enqueue r s =
    if ltb (length s.queue) queue_size
    then (true, record s { queue = s.queue ++ some r ∷ [] })
    else (false, record s { pending_devices = discard r.mqtt_device_id s.pending_devices })

abbrev pub past :
    HistoryRecoveryRequest
    → Option (HistoryRecoveryRequest × List HistoryRecoveryRequest)
    → Option (HistoryRecoveryRequest × List HistoryRecoveryRequest)
past r none = none
past r (some (taken, rest)) = some (taken, r ∷ rest)

-- One of the threads that have reserved goes on.
abbrev pub take_reserved :
    ℕ → List HistoryRecoveryRequest → Option (HistoryRecoveryRequest × List HistoryRecoveryRequest)
take_reserved n [] = none
take_reserved zero (r ∷ rs) = some (r, rs)
take_reserved (suc n) (r ∷ rs) = past r (take_reserved n rs)

abbrev pub put_taken :
    Coordinator → Option (HistoryRecoveryRequest × List HistoryRecoveryRequest) → Coordinator
put_taken s none = s
put_taken s (some (r, rest)) = (enqueue r (record s { reserved = rest })).1

unfoldable pub put_reserved : ℕ → Coordinator → Coordinator
unfolding enqueue
put_reserved n s = put_taken s (take_reserved n s.reserved)

-- `schedule`, where no other thread comes between
unfoldable pub schedule : ℕ → String → Json → Json → Json → Coordinator → Bool × Coordinator
unfolding read_request reserve enqueue
schedule now mqtt_device_id device_uid local_history managers s =
    elim (read_request mqtt_device_id device_uid local_history managers) [
      | none ↦ (false, s)
      | some r ↦
          let (kept, s') = reserve now r s in
          if kept then enqueue r (record s' { reserved = s.reserved }) else (false, s')
    ]

abbrev pub started : Worker → Worker
started absent = waiting
started w = w

abbrev pub is_absent : Worker → Bool
is_absent absent = true
is_absent _ = false

unfoldable pub start : Coordinator → Coordinator
start s = if is_absent s.worker then record s { running = true; worker = waiting } else s

-- `self._running = False`, and the sentinel of `stop`
unfoldable pub stop : Coordinator → Coordinator
stop s = record s { running = false }

unfoldable pub put_sentinel : Coordinator → Coordinator
put_sentinel s =
    if ltb (length s.queue) queue_size then record s { queue = s.queue ++ none ∷ [] } else s

-- `queue.get`: the worker takes an entry, or ends at the sentinel; on `Empty` it ends if it shall not
-- run.
abbrev pub take_entry : Worker → List (Option HistoryRecoveryRequest) → Coordinator → Coordinator
take_entry waiting (some r ∷ queue) s = record s { queue = queue; worker = recovering r }
take_entry waiting (none ∷ queue) s = record s { queue = queue; worker = absent }
take_entry waiting [] s = if s.running then s else record s { worker = absent }
take_entry _ _ s = s

unfoldable pub get : Coordinator → Coordinator
get s = take_entry s.worker s.queue s

-- the last section of `_recover`
abbrev pub succeed_at : Worker → ℕ → ℕ → Coordinator → Coordinator
succeed_at (recovering r) imported_total cursor s = record s {
  completed_runs = suc s.completed_runs;
  imported_records = s.imported_records + imported_total;
  last_acknowledged = Dict.insert r.mqtt_device_id cursor s.last_acknowledged;
  completed_markers = Dict.insert r.mqtt_device_id r.recovery_marker s.completed_markers;
  retry_after = Dict.erase r.mqtt_device_id s.retry_after;
  worker = ended r;
}
succeed_at _ imported_total cursor s = s

unfoldable pub succeed : ℕ → ℕ → Coordinator → Coordinator
succeed imported_total cursor s = succeed_at s.worker imported_total cursor s

-- `except Exception`
abbrev pub fail_at : Worker → ℕ → Coordinator → Coordinator
fail_at (recovering r) now s = record s {
  failed_runs = suc s.failed_runs;
  retry_after = Dict.insert r.mqtt_device_id (now + history_retry_delay) s.retry_after;
  worker = ended r;
}
fail_at _ now s = s

unfoldable pub fail : ℕ → Coordinator → Coordinator
fail now s = fail_at s.worker now s

-- `finally`
abbrev pub settle_at : Worker → Coordinator → Coordinator
settle_at (ended r) s = record s {
  pending_devices = discard r.mqtt_device_id s.pending_devices;
  worker = waiting;
}
settle_at _ s = s

unfoldable pub settle : Coordinator → Coordinator
settle s = settle_at s.worker s

-- The steps of all threads.
pub data Event : Type 0 where
  reserves : ℕ → HistoryRecoveryRequest → Event
  puts : ℕ → Event
  starts stops puts_sentinel gets settles : Event
  succeeds : ℕ → ℕ → Event
  fails : ℕ → Event

unfoldable pub step : Event → Coordinator → Coordinator
unfolding reserve put_reserved start stop put_sentinel get succeed fail settle
step (reserves now r) s = (reserve now r s).1
step (puts n) s = put_reserved n s
step starts s = start s
step stops s = stop s
step puts_sentinel s = put_sentinel s
step gets s = get s
step settles s = settle s
step (succeeds imported_total cursor) s = succeed imported_total cursor s
step (fails now) s = fail now s

unfoldable pub run : List Event → Coordinator → Coordinator
unfolding step
run [] s = s
run (e ∷ es) s = run es (step e s)

-- The part of `status` that counts.
abbrev pub status : Coordinator → Bool × ℕ × ℕ × ℕ × ℕ × ℕ
status s = (
  s.running,
  length s.queue,
  length s.pending_devices,
  s.completed_runs,
  s.failed_runs,
  s.imported_records,
)

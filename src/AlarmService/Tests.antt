-- ===== src/AlarmService/Tests.antt =====
-- An alarm that is raised, repeated, and then gone from the snapshot.
use smart_monitor_back_end.Base.{
  ℕ, ◌≡◌, refl, arith, true, String, Option, none, some, [], ◌∷◌, ◌&&◌, not, keep, length,
}
use smart_monitor_back_end.Base.Http.{Result, ok, err, type_error}
use smart_monitor_back_end.Base.Json.{
  Json, Fields, Items, field, closed, text, integer, pos, boolean, array, object, item, end,
}
use smart_monitor_back_end.Database.{Device}
use smart_monitor_back_end.MeasurementContract.{float_overflow}
use smart_monitor_back_end.AlarmService.{AlarmTables, Alarm, active_on}
use smart_monitor_back_end.AlarmService.Snapshot.{read_alarm, ingest_alarm_snapshot}
use smart_monitor_back_end.AlarmService.OneActive.{OneActive}
use smart_monitor_back_end.AlarmService.Ingest.{ingest_alarm_snapshot-OneActive}
use smart_monitor_back_end.AlarmService.Complete.{
  lists_end, lists_item, listed, complete_snapshot_clears,
}

abbrev meter : Device
meter = record {
  id = 7;
  device_uid = "SM-0123456789AB";
  mqtt_device_id = some "meter-7";
  name = none;
  is_active = true;
  created_at = 0;
}

abbrev hot : String → Json
hot state = object (
    field "id" (text "hot") (
      field "state" (text state) (
        field "severity" (text "warning")
          (field "transition_count" (integer (pos 3)) (field "value" (integer (pos 61)) closed)))))

abbrev over : Json
over = object (
    field "id" (text "over") (
      field "state" (text "active")
        (field "severity" (text "critical") (field "transition_count" (integer (pos 1)) closed))))

abbrev snapshot : Items → Fields
snapshot items = field "ready" (boolean true) (field "items" (array items) closed)

abbrev nothing : AlarmTables
nothing = record { occurrences = []; events = []; next_id = 1 }

abbrev count_tables : Result (ℕ × AlarmTables) → Option (ℕ × ℕ)
count_tables (ok (n, t)) = some (n, length (keep (active_on 7) t.occurrences))
count_tables (err e) = none

abbrev tables_of : Result (ℕ × AlarmTables) → AlarmTables
tables_of (ok (n, t)) = t
tables_of (err e) = nothing

first_time : Result (ℕ × AlarmTables)
first_time =
    ingest_alarm_snapshot (meter ∷ []) "meter-7" (object (snapshot (item (hot "active") end)))
      (integer (pos 2)) none 100 nothing

raised : AlarmTables
raised = tables_of first_time

second_time : Result (ℕ × AlarmTables)
second_time =
    ingest_alarm_snapshot (meter ∷ []) "meter-7" (object (snapshot (item over end)))
      (integer (pos 2)) none 200 raised

swapped : AlarmTables
swapped = tables_of second_time

raising : first_time ≡ ok (1, raised)
unfolding first_time raised ingest_alarm_snapshot float_overflow
raising = refl

-- `over` is raised and `hot`, which is gone, is cleared.
swapping : second_time ≡ ok (2, swapped)
unfolding second_time swapped first_time raised ingest_alarm_snapshot float_overflow
swapping = refl

one_left : length (keep (active_on 7) swapped.occurrences) ≡ 1
unfolding second_time swapped first_time raised ingest_alarm_snapshot float_overflow
one_left = refl

repeated :
    count_tables (
      ingest_alarm_snapshot
        (meter ∷ [])
        "meter-7"
        (object (snapshot (item (hot "active") end)))
        (integer (pos 2))
        none
        150
        raised)
    ≡ some (0, 1)
unfolding first_time raised ingest_alarm_snapshot float_overflow
repeated = refl

-- A state that is a list is no invalid item but a TypeError.
list_crashes :
    read_alarm (object (field "id" (text "hot") (field "state" (array end) closed)))
    ≡ err (type_error "unhashable type: 'list'")
unfolding read_alarm float_overflow
list_crashes = refl

abbrev over_alarm : Alarm
over_alarm = record {
  alarm_key = "over";
  raised = true;
  severity = "critical";
  transition_count = 1;
  value = none;
  threshold = none;
}

reading : read_alarm over ≡ ok (some over_alarm)
unfolding read_alarm float_overflow
reading = refl

nothing-OneActive : OneActive nothing
nothing-OneActive = record { one = λ d k. omega arith }

ingest_alarm_snapshot-OneActive_example : OneActive raised
ingest_alarm_snapshot-OneActive_example =
    ingest_alarm_snapshot-OneActive (meter ∷ []) "meter-7"
      (object (snapshot (item (hot "active") end))) (integer (pos 2)) none 100 nothing 1 raised
      nothing-OneActive (unfold first_time in raising)

complete_snapshot_clears_example :
    keep (λ o. active_on 7 o && not (listed ("over" ∷ []) o.alarm_key)) swapped.occurrences ≡ []
complete_snapshot_clears_example =
    complete_snapshot_clears (meter ∷ []) meter "meter-7" (snapshot (item over end)) (item over end)
      ("over" ∷ []) 2 none 200 raised 2 swapped refl refl refl
      (lists_item over over_alarm reading lists_end) (unfold second_time in swapping)

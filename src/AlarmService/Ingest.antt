-- ===== src/AlarmService/Ingest.antt =====
-- app/alarm_service.py: the number of active occurrences, through a whole snapshot.
use smart_monitor_back_end.Base.{
  ℕ, ◌≡◌, ap, subst, String, false, Option, none, some, List, [], Bool-cases, inl, inr, nat_eq,
  string_eq,
}
use smart_monitor_back_end.Base.Http.{Result, ok, >>=-eq-ok, ok_injective}
use smart_monitor_back_end.Base.Json.{
  as_array, is_true, Json, Items, item, end, Fields, get_field, as_object,
}
use smart_monitor_back_end.Database.{Device}
use smart_monitor_back_end.AlarmService.{AlarmTables, Alarm, handle_alarm}
use smart_monitor_back_end.AlarmService.Snapshot.{
  Loop, handled, read_alarm, step_alarm, run_items, finish, as_count, find_device_by_mqtt_id,
  ingest_items, ingest_object, ingest_listed, or_now, ingest_alarm_snapshot,
}
use smart_monitor_back_end.AlarmService.OneActive.{OneActive}
use smart_monitor_back_end.AlarmService.Handled.{handle_alarm-OneActive, clear_missing-OneActive}

step_alarm-OneActive :
    (device_id boot_count time : ℕ) (a : Option Alarm) (st st' : Loop)
    → OneActive st.tables
    → step_alarm device_id boot_count time a st ≡ ok st'
    → OneActive st'.tables
unfolding step_alarm
step_alarm-OneActive device_id boot_count time none st st' v h =
    subst (λ (x : Loop). OneActive x.tables) (ok_injective (record st { complete = false }) st' h) v
step_alarm-OneActive device_id boot_count time (some a) st st' v h =
    let ((n, t), e, h') = >>=-eq-ok (handle_alarm device_id boot_count time a st.tables) _ h in
    subst (λ (x : Loop). OneActive x.tables) (ok_injective (handled st a.alarm_key (n, t)) st' h')
      (handle_alarm-OneActive device_id boot_count time a st.tables n t v e)

run_items-OneActive :
    (device_id boot_count time : ℕ) (items : Items) (st st' : Loop)
    → OneActive st.tables
    → run_items device_id boot_count time items st ≡ ok st'
    → OneActive st'.tables
unfolding run_items
run_items-OneActive device_id boot_count time end st st' v h =
    subst (λ (x : Loop). OneActive x.tables) (ok_injective st st' h) v
run_items-OneActive device_id boot_count time (item raw items) st st' v h =
    let (a, e1, h1) = >>=-eq-ok (read_alarm raw) _ h in
    let (mid, e2, h2) = >>=-eq-ok (step_alarm device_id boot_count time a st) _ h1 in
    run_items-OneActive device_id boot_count time items mid st'
      (step_alarm-OneActive device_id boot_count time a st mid v e2) h2

finish-OneActive :
    (device_id time : ℕ) (st : Loop) → OneActive st.tables → OneActive (finish device_id time st).1
unfolding finish
finish-OneActive device_id time st v = elim (Bool-cases st.complete) [
  | inl e ↦ rw e (clear_missing-OneActive device_id time st.seen st.tables v)
  | inr e ↦ rw e v
]

abbrev pub start : Fields → AlarmTables → Loop
start fields t = record {
  changes = 0;
  seen = [];
  complete = is_true (get_field "ready" fields);
  tables = t;
}

-- The loop of a snapshot, and what is left of it.
pub ingest_items-finish :
    (device : Device) (fields : Fields) (items : Items) (boots time : ℕ) (t : AlarmTables) (n : ℕ)
    (t' : AlarmTables)
    → ingest_items device fields items boots time t ≡ ok (n, t')
    → (st : Loop) × (run_items device.id boots time items (start fields t) ≡ ok st)
      × (finish device.id time st ≡ (n, t'))
unfolding ingest_items
ingest_items-finish device fields items boots time t n t' h =
    let (st, e, h') = >>=-eq-ok (run_items device.id boots time items (start fields t)) _ h in
    (st, e, ok_injective (finish device.id time st) (n, t') h')

-- What follows from a run of the items of a snapshot, and from the tables as they are.
module _ (time : ℕ) (t : AlarmTables) (n : ℕ) (t' : AlarmTables) where
  unchanged : ◌≡◌ {A = Result (ℕ × AlarmTables)} (ok (0, t)) (ok (n, t')) → t ≡ t'
  unchanged h = ap (λ (p : ℕ × AlarmTables). p.1) (ok_injective (0, t) (n, t') h)

  ingest_object-OneActive :
      (fields : Option Fields) (boots : Option ℕ) (device : Option Device)
      → OneActive t
      → ingest_object fields boots device time t ≡ ok (n, t')
      → OneActive t'
  ingest_object-OneActive none boots device v h = subst OneActive (unchanged h) v
  ingest_object-OneActive (some fields) none device v h = subst OneActive (unchanged h) v
  ingest_object-OneActive (some fields) (some boots) device v h =
      listed (as_array (get_field "items" fields)) device h
    where
      listed :
          (items : Option Items) (device : Option Device)
          → ingest_listed items device fields boots time t ≡ ok (n, t')
          → OneActive t'
      listed none device h = subst OneActive (unchanged h) v
      listed (some items) none h = subst OneActive (unchanged h) v
      listed (some items) (some device) h =
          let (st, ran, ended) = ingest_items-finish device fields items boots time t n t' h in
          subst OneActive (ap (λ (p : ℕ × AlarmTables). p.1) ended) (
            finish-OneActive device.id time st
              (run_items-OneActive device.id boots time items (start fields t) st v ran))

-- Whatever a device sends, no alarm of any device has two active occurrences after it, if none had
-- before: a snapshot that is not refused keeps at most one for each.
pub ingest_alarm_snapshot-OneActive :
    (devices : List Device) (mqtt : String) (alarms boot_count : Json) (occurred_at : Option ℕ)
    (now : ℕ) (t : AlarmTables) (n : ℕ) (t' : AlarmTables)
    → OneActive t
    → ingest_alarm_snapshot devices mqtt alarms boot_count occurred_at now t ≡ ok (n, t')
    → OneActive t'
unfolding ingest_alarm_snapshot
ingest_alarm_snapshot-OneActive devices mqtt alarms boot_count occurred_at now t n t' v h =
    ingest_object-OneActive (or_now occurred_at now) t n t' (as_object alarms) (as_count boot_count)
      (find_device_by_mqtt_id mqtt devices) v h

-- ===== src/AlarmService/Snapshot.antt =====
-- app/alarm_service.py: reading the items of a snapshot, and `ingest_alarm_snapshot`.
use smart_monitor_back_end.Base.{
  ℕ, zero, suc, ◌+◌, String, Bool, true, false, ◌&&◌, ◌||◌, Option, none, some, List, [], ◌∷◌, leb,
  eqb, length, all, first, if◌then◌else◌, ◌==◌, string_eq, option_eq,
}
use smart_monitor_back_end.Base.Http.{Result, ok, err, type_error, ◌>>=◌}
use smart_monitor_back_end.Base.Json.{
  as_array, is_true, pos, finite, Json, integer, float, text, array, object, Items, item, end,
  Fields, get_field, as_object, Number, decimal,
}
use smart_monitor_back_end.Base.Text.{codes}
use smart_monitor_back_end.Database.{Device}
use smart_monitor_back_end.MeasurementContract.{float_of}
use smart_monitor_back_end.AlarmService.{Alarm, AlarmTables, handle_alarm, clear_missing}

-- _finite_float
unfoldable pub finite_float : Json → Result (Option Number)
unfolding float_of
finite_float (integer i) = float_of i >>= λ n. ok (some n)
finite_float (float (finite s)) = ok (some (decimal s))
finite_float _ = ok none

-- one character of [a-z0-9_-]
abbrev pub is_key_character : ℕ → Bool
is_key_character c = (leb 97 c && leb c 122) || ((leb 48 c && leb c 57) || (eqb c 95 || eqb c 45))

-- ^[a-z0-9_-]{1,63}$
unfoldable pub is_alarm_key : String → Bool
is_alarm_key s =
    leb 1 (length (codes s)) && (leb (length (codes s)) 63 && all is_key_character (codes s))

abbrev pub read_key : Json → Option String
read_key (text s) = if is_alarm_key s then some s else none
read_key _ = none

-- value in KNOWN_…: an unhashable value is a TypeError
abbrev pub read_member {ℓ} : {A : Type ℓ} → (String → Option A) → Json → Result (Option A)
read_member known (text s) = ok (known s)
read_member known (array items) = err (type_error "unhashable type: 'list'")
read_member known (object fields) = err (type_error "unhashable type: 'dict'")
read_member known _ = ok none

-- KNOWN_ALARM_STATES, with whether it is one of ACTIVE_ALARM_STATES
abbrev pub known_state : String → Option Bool
known_state s =
    if s == "normal" || s == "pending_active"
    then some false
    else if s == "active" || s == "pending_clear"
    then some true
    else none

abbrev pub known_severity : String → Option String
known_severity s = if s == "info" || (s == "warning" || s == "critical") then some s else none

-- an int that is no bool and not negative
abbrev pub as_count : Json → Option ℕ
as_count (integer (pos n)) = some n
as_count _ = none

-- `value` and `threshold`, which are read only for an active alarm with a transition.
unfoldable pub alarm_values : Bool → ℕ → Fields → Result (Option Number × Option Number)
unfolding finite_float
alarm_values false transition_count raw = ok (none, none)
alarm_values true zero raw = ok (none, none)
alarm_values true (suc n) raw = do
  value ← finite_float (get_field "value" raw)
  threshold ← finite_float (get_field "threshold" raw)
  ok (value, threshold)

abbrev pub alarm_of : Fields → String → Bool → String → Option ℕ → Result (Option Alarm)
alarm_of raw key raised severity none = ok none
alarm_of raw key raised severity (some count) = do
  (value, threshold) ← alarm_values raised count raw
  ok (
      some (record {
        alarm_key = key;
        raised = raised;
        severity = severity;
        transition_count = count;
        value = value;
        threshold = threshold;
      }))

abbrev pub with_severity : Fields → String → Bool → Option String → Result (Option Alarm)
with_severity raw key raised none = ok none
with_severity raw key raised (some severity) =
    alarm_of raw key raised severity (as_count (get_field "transition_count" raw))

abbrev pub with_state : Fields → String → Option Bool → Result (Option Alarm)
with_state raw key none = ok none
with_state raw key (some raised) = do
  severity ← read_member known_severity (get_field "severity" raw)
  with_severity raw key raised severity

abbrev pub with_key : Fields → Option String → Result (Option Alarm)
with_key raw none = ok none
with_key raw (some key) = do
  state ← read_member known_state (get_field "state" raw)
  with_state raw key state

-- One item, or none if the loop skips it.
unfoldable pub read_alarm : Json → Result (Option Alarm)
unfolding alarm_values is_alarm_key
read_alarm (object raw) = with_key raw (read_key (get_field "id" raw))
read_alarm _ = ok none

-- changes, seen_alarm_keys, snapshot_complete and the tables
pub record Loop : Type 0 where
  pub changes : ℕ
  pub seen : List String
  pub complete : Bool
  pub tables : AlarmTables

abbrev pub handled : Loop → String → ℕ × AlarmTables → Loop
handled st key (n, t) = record {
  changes = st.changes + n;
  seen = key ∷ st.seen;
  complete = st.complete;
  tables = t;
}

unfoldable pub step_alarm : ℕ → ℕ → ℕ → Option Alarm → Loop → Result Loop
unfolding handle_alarm
step_alarm device_id boot_count time none st = ok (record st { complete = false })
step_alarm device_id boot_count time (some a) st = do
  r ← handle_alarm device_id boot_count time a st.tables
  ok (handled st a.alarm_key r)

unfoldable pub run_items : ℕ → ℕ → ℕ → Items → Loop → Result Loop
unfolding read_alarm step_alarm
run_items device_id boot_count time end st = ok st
run_items device_id boot_count time (item raw items) st = do
  a ← read_alarm raw
  st' ← step_alarm device_id boot_count time a st
  run_items device_id boot_count time items st'

abbrev pub total : ℕ → ℕ × AlarmTables → ℕ × AlarmTables
total changes (n, t) = (changes + n, t)

-- the part behind the loop
unfoldable pub finish : ℕ → ℕ → Loop → ℕ × AlarmTables
unfolding clear_missing
finish device_id time st =
    if st.complete
    then total st.changes (clear_missing device_id time st.seen st.tables)
    else (st.changes, st.tables)

abbrev pub find_device_by_mqtt_id : String → List Device → Option Device
find_device_by_mqtt_id mqtt_device_id devices =
    first (λ d. d.mqtt_device_id == some mqtt_device_id) devices

unfoldable pub ingest_items :
    Device → Fields → Items → ℕ → ℕ → AlarmTables → Result (ℕ × AlarmTables)
unfolding run_items finish
ingest_items device alarms items boot_count time t = do
  st ←
      run_items device.id boot_count time items (record {
        changes = 0;
        seen = [];
        complete = is_true (get_field "ready" alarms);
        tables = t;
      })
  ok (finish device.id time st)

abbrev pub or_now : Option ℕ → ℕ → ℕ
or_now none now = now
or_now (some t) now = t

-- The early returns, each with 0 changes: no such device, no list of items, no count of boots, no
-- object of alarms.
abbrev pub ingest_found :
    Option Device → Fields → Items → ℕ → ℕ → AlarmTables → Result (ℕ × AlarmTables)
ingest_found none fields items boots time t = ok (0, t)
ingest_found (some device) fields items boots time t = ingest_items device fields items boots time t

abbrev pub ingest_listed :
    Option Items → Option Device → Fields → ℕ → ℕ → AlarmTables → Result (ℕ × AlarmTables)
ingest_listed none device fields boots time t = ok (0, t)
ingest_listed (some items) device fields boots time t =
    ingest_found device fields items boots time t

abbrev pub ingest_counted :
    Option ℕ → Option Device → Fields → ℕ → AlarmTables → Result (ℕ × AlarmTables)
ingest_counted none device fields time t = ok (0, t)
ingest_counted (some boots) device fields time t =
    ingest_listed (as_array (get_field "items" fields)) device fields boots time t

abbrev pub ingest_object :
    Option Fields → Option ℕ → Option Device → ℕ → AlarmTables → Result (ℕ × AlarmTables)
ingest_object none boots device time t = ok (0, t)
ingest_object (some fields) boots device time t = ingest_counted boots device fields time t

unfoldable pub ingest_alarm_snapshot :
    List Device → String → Json → Json → Option ℕ → ℕ → AlarmTables → Result (ℕ × AlarmTables)
unfolding ingest_items
ingest_alarm_snapshot devices mqtt_device_id alarms boot_count occurred_at now t =
    ingest_object (as_object alarms) (as_count boot_count)
      (find_device_by_mqtt_id mqtt_device_id devices) (or_now occurred_at now) t

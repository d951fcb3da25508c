-- ===== src/AlarmService.antt =====
-- app/alarm_service.py: the alarms of a state message as transitions of alarm occurrences. Tables are
-- lists of rows, newest first; the current time is an input. A JSON integer beyond the range of a float
-- (an OverflowError of `float(value)`) is left out.
pub mod Snapshot
pub mod OneActive
pub mod Handled
pub mod Ingest
pub mod Complete
mod Tests
use smart_monitor_back_end.Base.{
  ℕ, suc, ◌+◌, String, Bool, true, false, not, ◌&&◌, ◌||◌, Option, none, some, List, [], ◌∷◌, ◌++◌,
  map, leb, ltb, eqb, length, all, any, keep, first, update_where, if◌then◌else◌, is_some, ◌==◌,
  nat_eq, string_eq, option_eq,
}
use smart_monitor_back_end.Base.Http.{Result, ok, err, integrity_error, type_error, ◌>>=◌}
use smart_monitor_back_end.Base.Json.{
  Number, ℤ, pos, negsuc, Float, finite, not_finite, Json, null, boolean, integer, float, text,
  array, object, Fields, get_field,
}
use smart_monitor_back_end.Base.Text.{codes}

pub data Status : Type 0 where
  active cleared : Status

pub record AlarmOccurrence : Type 0 where
  pub id : ℕ
  pub device_id : ℕ
  pub alarm_key : String
  pub severity : String
  pub status : Status
  pub source_boot_count : ℕ
  pub activation_transition_count : ℕ
  pub clear_transition_count : Option ℕ
  pub value : Option Number
  pub threshold : Option Number
  pub activated_at : ℕ
  pub cleared_at : Option ℕ
  pub acknowledged_at : Option ℕ
  pub acknowledged_by_user_id : Option ℕ

-- the rows of `create_device_event` that alarms write, with their data
pub data AlarmEvent : Type 0 where
  alarm_activated : ℕ → ℕ → String → String → AlarmEvent
  alarm_cleared : ℕ → ℕ → String → String → AlarmEvent
  alarm_acknowledged : ℕ → ℕ → String → AlarmEvent

pub record AlarmTables : Type 0 where
  pub occurrences : List AlarmOccurrence
  pub events : List AlarmEvent
  pub next_id : ℕ

abbrev pub is_active : Status → Bool
is_active active = true
is_active cleared = false

-- the active rows of a device, and those of one of its alarms
abbrev pub active_on : ℕ → AlarmOccurrence → Bool
active_on device_id o = o.device_id == device_id && is_active o.status

abbrev pub active_of : ℕ → String → AlarmOccurrence → Bool
active_of device_id alarm_key o = active_on device_id o && o.alarm_key == alarm_key

-- order_by(activated_at.desc(), id.desc())
abbrev pub comes_first : AlarmOccurrence → AlarmOccurrence → Bool
comes_first a b =
    ltb b.activated_at a.activated_at || (a.activated_at == b.activated_at && ltb b.id a.id)

abbrev pub pick : AlarmOccurrence → Option AlarmOccurrence → AlarmOccurrence
pick a none = a
pick a (some b) = if comes_first a b then a else b

unfoldable pub active_occurrence : ℕ → String → List AlarmOccurrence → Option AlarmOccurrence
active_occurrence device_id alarm_key [] = none
active_occurrence device_id alarm_key (o ∷ os) =
    let rest = active_occurrence device_id alarm_key os in
    if active_of device_id alarm_key o then some (pick o rest) else rest

-- One valid item of a snapshot.
pub record Alarm : Type 0 where
  pub alarm_key : String
  pub raised : Bool
  pub severity : String
  pub transition_count : ℕ
  pub value : Option Number
  pub threshold : Option Number

abbrev pub clear_row : ℕ → Option ℕ → AlarmOccurrence → AlarmOccurrence
clear_row time count o = record o {
  status = cleared;
  cleared_at = some time;
  clear_transition_count = count;
}

abbrev pub cleared_event : String → AlarmOccurrence → AlarmEvent
cleared_event reason o = alarm_cleared o.device_id o.id o.alarm_key reason

-- One occurrence is cleared, and the event says why.
abbrev pub clear_one : ℕ → Option ℕ → String → AlarmOccurrence → AlarmTables → AlarmTables
clear_one time count reason o t = record t {
  occurrences = update_where (λ x. x.id == o.id) (clear_row time count) t.occurrences;
  events = cleared_event reason o ∷ t.events;
}

abbrev pub clear_superseded : ℕ → ℕ → Option AlarmOccurrence → AlarmTables → AlarmTables
clear_superseded time count none t = t
clear_superseded time count (some o) t = clear_one time (some count) "superseded" o t

-- uq_alarm_occurrence_source
abbrev pub occurrence_conflict : AlarmOccurrence → AlarmOccurrence → Bool
occurrence_conflict new old =
    old.device_id == new.device_id
    && (old.source_boot_count == new.source_boot_count
        && (old.alarm_key == new.alarm_key
            && old.activation_transition_count == new.activation_transition_count))

abbrev pub new_occurrence : ℕ → ℕ → ℕ → Alarm → ℕ → AlarmOccurrence
new_occurrence device_id boot_count time a id = record {
  id = id;
  device_id = device_id;
  alarm_key = a.alarm_key;
  severity = a.severity;
  status = active;
  source_boot_count = boot_count;
  activation_transition_count = a.transition_count;
  clear_transition_count = none;
  value = a.value;
  threshold = a.threshold;
  activated_at = time;
  cleared_at = none;
  acknowledged_at = none;
  acknowledged_by_user_id = none;
}

-- db.add(occurrence), db.flush(), and the event
unfoldable pub insert_occurrence : AlarmOccurrence → AlarmTables → Result AlarmTables
insert_occurrence o t =
    if any (occurrence_conflict o) t.occurrences
    then err integrity_error
    else ok (record t {
      occurrences = o ∷ t.occurrences;
      events = alarm_activated o.device_id o.id o.alarm_key o.severity ∷ t.events;
      next_id = suc t.next_id;
    })

-- active.source_boot_count == boot_count and active.activation_transition_count == transition_count
abbrev pub is_repeat : ℕ → ℕ → Option AlarmOccurrence → Bool
is_repeat boot_count count none = false
is_repeat boot_count count (some o) =
    o.source_boot_count == boot_count && o.activation_transition_count == count

abbrev pub refresh_row : Alarm → AlarmOccurrence → AlarmOccurrence
refresh_row a o = record o { value = a.value; threshold = a.threshold }

abbrev pub refresh : Alarm → Option AlarmOccurrence → AlarmTables → AlarmTables
refresh a none t = t
refresh a (some o) t = record t {
  occurrences = update_where (λ x. x.id == o.id) (refresh_row a) t.occurrences;
}

abbrev pub count_change : Result AlarmTables → Result (ℕ × AlarmTables)
count_change (err e) = err e
count_change (ok t) = ok (1, t)

-- An item in one of the active states.
unfoldable pub raise_alarm :
    ℕ → ℕ → ℕ → Alarm → Option AlarmOccurrence → AlarmTables → Result (ℕ × AlarmTables)
unfolding insert_occurrence
raise_alarm device_id boot_count time a found t =
    let inserted = count_change (
      insert_occurrence (new_occurrence device_id boot_count time a t.next_id)
        (clear_superseded time a.transition_count found t)) in
    if a.transition_count == 0
    then ok (0, t)
    else if is_repeat boot_count a.transition_count found
    then ok (0, refresh a found t)
    else inserted

-- An item in one of the other states.
unfoldable pub clear_alarm : ℕ → Alarm → Option AlarmOccurrence → AlarmTables → ℕ × AlarmTables
clear_alarm time a none t = (0, t)
clear_alarm time a (some o) t = (1, clear_one time (some a.transition_count) "threshold_normal" o t)

unfoldable pub handle_alarm : ℕ → ℕ → ℕ → Alarm → AlarmTables → Result (ℕ × AlarmTables)
unfolding active_occurrence raise_alarm clear_alarm
handle_alarm device_id boot_count time a t =
    let found = active_occurrence device_id a.alarm_key t.occurrences in
    if a.raised
    then raise_alarm device_id boot_count time a found t
    else ok (clear_alarm time a found t)

-- Rules that a complete snapshot does not list any more.
abbrev pub is_missing : ℕ → List String → AlarmOccurrence → Bool
is_missing device_id seen o = active_on device_id o && not (any (λ k. k == o.alarm_key) seen)

unfoldable pub clear_missing : ℕ → ℕ → List String → AlarmTables → ℕ × AlarmTables
clear_missing device_id time seen t =
    let missing = keep (is_missing device_id seen) t.occurrences in
    (
      length missing,
      record t {
        occurrences = update_where (is_missing device_id seen) (clear_row time none) t.occurrences;
        events = map (cleared_event "rule_disabled_or_missing") missing ++ t.events;
      },
    )

unfoldable pub acknowledge_alarm : ℕ → ℕ → AlarmOccurrence → AlarmTables → AlarmTables
acknowledge_alarm user_id now o t = if is_some o.acknowledged_at then t else record t {
  occurrences =
      update_where (λ x. x.id == o.id)
        (λ x. record x { acknowledged_at = some now; acknowledged_by_user_id = some user_id })
        t.occurrences;
  events = alarm_acknowledged o.device_id o.id o.alarm_key ∷ t.events;
}

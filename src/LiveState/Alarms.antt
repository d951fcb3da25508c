-- ===== src/LiveState/Alarms.antt =====
-- app/device_live_state.py, `_normalize_alarms`: the alarms of a state message.
use smart_monitor_back_end.Base.{
  ℕ, String, Bool, Option, none, some, List, [], ◌∷◌, leb, length, take, if◌then◌else◌, string_eq,
}
use smart_monitor_back_end.Base.Http.{Result, ok, ◌>>=◌}
use smart_monitor_back_end.Base.Json.{
  is_true, Number, Json, array, object, Fields, get_field, elements,
}
use smart_monitor_back_end.Base.Text.{codes}
use smart_monitor_back_end.LiveState.Blocks.{
  Floats, finite_float, text_of, one_of, non_negative_int,
}

pub record AlarmItem : Type 0 where
  pub id : String
  pub state : String
  pub severity : String
  pub value : Option Number
  pub threshold : Number
  pub hysteresis : Number
  pub delay_ms : ℕ
  pub active_since_ms : ℕ
  pub transition_count : ℕ

pub record Alarms : Type 0 where
  pub ready : Bool
  pub self_test_passed : Bool
  pub enabled_rule_count : ℕ
  pub active_count : ℕ
  pub pending_count : ℕ
  pub transition_sequence : ℕ
  pub items : List AlarmItem

abbrev pub short_text : Option String → Option String
short_text none = none
short_text (some s) = if leb (length (codes s)) 63 then some s else none

abbrev pub known_option : List String → Option String → Option String
known_option known none = none
known_option known (some s) = one_of known s

abbrev pub alarm_states : List String
alarm_states = "normal" ∷ "pending_active" ∷ "active" ∷ "pending_clear" ∷ []

abbrev pub alarm_severities : List String
alarm_severities = "info" ∷ "warning" ∷ "critical" ∷ []

module _ (floats : Floats) where
  -- The item, unless one of its parts is None.
  abbrev pub alarm_item :
      Option String
      → Option String
      → Option String
      → Option Number
      → Option Number
      → Option ℕ
      → Option ℕ
      → Option ℕ
      → Json
      → Result (Option AlarmItem)
  alarm_item (some id) (some state) (some severity) (some threshold) (some hysteresis)
        (some delay_ms) (some active_since_ms) (some transition_count) raw_value =
      finite_float raw_value >>= λ value. ok (
        some (record {
          id = id;
          state = state;
          severity = severity;
          value = value;
          threshold = threshold;
          hysteresis = hysteresis;
          delay_ms = delay_ms;
          active_since_ms = active_since_ms;
          transition_count = transition_count;
        }))
  alarm_item _ _ _ _ _ _ _ _ raw_value = ok none

  -- One round of the loop over the items, with none for `continue`.
  unfoldable pub read_alarm_item : Json → Result (Option AlarmItem)
  unfolding text_of finite_float non_negative_int
  read_alarm_item (object raw) = do
    threshold ← finite_float (get_field "threshold" raw)
    hysteresis ← finite_float (get_field "hysteresis" raw)
    delay_ms ← non_negative_int floats (get_field "delay_ms" raw)
    active_since_ms ← non_negative_int floats (get_field "active_since_ms" raw)
    transition_count ← non_negative_int floats (get_field "transition_count" raw)
    alarm_item (short_text (text_of (get_field "id" raw)))
        (known_option alarm_states (text_of (get_field "state" raw)))
        (known_option alarm_severities (text_of (get_field "severity" raw))) threshold hysteresis
        delay_ms active_since_ms transition_count (get_field "value" raw)
  read_alarm_item _ = ok none

  abbrev pub with_item : Option AlarmItem → List AlarmItem → List AlarmItem
  with_item none items = items
  with_item (some i) items = i ∷ items

  unfoldable pub read_alarm_items : List Json → Result (List AlarmItem)
  unfolding read_alarm_item
  read_alarm_items [] = ok []
  read_alarm_items (raw ∷ raws) = do
    item ← read_alarm_item raw
    items ← read_alarm_items raws
    ok (with_item item items)

  -- None if one of the four counts is None
  abbrev pub alarms_of :
      Fields → List AlarmItem → Option ℕ → Option ℕ → Option ℕ → Option ℕ → Option Alarms
  alarms_of value items (some enabled) (some active) (some pending) (some sequence) = some (record {
    ready = is_true (get_field "ready" value);
    self_test_passed = is_true (get_field "self_test_passed" value);
    enabled_rule_count = enabled;
    active_count = active;
    pending_count = pending;
    transition_sequence = sequence;
    items = items;
  })
  alarms_of value items _ _ _ _ = none

  abbrev pub alarms_with_items : Fields → Option (List Json) → Result (Option Alarms)
  alarms_with_items value none = ok none
  alarms_with_items value (some raw_items) = do
    items ← read_alarm_items (take 6 raw_items)
    enabled ← non_negative_int floats (get_field "enabled_rule_count" value)
    active ← non_negative_int floats (get_field "active_count" value)
    pending ← non_negative_int floats (get_field "pending_count" value)
    sequence ← non_negative_int floats (get_field "transition_sequence" value)
    ok (alarms_of value items enabled active pending sequence)

  abbrev pub array_of : Json → Option (List Json)
  array_of (array xs) = some (elements xs)
  array_of _ = none

  unfoldable pub normalize_alarms : Json → Result (Option Alarms)
  unfolding read_alarm_items non_negative_int
  normalize_alarms (object value) = alarms_with_items value (array_of (get_field "items" value))
  normalize_alarms _ = ok none

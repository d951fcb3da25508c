-- ===== src/DeviceIdentity.antt =====
-- app/device_identity.py: the identity that a state message claims, against its topic.
pub mod Contract
mod Tests
use smart_monitor_back_end.Base.{
  ℕ, String, Bool, true, false, not, ◌&&◌, ◌||◌, Option, none, some, List, all, leb, eqb, length,
  if◌then◌else◌, is_some, ◌==◌, string_eq, option_eq,
}
use smart_monitor_back_end.Base.Http.{Error, Result, ok, err, value_error, raise_if, ◌>>=◌, ◌>>◌}
use smart_monitor_back_end.Base.Hex.{is_uid}
use smart_monitor_back_end.Base.Text.{codes}
use smart_monitor_back_end.Base.Json.{ℤ, pos, negsuc, Json, Fields, get_field, is_null, as_text}

-- DEVICE_UID_PATTERN, which is matched in full
abbrev pub canonical : Option String → Option String
canonical none = none
canonical (some s) = if is_uid s then some s else none

unfoldable pub is_canonical_device_uid : Json → Bool
is_canonical_device_uid value = is_some (canonical (as_text value))

-- one character of [^/+#]
abbrev pub is_topic_character : ℕ → Bool
is_topic_character c = not (eqb c 47 || (eqb c 43 || eqb c 35))

-- ^[^/+#]{1,31}$
unfoldable pub is_mqtt_device_id : String → Bool
is_mqtt_device_id s =
    leb 1 (length (codes s)) && (leb (length (codes s)) 31 && all is_topic_character (codes s))

abbrev pub or_identity_error : Option String → String → Result String
or_identity_error none message = err (value_error message)
or_identity_error (some s) message = ok s

-- `DeviceIdentityError` is a ValueError
unfoldable pub mqtt_client_id_for_device : String → Result String
mqtt_client_id_for_device device_uid =
    or_identity_error (canonical (some device_uid)) "device_uid is not canonical"

abbrev pub certificate_common_name_for_device : String → Result String
certificate_common_name_for_device = mqtt_client_id_for_device

-- neither `device_uid` nor `mqtt_device_id` is there
abbrev pub identity_absent : Fields → Bool
identity_absent payload =
    is_null (get_field "device_uid" payload) && is_null (get_field "mqtt_device_id" payload)

unfoldable pub check_identity_fields : String → Fields → Result (Option String)
check_identity_fields topic_mqtt_device_id payload = do
  device_uid ←
      or_identity_error (canonical (as_text (get_field "device_uid" payload)))
        "device_uid is missing or invalid"
  raise_if (not (as_text (get_field "mqtt_device_id" payload) == some topic_mqtt_device_id))
      (value_error "mqtt_device_id does not match topic")
  ok (some device_uid)

abbrev pub is_one : ℤ → Bool
is_one (pos n) = eqb n 1
is_one (negsuc n) = false

unfoldable pub validate_state_identity : String → Fields → ℤ → Result (Option String)
unfolding is_mqtt_device_id check_identity_fields
validate_state_identity topic_mqtt_device_id payload schema_version = do
  raise_if (not (is_mqtt_device_id topic_mqtt_device_id))
      (value_error "MQTT topic identity is invalid")
  if is_one schema_version && identity_absent payload
      then ok none
      else check_identity_fields topic_mqtt_device_id payload

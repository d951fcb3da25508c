-- ===== src/DeviceIdentity/Tests.antt =====
-- A complete identity, and a message that claims another device's topic.
use smart_monitor_back_end.Base.{◌≡◌, ◌⊎◌, refl, String, Option, none, some, true}
use smart_monitor_back_end.Base.Http.{ok, err, value_error}
use smart_monitor_back_end.Base.Json.{pos, Fields, field, closed, text}
use smart_monitor_back_end.Base.Hex.{is_uid}
use smart_monitor_back_end.DeviceIdentity.{
  is_mqtt_device_id, identity_absent, validate_state_identity,
}
use smart_monitor_back_end.DeviceIdentity.Contract.{Names, validate_state_identity-Names}

abbrev payload : Fields
payload =
    field "device_uid" (text "SM-0123456789AB") (field "mqtt_device_id" (text "meter-7") closed)

abbrev found : Option String
found = some "SM-0123456789AB"

foreign_topic :
    validate_state_identity "meter-8" payload (pos 2)
    ≡ err (value_error "mqtt_device_id does not match topic")
unfolding validate_state_identity is_uid
foreign_topic = refl

accepted : validate_state_identity "meter-7" payload (pos 2) ≡ ok (some "SM-0123456789AB")
unfolding validate_state_identity is_uid
accepted = refl

validate_state_identity-Names_example :
    (is_mqtt_device_id "meter-7" ≡ true)
    × (((found ≡ none) × (pos 2 ≡ pos 1) × (identity_absent payload ≡ true))
        ⊎ ((uid : String) × (found ≡ some uid) × Names "meter-7" payload uid))
validate_state_identity-Names_example =
    validate_state_identity-Names "meter-7" payload (pos 2) (some "SM-0123456789AB") accepted

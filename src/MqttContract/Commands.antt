-- ===== src/MqttContract/Commands.antt =====
-- app/mqtt_contract.py: `build_command_payload`.
use smart_monitor_back_end.Base.{◌≡◌, ◌≤◌, String, false}
use smart_monitor_back_end.Base.Text.{is_empty}
use smart_monitor_back_end.MqttContract.{len, max_request_id_length, max_command_length}

-- What `build_command_payload` takes.
abbrev pub IsCommand : String → String → Type 0
IsCommand request_id command =
    (is_empty request_id ≡ false)
    × (len request_id ≤ max_request_id_length)
    × (is_empty command ≡ false)
    × (len command ≤ max_command_length)

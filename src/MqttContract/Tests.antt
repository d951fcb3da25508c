-- ===== src/MqttContract/Tests.antt =====
-- A command, an answer to it, and the answer that is no answer.
use smart_monitor_back_end.Base.{◌≡◌, refl, none, some}
use smart_monitor_back_end.Base.Http.{value_error, ok, err, type_error}
use smart_monitor_back_end.Base.Json.{
  Json, Fields, field, closed, text, integer, pos, null, array, object, end,
}
use smart_monitor_back_end.MqttContract.{build_command_payload, validate_response_payload}
use smart_monitor_back_end.MqttContract.Responses.{Response, validate_response_payload-Response}

abbrev answer : Json → Json → Fields
answer result error_code = field "schema_version" (integer (pos 1)) (
    field "request_id" (text "r-1") (
      field "result" result (field "error_code" error_code (field "message" (text "done") closed))))

accepted :
    validate_response_payload (object (answer (text "ack") null)) (some "r-1")
    ≡ ok (answer (text "ack") null)
unfolding validate_response_payload
accepted = refl

-- A result that is a list is no MqttContractError but a TypeError.
list_crashes :
    validate_response_payload (object (answer (array end) null)) (some "r-1")
    ≡ err (type_error "unhashable type: 'list'")
unfolding validate_response_payload
list_crashes = refl

validate_response_payload-Response_example :
    Response (object (answer (text "ack") null)) (some "r-1") (answer (text "ack") null)
validate_response_payload-Response_example =
    validate_response_payload-Response (object (answer (text "ack") null)) (some "r-1")
      (answer (text "ack") null) accepted

-- No name of a command is empty.
unnamed :
    build_command_payload "r-1" "" none ≡ err (value_error "command must be a non-empty string")
unfolding build_command_payload
unnamed = refl

-- ===== src/MqttContract.antt =====
-- app/mqtt_contract.py: the shape of a command and of the response to it. `MqttContractError` is a
-- ValueError.
pub mod Commands
pub mod Responses
mod Tests
use smart_monitor_back_end.Base.{
  ℕ, String, Bool, true, false, not, ◌&&◌, ◌||◌, Option, none, some, leb, ltb, eqb, length,
  if◌then◌else◌, ◌==◌, string_eq,
}
use smart_monitor_back_end.Base.Http.{
  Result, ok, err, value_error, type_error, raise_if, ◌>>=◌, ◌>>◌,
}
use smart_monitor_back_end.Base.Json.{
  ℤ, pos, negsuc, Json, null, boolean, integer, float, text, array, object, Fields, field, closed,
  get_field, has_field, is_null, as_text, as_object, as_integer,
}
use smart_monitor_back_end.Base.Text.{codes, is_empty}

abbrev pub max_request_id_length : ℕ
max_request_id_length = 64

abbrev pub max_command_length : ℕ
max_command_length = 47

-- len(text) of a str
abbrev pub len : String → ℕ
len s = length (codes s)

abbrev pub or_contract {ℓ} : {A : Type ℓ} → Option A → String → Result A
or_contract none message = err (value_error message)
or_contract (some a) message = ok a

abbrev pub contract_if : Bool → String → Result (Unit {0})
contract_if b message = raise_if b (value_error message)

unfoldable pub validate_request_id : Json → Result String
validate_request_id value = do
  id ← or_contract (as_text value) "request_id must be a string"
  contract_if (is_empty id) "request_id must not be empty"
  contract_if (ltb max_request_id_length (len id)) "request_id is too long"
  ok id

abbrev pub is_schema_version : ℤ → Bool
is_schema_version (pos n) = eqb n 1
is_schema_version (negsuc n) = false

-- the first tests of both validations
unfoldable pub validate_schema : Fields → Result (Unit {0})
validate_schema payload = do
  version ←
      or_contract (as_integer (get_field "schema_version" payload))
        "schema_version must be an integer"
  contract_if (not (is_schema_version version)) "unsupported schema_version"

-- a str that is not empty
abbrev pub non_empty : Option String → Option String
non_empty none = none
non_empty (some s) = if is_empty s then none else some s

-- payload.get("parameters", {})
abbrev pub parameters_of : Fields → Json
parameters_of payload =
    if has_field "parameters" payload then get_field "parameters" payload else object closed

unfoldable pub validate_command_payload : Json → Result Fields
unfolding validate_request_id validate_schema
validate_command_payload value = do
  payload ← or_contract (as_object value) "command payload must be an object"
  validate_schema payload
  id ← validate_request_id (get_field "request_id" payload)
  command ←
      or_contract (non_empty (as_text (get_field "command" payload)))
        "command must be a non-empty string"
  contract_if (ltb max_command_length (len command)) "command is too long"
  parameters ← or_contract (as_object (parameters_of payload)) "parameters must be an object"
  ok payload

-- parameters or {}
abbrev pub or_empty_object : Option Fields → Fields
or_empty_object none = closed
or_empty_object (some fs) = fs

abbrev pub command_payload : String → String → Option Fields → Fields
command_payload request_id command parameters = field "schema_version" (integer (pos 1)) (
    field "request_id" (text request_id) (
      field "command" (text command)
        (field "parameters" (object (or_empty_object parameters)) closed)))

unfoldable pub build_command_payload : String → String → Option Fields → Result Fields
unfolding validate_command_payload
build_command_payload request_id command parameters =
    validate_command_payload (object (command_payload request_id command parameters))

pub data Answer : Type 0 where
  ack nack : Answer

abbrev pub known_answer : String → Option Answer
known_answer s = if s == "ack" then some ack else if s == "nack" then some nack else none

-- result in MQTT_RESULTS: an unhashable value is a TypeError
unfoldable pub read_answer : Json → Result Answer
read_answer (text s) = or_contract (known_answer s) "result must be ack or nack"
read_answer (array items) = err (type_error "unhashable type: 'list'")
read_answer (object fields) = err (type_error "unhashable type: 'dict'")
read_answer null = err (value_error "result must be ack or nack")
read_answer (boolean b) = err (value_error "result must be ack or nack")
read_answer (integer i) = err (value_error "result must be ack or nack")
read_answer (float f) = err (value_error "result must be ack or nack")

unfoldable pub check_error_code : Answer → Json → Result (Unit {0})
check_error_code ack error_code =
    contract_if (not (is_null error_code)) "ack error_code must be null"
check_error_code nack error_code = do
  code ← or_contract (non_empty (as_text error_code)) "nack error_code must be a non-empty string"
  ok tt

-- expected_request_id is not None and request_id != expected_request_id
abbrev pub other_request : String → Option String → Bool
other_request id none = false
other_request id (some expected) = not (id == expected)

abbrev pub is_object : Json → Bool
is_object (object fs) = true
is_object _ = false

unfoldable pub validate_response_payload : Json → Option String → Result Fields
unfolding validate_request_id validate_schema read_answer check_error_code
validate_response_payload value expected_request_id = do
  payload ← or_contract (as_object value) "response payload must be an object"
  validate_schema payload
  id ← validate_request_id (get_field "request_id" payload)
  contract_if (other_request id expected_request_id) "response request_id does not match"
  answer ← read_answer (get_field "result" payload)
  check_error_code answer (get_field "error_code" payload)
  message ← or_contract (as_text (get_field "message" payload)) "message must be a string"
  contract_if (has_field "data" payload && not (is_object (get_field "data" payload)))
      "data must be an object when present"
  ok payload

-- ===== src/MqttContract/Responses.antt =====
-- app/mqtt_contract.py: `validate_response_payload` where it accepts.
use smart_monitor_back_end.Base.{
  ◌≡◌, ◌⊎◌, ◌≤◌, refl, ◌∙◌, ap, subst, String, Bool, true, false, not, ◌&&◌, Option, none, some,
  arith, Bool-cases, inl, inr, ltb, ltb→ge, ◌==◌, string_eq,
}
use smart_monitor_back_end.Base.Http.{ok, >>=-eq-ok, ok_injective}
use smart_monitor_back_end.Base.Json.{
  Json, null, boolean, integer, float, text, array, object, Fields, get_field, has_field, is_null,
  as_text, as_object,
}
use smart_monitor_back_end.Base.Text.{is_empty}
use smart_monitor_back_end.MqttContract.{
  Answer, ack, nack, len, max_request_id_length, or_contract, contract_if, validate_request_id,
  validate_schema, non_empty, known_answer, read_answer, check_error_code, other_request, is_object,
  validate_response_payload,
}

pub or_contract-ok {ℓ} :
    {A : Type ℓ} (o : Option A) (message : String) {a : A}
    → or_contract o message ≡ ok a
    → o ≡ some a
or_contract-ok none message h = absurd (ground (arith, h))
or_contract-ok (some b) message h = ap some (ok_injective b _ h)

pub contract_if-ok :
    (b : Bool) (message : String) {u : Unit {0}} → contract_if b message ≡ ok u → b ≡ false
contract_if-ok true message h = cc
contract_if-ok false message h = refl

pub as_text-text : (value : Json) (s : String) → as_text value ≡ some s → value ≡ text s
as_text-text (text t) s h = ground (arith, h)
as_text-text null s h = absurd (ground (arith, h))
as_text-text (boolean b) s h = absurd (ground (arith, h))
as_text-text (integer i) s h = absurd (ground (arith, h))
as_text-text (float f) s h = absurd (ground (arith, h))
as_text-text (array items) s h = absurd (ground (arith, h))
as_text-text (object fields) s h = absurd (ground (arith, h))

as_object-object : (value : Json) (fs : Fields) → as_object value ≡ some fs → value ≡ object fs
as_object-object (object gs) fs h = ground (arith, h)
as_object-object null fs h = absurd (ground (arith, h))
as_object-object (boolean b) fs h = absurd (ground (arith, h))
as_object-object (integer i) fs h = absurd (ground (arith, h))
as_object-object (float f) fs h = absurd (ground (arith, h))
as_object-object (text s) fs h = absurd (ground (arith, h))
as_object-object (array items) fs h = absurd (ground (arith, h))

-- A request id that is sent and answered.
pub record IsRequestId (value : Json) (id : String) : Type 0 where
  pub given : value ≡ text id
  pub not_empty : is_empty id ≡ false
  pub short : len id ≤ max_request_id_length

pub validate_request_id-IsRequestId :
    (value : Json) (id : String) → validate_request_id value ≡ ok id → IsRequestId value id
unfolding validate_request_id
validate_request_id-IsRequestId value id h =
    let (s, e1, h1) = >>=-eq-ok (or_contract (as_text value) "request_id must be a string") _ h in
    let (_, e2, h2) = >>=-eq-ok (contract_if (is_empty s) "request_id must not be empty") _ h1 in
    let (_, e3, h3) =
      >>=-eq-ok (contract_if (ltb max_request_id_length (len s)) "request_id is too long") _ h2 in
    let same : s ≡ id = ok_injective s id h3 in
    record {
      given = as_text-text value s (or_contract-ok (as_text value) _ e1) ∙ ap text same;
      not_empty = subst (λ x. is_empty x ≡ false) same (contract_if-ok _ _ e2);
      short =
          subst (λ x. len x ≤ max_request_id_length) same
            (ltb→ge max_request_id_length (len s) (contract_if-ok _ _ e3));
    }

read_answer-text :
    (value : Json) (a : Answer)
    → read_answer value ≡ ok a
    → (s : String) × (value ≡ text s) × (known_answer s ≡ some a)
unfolding read_answer
read_answer-text (text s) a h = (s, refl, or_contract-ok (known_answer s) _ h)
read_answer-text null a h = absurd (ground (arith, h))
read_answer-text (boolean b) a h = absurd (ground (arith, h))
read_answer-text (integer i) a h = absurd (ground (arith, h))
read_answer-text (float f) a h = absurd (ground (arith, h))
read_answer-text (array items) a h = absurd (ground (arith, h))
read_answer-text (object fields) a h = absurd (ground (arith, h))

known_answer-eq :
    (s : String) (a : Answer)
    → known_answer s ≡ some a
    → ((a ≡ ack) × (s ≡ "ack")) ⊎ ((a ≡ nack) × (s ≡ "nack"))
known_answer-eq s a h = elim (Bool-cases (s == "ack")) [
  | inl e ↦ inl (ground (arith, h, e), (string_eq.beq_iff s "ack").0 e)
  | inr e ↦ elim (Bool-cases (s == "nack")) [
    | inl e' ↦ inr (ground (arith, h, e, e'), (string_eq.beq_iff s "nack").0 e')
    | inr e' ↦ absurd (ground (arith, h, e, e'))
  ]
]

-- A positive answer without an error, or a negative one with an error code.
abbrev pub Consistent : Fields → Type 0
Consistent payload =
    ((get_field "result" payload ≡ text "ack") × (is_null (get_field "error_code" payload) ≡ true))
    ⊎ ((get_field "result" payload ≡ text "nack")
        × (code : String) × (get_field "error_code" payload ≡ text code)
        × (is_empty code ≡ false))

non_empty-some :
    (o : Option String) (s : String) → non_empty o ≡ some s → (o ≡ some s) × (is_empty s ≡ false)
non_empty-some none s h = absurd (ground (arith, h))
non_empty-some (some t) s h = elim (Bool-cases (is_empty t)) [
  | inl e ↦ absurd (ground (arith, h, e))
  | inr e ↦
      let same : t ≡ s = ground (arith, h, e) in
      (ap some same, subst (λ x. is_empty x ≡ false) same e)
]

null_when_ack :
    (code : Json) {u : Unit {0}} → check_error_code ack code ≡ ok u → is_null code ≡ true
unfolding check_error_code
null_when_ack code h = ground (arith, contract_if-ok _ _ h)

code_when_nack :
    (code : Json) {u : Unit {0}}
    → check_error_code nack code ≡ ok u
    → (s : String) × (code ≡ text s) × (is_empty s ≡ false)
unfolding check_error_code
code_when_nack code h =
    let (s, e1, _) =
      >>=-eq-ok
        (or_contract (non_empty (as_text code)) "nack error_code must be a non-empty string") _ h in
    let (there, well) =
      non_empty-some (as_text code) s (or_contract-ok (non_empty (as_text code)) _ e1) in
    (s, as_text-text code s there, well)

answer-Consistent :
    (payload : Fields) (a : Answer) {u : Unit {0}}
    → read_answer (get_field "result" payload) ≡ ok a
    → check_error_code a (get_field "error_code" payload) ≡ ok u
    → Consistent payload
answer-Consistent payload a {u} read checked =
    let (s, given, known) = read_answer-text (get_field "result" payload) a read in
    elim (known_answer-eq s a known) [
      | inl (is_ack, same) ↦ inl (
        given ∙ ap text same,
        null_when_ack (get_field "error_code" payload) (
            subst (λ x. check_error_code x (get_field "error_code" payload) ≡ ok u) is_ack checked),
      )
      | inr (is_nack, same) ↦
          let (code, shown, filled) = code_when_nack (get_field "error_code" payload) (
            subst (λ x. check_error_code x (get_field "error_code" payload) ≡ ok u) is_nack
              checked) in
          inr (given ∙ ap text same, code, shown, filled)
    ]

-- What an accepted response has passed.
pub record Response (value : Json) (expected : Option String) (payload : Fields) : Type 0 where
  pub is_payload : value ≡ object payload
  pub id : String
  pub request : IsRequestId (get_field "request_id" payload) id
  pub answers : other_request id expected ≡ false
  pub consistent : Consistent payload
  pub message : String
  pub message_given : get_field "message" payload ≡ text message

-- A response is accepted only if it is an object that answers the expected request, with a request id
-- of 1 to 64 characters and a message, and that is either an `ack` without an error code or a `nack`
-- with a nonempty one.
pub validate_response_payload-Response :
    (value : Json) (expected : Option String) (payload : Fields)
    → validate_response_payload value expected ≡ ok payload
    → Response value expected payload
unfolding validate_response_payload
validate_response_payload-Response value expected payload h =
    let (fs, e1, h1) =
      >>=-eq-ok (or_contract (as_object value) "response payload must be an object") _ h in
    let (_, e2, h2) = >>=-eq-ok (validate_schema fs) _ h1 in
    let (id, e3, h3) = >>=-eq-ok (validate_request_id (get_field "request_id" fs)) _ h2 in
    let (_, e4, h4) =
      >>=-eq-ok (contract_if (other_request id expected) "response request_id does not match") _
        h3 in
    let (answer, e5, h5) = >>=-eq-ok (read_answer (get_field "result" fs)) _ h4 in
    let (_, e6, h6) = >>=-eq-ok (check_error_code answer (get_field "error_code" fs)) _ h5 in
    let (message, e7, h7) =
      >>=-eq-ok (or_contract (as_text (get_field "message" fs)) "message must be a string") _ h6 in
    let (_, e8, h8) =
      >>=-eq-ok
        (contract_if (has_field "data" fs && not (is_object (get_field "data" fs)))
          "data must be an object when present")
        _ h7 in
    let same : fs ≡ payload = ok_injective fs payload h8 in
    subst (Response value expected) same (record {
      is_payload = as_object-object value fs (or_contract-ok (as_object value) _ e1);
      id = id;
      request = validate_request_id-IsRequestId (get_field "request_id" fs) id e3;
      answers = contract_if-ok _ _ e4;
      consistent = answer-Consistent fs answer e5 e6;
      message = message;
      message_given =
          as_text-text (get_field "message" fs) message
            (or_contract-ok (as_text (get_field "message" fs)) _ e7);
    })

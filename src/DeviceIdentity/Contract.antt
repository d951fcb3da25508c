-- ===== src/DeviceIdentity/Contract.antt =====
-- app/device_identity.py: `validate_state_identity` where it accepts.
use smart_monitor_back_end.Base.{
  ◌≡◌, ◌⊎◌, refl, ap, subst, eqb_iff, String, Bool, true, false, not, ◌&&◌, Option, none, some,
  arith, Bool-cases, inl, inr, if◌then◌else◌, ◌==◌, option_eq, string_eq,
}
use smart_monitor_back_end.Base.Http.{Result, ok, value_error, raise_if, >>=-eq-ok}
use smart_monitor_back_end.Base.Hex.{is_uid}
use smart_monitor_back_end.Base.Json.{ℤ, pos, negsuc, Fields, get_field, as_text}
use smart_monitor_back_end.DeviceIdentity.{
  canonical, is_mqtt_device_id, or_identity_error, identity_absent, is_one, check_identity_fields,
  validate_state_identity,
}

-- The complete contract: the message names a canonical device, and the topic that it came on.
pub record Names (topic : String) (payload : Fields) (uid : String) : Type 0 where
  pub is_canonical : is_uid uid ≡ true
  pub hardware : as_text (get_field "device_uid" payload) ≡ some uid
  pub routing : as_text (get_field "mqtt_device_id" payload) ≡ some topic

canonical-some :
    (o : Option String) (uid : String)
    → canonical o ≡ some uid
    → (o ≡ some uid) × (is_uid uid ≡ true)
canonical-some none uid h = absurd (ground (arith, h))
canonical-some (some s) uid h = elim (Bool-cases (is_uid s)) [
  | inl e ↦
      let same : s ≡ uid = ground (arith, h, e) in
      (ap some same, subst (λ x. is_uid x ≡ true) same e)
  | inr e ↦ absurd (ground (arith, h, e))
]

or_identity_error-ok :
    (o : Option String) (message s : String) → or_identity_error o message ≡ ok s → o ≡ some s
or_identity_error-ok none message s h = absurd (ground (arith, h))
or_identity_error-ok (some t) message s h = ground (arith, h)

raise_if-ok :
    (b : Bool) (message : String) {u : Unit {0}}
    → raise_if b (value_error message) ≡ ok u
    → b ≡ false
raise_if-ok true message h = cc
raise_if-ok false message h = refl

check_identity_fields-Names :
    (topic : String) (payload : Fields) (r : Option String)
    → check_identity_fields topic payload ≡ ok r
    → (uid : String) × (r ≡ some uid) × Names topic payload uid
unfolding check_identity_fields
check_identity_fields-Names topic payload r h =
    let (uid, e1, h1) =
      >>=-eq-ok
        (or_identity_error (canonical (as_text (get_field "device_uid" payload)))
          "device_uid is missing or invalid")
        _ h in
    let (_, e2, h2) =
      >>=-eq-ok
        (raise_if (not (as_text (get_field "mqtt_device_id" payload) == some topic))
          (value_error "mqtt_device_id does not match topic"))
        _ h1 in
    let (there, well) =
      canonical-some (as_text (get_field "device_uid" payload)) uid
        (or_identity_error-ok (canonical (as_text (get_field "device_uid" payload))) _ uid e1) in
    (
      uid,
      ground (arith, h2),
      record {
        is_canonical = well;
        hardware = there;
        routing =
            (option_eq.beq_iff (as_text (get_field "mqtt_device_id" payload)) (some topic)).0
              (ground (arith, raise_if-ok _ _ e2));
      },
    )

accepted_branch :
    (b : Bool) (rest : Result (Option String)) (r : Option String)
    → (if b then ok none else rest) ≡ ok r
    → ((b ≡ true) × (r ≡ none)) ⊎ ((b ≡ false) × (rest ≡ ok r))
accepted_branch true rest r h = inl (refl, ground (arith, h))
accepted_branch false rest r h = inr (refl, h)

is_one-pos : (i : ℤ) → is_one i ≡ true → i ≡ pos 1
is_one-pos (pos n) h = ap pos ((eqb_iff n 1).0 h)
is_one-pos (negsuc n) h = absurd (ground (arith, h))

-- A state message is accepted only on a well-formed topic, and then in one of two ways: without an
-- identity, which the first schema alone allows and only if both identity fields are absent, or with
-- the complete one: a canonical hardware id, which is the result, and the routing id of the topic.
pub validate_state_identity-Names :
    (topic : String) (payload : Fields) (schema_version : ℤ) (r : Option String)
    → validate_state_identity topic payload schema_version ≡ ok r
    → (is_mqtt_device_id topic ≡ true)
      × (((r ≡ none) × (schema_version ≡ pos 1) × (identity_absent payload ≡ true))
          ⊎ ((uid : String) × (r ≡ some uid) × Names topic payload uid))
unfolding validate_state_identity
validate_state_identity-Names topic payload schema_version r h =
    let (_, e1, h1) =
      >>=-eq-ok
        (raise_if (not (is_mqtt_device_id topic)) (value_error "MQTT topic identity is invalid")) _
        h in
    (
      ground (arith, raise_if-ok _ _ e1),
      elim (accepted_branch (is_one schema_version && identity_absent payload)
          (check_identity_fields topic payload) r h1) [
            | inl (absent, none') ↦
                inl (
                  none',
                  is_one-pos schema_version (ground (arith, absent)),
                  ground (arith, absent),
                )
            | inr (there, rest) ↦ inr (check_identity_fields-Names topic payload r rest)
          ],
    )

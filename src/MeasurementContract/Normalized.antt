-- ===== src/MeasurementContract/Normalized.antt =====
-- app/measurement_contract.py: what an accepted electrical measurement holds.
use smart_monitor_back_end.Base.{
  ◌≡◌, ◌≢◌, refl, ap, ap₂, sym, subst, ◌∙◌, String, true, Option, none, some, List, [], ◌∷◌, arith,
  All, map, if◌then◌else◌, Bool-cases, inl, inr,
}
use smart_monitor_back_end.Base.Http.{Result, ok, err, ◌>>=◌, >>=-eq-ok, ok_injective}
use smart_monitor_back_end.Base.Json.{
  pos, negsuc, finite, not_finite, Json, null, boolean, integer, float, text, array, object, Fields,
  get_field, is_null, is_text, Number, whole, decimal,
}
use smart_monitor_back_end.MeasurementContract.{
  float_of, Checked, accepted, rejected, Values, numeric_value, field_value, with_entry,
  normalize_fields, value_of, missing_required, without_missing, check_required,
  electrical_field_quality_keys, required_electrical_fields, normalize_electrical_measurement,
}

-- The number that a JSON value is, if it is a finite one.
abbrev pub number_of : Json → Option Number
number_of (integer i) = some (whole i)
number_of (float (finite s)) = some (decimal s)
number_of _ = none

-- The number of a field whose quality is "ok", and nothing else.
abbrev pub reading : Fields → String × String → String × Option Number
reading energy (name, quality) = (
  name,
  if is_text "ok" (get_field quality energy) then number_of (get_field name energy) else none,
)

numeric_value-accepted :
    (name : String) (value : Json) (v : Option Number)
    → numeric_value name value ≡ ok (accepted v)
    → v ≡ number_of value
unfolding float_of
numeric_value-accepted name null v h = absurd (ground (arith, h))
numeric_value-accepted name (boolean b) v h = absurd (ground (arith, h))
numeric_value-accepted name (integer (pos n)) v h = ground (arith, h)
numeric_value-accepted name (integer (negsuc n)) v h = ground (arith, h)
numeric_value-accepted name (float (finite s)) v h = ground (arith, h)
numeric_value-accepted name (float not_finite) v h = absurd (ground (arith, h))
numeric_value-accepted name (text s) v h = absurd (ground (arith, h))
numeric_value-accepted name (array xs) v h = absurd (ground (arith, h))
numeric_value-accepted name (object fs) v h = absurd (ground (arith, h))

null_number : (value : Json) → is_null value ≡ true → number_of value ≡ none
null_number null h = refl
null_number (boolean b) h = cc
null_number (integer i) h = cc
null_number (float x) h = cc
null_number (text s) h = cc
null_number (array xs) h = cc
null_number (object fs) h = cc

field_value-accepted :
    (name : String) (quality value : Json) (v : Option Number)
    → field_value name quality value ≡ ok (accepted v)
    → v ≡ (if is_text "ok" quality then number_of value else none)
field_value-accepted name quality value v h = elim (Bool-cases (is_text "ok" quality)) [
  | inr bad ↦ ground (arith, h)
  | inl good ↦ elim (Bool-cases (is_null value)) [
    | inl absent ↦ ground (arith, h, null_number value absent)
    | inr there ↦ ground (arith, h, numeric_value-accepted name value v)
  ]
]

with_entry-accepted :
    (entry : String × Option Number) (c : Checked Values) (vs : Values)
    → with_entry entry c ≡ accepted vs
    → (ws : Values) × (c ≡ accepted ws) × (vs ≡ entry ∷ ws)
with_entry-accepted entry (accepted ws) vs h = (ws, refl, ground (arith, h))
with_entry-accepted entry (rejected reason) vs h = absurd (ground (arith, h))

normalize_fields-accepted :
    (keys : List (String × String)) (energy : Fields) (vs : Values)
    → normalize_fields keys energy ≡ ok (accepted vs)
    → vs ≡ map (reading energy) keys
unfolding normalize_fields
normalize_fields-accepted [] energy vs h = ground (arith, h)
normalize_fields-accepted ((name, quality) ∷ keys) energy vs h =
    let (c, e, k) =
      >>=-eq-ok (field_value name (get_field quality energy) (get_field name energy)) _ h in
    go (λ ws p. normalize_fields-accepted keys energy ws p) c e k
  where
    rest :
        (v : Option Number) (r : Result (Checked Values))
        → r ≡ normalize_fields keys energy
        → (r >>= λ values. ok (with_entry (name, v) values)) ≡ ok (accepted vs)
        → (ws : Values) × (normalize_fields keys energy ≡ ok (accepted ws)) × (vs ≡ (name, v) ∷ ws)
    rest v (err e) same k = absurd (ground (arith, k))
    rest v (ok c) same k =
        let (ws, e, f) = with_entry-accepted (name, v) c vs (ok_injective _ _ k) in
        (ws, sym same ∙ ap ok e, f)

    go :
        ((ws : Values)
          → normalize_fields keys energy ≡ ok (accepted ws)
          → ws ≡ map (reading energy) keys)
        → (c : Checked (Option Number))
        → field_value name (get_field quality energy) (get_field name energy) ≡ ok c
        → (elim c [
          | rejected reason ↦ ok (rejected reason)
          | accepted v ↦ normalize_fields keys energy >>= λ values. ok (with_entry (name, v) values)
        ])
          ≡ ok (accepted vs)
        → vs ≡ map (reading energy) ((name, quality) ∷ keys)
    go ih (rejected reason) e k = absurd (ground (arith, k))
    go ih (accepted v) e k =
        let (ws, accepted_rest, f) = rest v (normalize_fields keys energy) refl k in
        f
        ∙ ap₂ (λ x xs. (name, x) ∷ xs)
            (field_value-accepted name (get_field quality energy) (get_field name energy) v e)
            (ih ws accepted_rest)

-- Each of the three required fields has a value.
abbrev pub HasCore : Values → Type 0
HasCore vs = All (λ name. value_of name vs ≢ none) required_electrical_fields

core_of_missing :
    (vs ws : Values)
    → without_missing vs (missing_required vs) ≡ accepted ws
    → (vs ≡ ws) × HasCore vs
core_of_missing vs ws h = go (missing_required vs) refl h
  where
    go :
        (names : List String)
        → missing_required vs ≡ names
        → without_missing vs names ≡ accepted ws
        → (vs ≡ ws) × HasCore vs
    go [] e k = (ground (arith, k), present)
      where
        present : HasCore vs
        present = (
          (λ (absent : value_of "voltage_v" vs ≡ none). ground (arith, e, absent)),
          (
            (λ (absent : value_of "current_a" vs ≡ none). ground (arith, e, absent)),
            ((λ (absent : value_of "power_w" vs ≡ none). ground (arith, e, absent)), tt),
          ),
        )
    go (name ∷ names) e k = absurd (ground (arith, k))

-- An electrical measurement that the contract accepts is fresh and has for each of the six fields,
-- in their order, exactly the number that the message gives with the quality "ok", or no value; the
-- voltage, the current and the power have one.
pub normalize-Measured :
    (energy : Fields) (vs : Values)
    → normalize_electrical_measurement energy ≡ ok (accepted vs)
    → (is_text "fresh" (get_field "freshness" energy) ≡ true)
      × (vs ≡ map (reading energy) electrical_field_quality_keys)
      × HasCore vs
unfolding normalize_electrical_measurement
normalize-Measured energy vs h =
    elim (Bool-cases (is_text "fresh" (get_field "freshness" energy))) [
      | inr old ↦ absurd (ground (arith, h))
      | inl fresh ↦
          go fresh (normalize_fields electrical_field_quality_keys energy) refl (rw fresh at h)
    ]
  where
    go :
        is_text "fresh" (get_field "freshness" energy) ≡ true
        → (r : Result (Checked Values)) → normalize_fields electrical_field_quality_keys energy ≡ r
        → (r >>= λ checked. ok (check_required checked)) ≡ ok (accepted vs)
        → (is_text "fresh" (get_field "freshness" energy) ≡ true)
          × (vs ≡ map (reading energy) electrical_field_quality_keys)
          × HasCore vs
    go fresh (err e) p k = absurd (ground (arith, k))
    go fresh (ok (rejected reason)) p k = absurd (ground (arith, k))
    go fresh (ok (accepted ws)) p k =
        let (same, core) = core_of_missing ws vs (ok_injective _ _ k) in
        (
          fresh,
          sym same ∙ normalize_fields-accepted electrical_field_quality_keys energy ws p,
          subst HasCore same core,
        )

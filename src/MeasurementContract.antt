-- ===== src/MeasurementContract.antt =====
-- app/measurement_contract.py: which electrical values of a message are stored in the history. The
-- dictionary of values is the list of its entries in the order of the fields.
pub mod Normalized
mod Tests
use Prim.Native.Nat.{◌^◌}
use Prim.Native.String.{◌++◌ as str_append}
use smart_monitor_back_end.Base.{
  ℕ, suc, ◌-◌, ◌*◌, String, Bool, true, false, not, ◌||◌, Option, none, some, List, [], ◌∷◌, leb,
  keep, is_none, if◌then◌else◌, ◌==◌, string_eq,
}
use smart_monitor_back_end.Base.Http.{Result, ok, err, overflow_error, ◌>>=◌}
use smart_monitor_back_end.Base.Json.{
  ℤ, pos, negsuc, finite, not_finite, Json, null, boolean, integer, float, text, array, object,
  Fields, get_field, is_null, is_text, Number, whole, decimal,
}

-- The least number that rounds past the greatest double.
unfoldable pub float_overflow : ℕ
float_overflow = (2 ^ 54 - 1) * 2 ^ 970

-- float(i): the double nearest to `i`
unfoldable pub float_of : ℤ → Result Number
float_of (pos n) = if leb float_overflow n then err overflow_error else ok (whole (pos n))
float_of (negsuc n) =
    if leb float_overflow (suc n) then err overflow_error else ok (whole (negsuc n))

-- ELECTRICAL_FIELD_QUALITY_KEYS
abbrev pub electrical_field_quality_keys : List (String × String)
electrical_field_quality_keys =
    ("voltage_v", "voltage_quality")
    ∷ ("current_a", "current_quality")
    ∷ ("power_w", "power_quality")
    ∷ ("energy_kwh", "energy_quality")
    ∷ ("frequency_hz", "frequency_quality")
    ∷ ("power_factor", "power_factor_quality")
    ∷ []

abbrev pub required_electrical_fields : List String
required_electrical_fields = "voltage_v" ∷ "current_a" ∷ "power_w" ∷ []

abbrev pub Values : Type 0
Values = List (String × Option Number)

-- The pair that is returned: the values and no reason, or no values and a reason.
pub data Checked {ℓ} (A : Type ℓ) : Type ℓ where
  accepted : A → Checked A
  rejected : String → Checked A

abbrev pub numeric_value : String → Json → Result (Checked (Option Number))
numeric_value field_name (integer i) = float_of i >>= λ n. ok (accepted (some n))
numeric_value field_name (float (finite s)) = ok (accepted (some (decimal s)))
numeric_value field_name _ = ok (rejected (str_append "invalid_" field_name))

-- one round of the loop over the fields
abbrev pub field_value : String → Json → Json → Result (Checked (Option Number))
field_value field_name quality value =
    if not (is_text "ok" quality) || is_null value
    then ok (accepted none)
    else numeric_value field_name value

abbrev pub with_entry : String × Option Number → Checked Values → Checked Values
with_entry entry (accepted values) = accepted (entry ∷ values)
with_entry entry (rejected reason) = rejected reason

unfoldable pub normalize_fields : List (String × String) → Fields → Result (Checked Values)
normalize_fields [] energy = ok (accepted [])
normalize_fields ((field_name, quality_key) ∷ keys) energy = do
  value ← field_value field_name (get_field quality_key energy) (get_field field_name energy)
  elim value [
    | rejected reason ↦ ok (rejected reason)
    | accepted v ↦ normalize_fields keys energy >>= λ values. ok (with_entry (field_name, v) values)
  ]

-- values[field_name]
abbrev pub value_of : String → Values → Option Number
value_of field_name [] = none
value_of field_name ((name, v) ∷ values) =
    let rest = value_of field_name values in if name == field_name then v else rest

abbrev pub missing_required : Values → List String
missing_required values = keep (λ name. is_none (value_of name values)) required_electrical_fields

abbrev pub join_commas : List String → String
join_commas [] = ""
join_commas (s ∷ []) = s
join_commas (s ∷ t ∷ ss) = str_append s (str_append "," (join_commas (t ∷ ss)))

abbrev pub without_missing : Values → List String → Checked Values
without_missing values [] = accepted values
without_missing values (name ∷ names) =
    rejected (str_append "missing_or_invalid_core:" (join_commas (name ∷ names)))

abbrev pub check_required : Checked Values → Checked Values
check_required (rejected reason) = rejected reason
check_required (accepted values) = without_missing values (missing_required values)

unfoldable pub normalize_electrical_measurement : Fields → Result (Checked Values)
unfolding normalize_fields float_of
normalize_electrical_measurement energy =
    if not (is_text "fresh" (get_field "freshness" energy))
    then ok (rejected "not_fresh")
    else (normalize_fields electrical_field_quality_keys energy >>= λ checked.
        ok (check_required checked))

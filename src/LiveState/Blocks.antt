-- ===== src/LiveState/Blocks.antt =====
-- app/device_live_state.py: reading the values, energy blocks and alarms of a state message.
use smart_monitor_back_end.Base.{
  ℕ, String, Bool, Option, none, some, List, [], ◌∷◌, any, if◌then◌else◌, ◌==◌, string_eq,
}
use smart_monitor_back_end.Base.Dict
use smart_monitor_back_end.Base.Dict.{Dict}
use smart_monitor_back_end.Base.Double.{int_of_float}
use smart_monitor_back_end.Base.Http.{Result, ok, ◌>>=◌}
use smart_monitor_back_end.Base.Json.{
  pos, negsuc, finite, Number, decimal, Json, integer, float, text, Fields, get_field,
}
use smart_monitor_back_end.Base.Text.{is_empty, lower, strip}
use smart_monitor_back_end.MeasurementContract.{float_of}

-- What the code asks of finite floats, which are known by their text.
pub record Floats : Type 0 where
  -- int(x), for an x that is not negative and has no fraction
  pub natural : String → Option ℕ
  pub is_positive : String → Bool
  -- 0 <= x <= 1000000000
  pub is_daily_energy : String → Bool
  -- datetime.fromtimestamp(x, tz=timezone.utc), or none for its three errors
  pub from_timestamp : Number → Option ℕ

abbrev pub power_channel_keys : List String
power_channel_keys = "power_1" ∷ "power_2" ∷ "power_3" ∷ "power_4" ∷ []

abbrev pub energy_value_fields : List String
energy_value_fields =
    "voltage_v" ∷ "current_a" ∷ "power_w" ∷ "energy_kwh" ∷ "frequency_hz" ∷ "power_factor" ∷ []

abbrev pub energy_quality_fields : List String
energy_quality_fields =
    "voltage_quality" ∷ "current_quality" ∷ "power_quality" ∷ "energy_quality" ∷ "frequency_quality"
    ∷ "power_factor_quality" ∷ []

-- d[k] = v, where v may be None: a key with None reads like a key that is missing
abbrev pub set {ℓ} : {V : Type ℓ} → String → Option V → Dict String V → Dict String V
set k v d j = if k == j then v else d j

-- _finite_float
unfoldable pub finite_float : Json → Result (Option Number)
unfolding float_of
finite_float (integer i) = float_of i >>= λ n. ok (some n)
finite_float (float (finite s)) = ok (some (decimal s))
finite_float _ = ok none

abbrev pub or_none : String → Option String
or_none s = if is_empty s then none else some s

-- _text
unfoldable pub text_of : Json → Option String
unfolding strip
text_of (text s) = or_none (strip s)
text_of _ = none

abbrev pub one_of : List String → String → Option String
one_of known s = if any (λ k. k == s) known then some s else none

abbrev pub known_text : List String → Json → Option String
known_text known (text s) = one_of known (lower (strip s))
known_text known _ = none

-- _measurement_quality
unfoldable pub measurement_quality : Json → Option String
unfolding lower strip
measurement_quality = known_text ("ok" ∷ "incoherent" ∷ "unavailable" ∷ [])

-- _measurement_freshness
unfoldable pub measurement_freshness : Json → Option String
unfolding lower strip
measurement_freshness = known_text ("unknown" ∷ "fresh" ∷ "stale" ∷ [])

-- One block of `energy_channels`: the values and the qualities by their keys.
pub record EnergyBlock : Type 0 where
  pub freshness : Option String
  pub age_ms : Option ℕ
  pub values : Dict String Number
  pub qualities : Dict String String

abbrev pub empty_block : EnergyBlock
empty_block = record {
  freshness = none;
  age_ms = none;
  values = Dict.empty;
  qualities = Dict.empty;
}

-- The fields of a block or of the environment that hold a value, and those that hold a quality.
unfoldable pub read_values : List String → Fields → Result (Dict String Number)
unfolding finite_float
read_values [] fields = ok Dict.empty
read_values (field_name ∷ names) fields = do
  value ← finite_float (get_field field_name fields)
  rest ← read_values names fields
  ok (set field_name value rest)

unfoldable pub read_qualities : List String → Fields → Dict String String
unfolding measurement_quality
read_qualities [] fields = Dict.empty
read_qualities (name ∷ names) fields =
    set name (measurement_quality (get_field name fields)) (read_qualities names fields)

module _ (floats : Floats) where
  -- _non_negative_int
  unfoldable pub non_negative_int : Json → Result (Option ℕ)
  unfolding float_of int_of_float
  non_negative_int (integer (pos n)) = float_of (pos n) >>= λ _. ok (some (int_of_float n))
  non_negative_int (integer (negsuc n)) = float_of (negsuc n) >>= λ _. ok none
  non_negative_int (float (finite s)) = ok (floats.natural s)
  non_negative_int _ = ok none

  unfoldable pub normalize_energy_block : Fields → Result EnergyBlock
  unfolding measurement_freshness read_values read_qualities
  normalize_energy_block energy = do
    age_ms ← non_negative_int (get_field "age_ms" energy)
    values ← read_values energy_value_fields energy
    ok (record {
      freshness = measurement_freshness (get_field "freshness" energy);
      age_ms = age_ms;
      values = values;
      qualities = read_qualities energy_quality_fields energy;
    })

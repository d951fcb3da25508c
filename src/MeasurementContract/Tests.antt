-- ===== src/MeasurementContract/Tests.antt =====
-- The theorem on accepted measurements, at one whose energy counter is not "ok".
use smart_monitor_back_end.Base.{◌≡◌, refl, true, none, some, [], ◌∷◌, map}
use smart_monitor_back_end.Base.Http.{ok}
use smart_monitor_back_end.Base.Json.{
  pos, integer, float, finite, text, whole, decimal, Fields, field, closed, get_field, is_text,
}
use smart_monitor_back_end.MeasurementContract.{
  accepted, Values, float_overflow, electrical_field_quality_keys, normalize_electrical_measurement,
}
use smart_monitor_back_end.MeasurementContract.Normalized.{reading, HasCore, normalize-Measured}

abbrev energy : Fields
energy = field "freshness" (text "fresh") (
    field "voltage_v" (float (finite "230.5")) (
      field "voltage_quality" (text "ok") (
        field "current_a" (integer (pos 2)) (
          field "current_quality" (text "ok") (
            field "power_w" (integer (pos 460)) (
              field "power_quality" (text "ok") (
                field "energy_kwh" (float (finite "12.25"))
                  (field "energy_quality" (text "incoherent") closed))))))))

abbrev values : Values
values =
    ("voltage_v", some (decimal "230.5"))
    ∷ ("current_a", some (whole (pos 2)))
    ∷ ("power_w", some (whole (pos 460)))
    ∷ ("energy_kwh", none)
    ∷ ("frequency_hz", none)
    ∷ ("power_factor", none)
    ∷ []

normalized : normalize_electrical_measurement energy ≡ ok (accepted values)
unfolding normalize_electrical_measurement float_overflow
normalized = refl

normalize-Measured_example :
    (is_text "fresh" (get_field "freshness" energy) ≡ true)
    × (values ≡ map (reading energy) electrical_field_quality_keys)
    × HasCore values
normalize-Measured_example = normalize-Measured energy values normalized

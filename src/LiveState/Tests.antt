-- ===== src/LiveState/Tests.antt =====
-- The theorem on the live state, at messages that leave values out.
use smart_monitor_back_end.Base.{
  ℕ, ◌*◌, ◌+◌, ◌≡◌, refl, String, true, false, none, some, List, [], ◌∷◌, arith, string_eq,
}
use smart_monitor_back_end.Base.Json.{
  pos, finite, decimal, integer, float, object, field, closed, Fields,
}
use smart_monitor_back_end.LiveState.Blocks.{Floats}
use smart_monitor_back_end.LiveState.Snapshot.{read_snapshot}
use smart_monitor_back_end.LiveState.Store.{get, update}
use smart_monitor_back_end.LiveState.Slots.{energy, sensor}
use smart_monitor_back_end.LiveState.Follows.{shown}
use smart_monitor_back_end.LiveState.Shown.{
  Message, run, is_read, value_shown, last_report, run_shows_last_report,
}

-- None of the tests has a float where the code asks about it.
abbrev floats : Floats
floats = record {
  natural = λ s. none;
  is_positive = λ s. true;
  is_daily_energy = λ s. false;
  from_timestamp = λ x. none;
}

abbrev full : Fields
full = field "schema_version" (integer (pos 2)) (
    field "energy_channels"
      (object (field "power_2" (object (field "voltage_v" (float (finite "230.5")) closed)) closed))
      (field "environment" (object (field "temperature_c" (float (finite "21.5")) closed)) closed))

abbrev bare : Fields
bare = field "schema_version" (integer (pos 2)) closed

-- older firmware, whose block stands for the first channel
abbrev legacy : Fields
legacy = field "energy" (object (field "voltage_v" (float (finite "229.0")) closed)) closed

abbrev second : ℕ
second = 1000000

abbrev at : ℕ → String → Fields → Message
at t device payload = record { time = t * second; device = device; payload = payload }

abbrev past : List Message
past = at 8 "meter-2" legacy ∷ at 5 "meter-1" full ∷ []

-- Just at the limit of 15 seconds, the value of the first message is still there.
abbrev last : Message
last = record { time = 20 * second; device = "meter-1"; payload = bare }

still_shown :
    value_shown (energy "power_2" "voltage_v") (get "meter-1" (run floats (last ∷ past)))
    ≡ some (decimal "230.5")
unfolding run get update read_snapshot
still_shown = refl

too_old :
    value_shown
      (sensor "temperature_c")
      (get "meter-1" (run floats (record last { time = 20 * second + 1 } ∷ past)))
    ≡ none
unfolding run get update read_snapshot
too_old = refl

first_channel :
    value_shown (energy "power_1" "voltage_v") (get "meter-2" (run floats past))
    ≡ some (decimal "229.0")
unfolding run get update read_snapshot
first_channel = refl

readable : is_read (read_snapshot floats (20 * second) bare) ≡ true
unfolding read_snapshot
readable = refl

run_shows_last_report_example :
    value_shown (energy "power_2" "voltage_v") (get "meter-1" (run floats (last ∷ past)))
    ≡ shown
        (20 * second)
        (last_report floats (energy "power_2" "voltage_v") "meter-1" (last ∷ past))
run_shows_last_report_example =
    run_shows_last_report floats (energy "power_2" "voltage_v") last past refl
      (omega arith, (omega arith, tt)) readable

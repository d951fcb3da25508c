-- ===== src/IngestionCache/Tests.antt =====
-- A history of calls on two channels, one of them with a late and a foreign measurement.
use smart_monitor_back_end.Base.{
  ◌≡◌, refl, List, [], ◌∷◌, none, some, keep, ◌==◌, pair_eq, string_eq,
}
use smart_monitor_back_end.IngestionCache.{
  Key, init, get, set_if_absent, record_measurement, ignored,
}
use smart_monitor_back_end.IngestionCache.Histories.{
  Call, sets, records, call_key, run, summary, run-eq-summary,
}

abbrev main_channel : Key
main_channel = ("meter-7", "main")

abbrev history : List Call
history =
    sets main_channel (record { channel_id = 5; last_measured_at = none })
    ∷ records main_channel 5 200
    ∷ records ("meter-8", "main") 6 900
    ∷ records main_channel 6 400
    ∷ records main_channel 5 100
    ∷ records main_channel 5 300
    ∷ []

run-latest :
    get main_channel (run history init)
    ≡ some (record { channel_id = 5; last_measured_at = some 300 })
unfolding get init set_if_absent record_measurement ignored
run-latest = refl

run-eq-summary_example :
    get main_channel (run history init) ≡ summary (keep (λ c. call_key c == main_channel) history)
run-eq-summary_example = run-eq-summary history main_channel

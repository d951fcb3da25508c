-- ===== src/LiveState/Snapshot.antt =====
-- app/device_live_state.py, `update`: the snapshot that a state message gives, before values of
-- earlier messages are put in. The sensor values and the values of the first channel, which the code
-- keeps under keys of their own, are dictionaries.
use smart_monitor_back_end.Base.{
  ℕ, String, Bool, true, false, ◌&&◌, Option, none, some, List, [], ◌∷◌, all, leb, ltb, is_none,
  if◌then◌else◌, ◌==◌, string_eq, nat_eq, option_eq,
}
use smart_monitor_back_end.Base.Dict
use smart_monitor_back_end.Base.Dict.{Dict}
use smart_monitor_back_end.Base.Http.{Result, ok, ◌>>=◌}
use smart_monitor_back_end.Base.Json.{
  is_true, pos, negsuc, finite, Number, whole, decimal, Json, integer, float, object, Fields,
  closed, get_field, as_object, as_boolean,
}
use smart_monitor_back_end.LiveState.Blocks.{
  Floats, power_channel_keys, EnergyBlock, empty_block, finite_float, text_of,
  measurement_freshness, non_negative_int, normalize_energy_block, read_values, read_qualities,
}
use smart_monitor_back_end.LiveState.Alarms.{Alarms, normalize_alarms}

abbrev pub sensor_fields : List String
sensor_fields = "temperature_c" ∷ "humidity_pct" ∷ []

abbrev pub sensor_qualities : List String
sensor_qualities = "temperature_quality" ∷ "humidity_quality" ∷ []

pub record DailyEnergy : Type 0 where
  pub local_date : ℕ
  pub energy_kwh : Number

-- The instants are microseconds.
pub record Snapshot : Type 0 where
  pub received_at : ℕ
  pub measured_at : Option ℕ
  pub device_uid : Option String
  pub mqtt_device_id : Option String
  pub model : Option String
  pub hardware_revision : Option String
  pub firmware_version : Option String
  pub capabilities : Option Fields
  pub ntp_synchronized : Option Bool
  pub energy_channels : Option (Dict String EnergyBlock)
  pub sensor_status : Option String
  pub energy_status : Option String
  pub sensor_freshness : Option String
  pub sensor_age_ms : Option ℕ
  pub energy_freshness : Option String
  pub energy_age_ms : Option ℕ
  pub sensor_values : Dict String Number
  pub sensor_quality : Dict String String
  pub energy_values : Dict String Number
  pub energy_quality : Dict String String
  pub alarms : Option Alarms
  pub daily_energy : Option DailyEnergy

-- `if not isinstance(value, dict): value = {}`
abbrev pub or_empty : Json → Fields
or_empty (object fields) = fields
or_empty _ = closed

abbrev pub block_or_empty : Option EnergyBlock → EnergyBlock
block_or_empty none = empty_block
block_or_empty (some b) = b

abbrev pub channel_of : String → Dict String EnergyBlock → EnergyBlock
channel_of key channels = block_or_empty (Dict.get channels key)

-- `channels or None`; the keys are those of power_channel_keys
abbrev pub channels_or_none : Dict String EnergyBlock → Option (Dict String EnergyBlock)
channels_or_none channels =
    if all (λ key. is_none (Dict.get channels key)) power_channel_keys then none else some channels

abbrev pub is_positive : Floats → Number → Bool
is_positive floats (whole (pos n)) = ltb 0 n
is_positive floats (whole (negsuc n)) = false
is_positive floats (decimal s) = floats.is_positive s

abbrev pub is_daily_energy : Floats → Number → Bool
is_daily_energy floats (whole (pos n)) = leb n 1000000000
is_daily_energy floats (whole (negsuc n)) = false
is_daily_energy floats (decimal s) = floats.is_daily_energy s

-- schema_version == 2, for an int or a float
abbrev pub is_version_two : Floats → Json → Bool
is_version_two floats (integer (pos n)) = n == 2
is_version_two floats (float (finite s)) = floats.natural s == some 2
is_version_two floats _ = false

-- raw_energy_channels.get(channel_key): of the channels, or of the block of older firmware, which
-- stands for power_1
abbrev pub raw_block : Floats → Fields → String → Json
raw_block floats payload channel_key =
    if is_version_two floats (get_field "schema_version" payload)
    then get_field channel_key (or_empty (get_field "energy_channels" payload))
    else if channel_key == "power_1"
    then get_field "energy" payload
    else Json.null

-- The blocks that are objects, normalized.
unfoldable pub read_channels : Floats → Fields → List String → Result (Dict String EnergyBlock)
unfolding normalize_energy_block
read_channels floats payload [] = ok Dict.empty
read_channels floats payload (channel_key ∷ keys) =
    elim (as_object (raw_block floats payload channel_key)) [
      | none ↦ read_channels floats payload keys
      | some energy_block ↦
          (normalize_energy_block floats energy_block >>= λ block.
          read_channels floats payload keys >>= λ channels.
          ok (Dict.insert channel_key block channels))
    ]

-- The conditions are asked when the clock of the device is set and the timestamp is a finite number.
abbrev pub measured_time : Floats → Option Bool → Option Number → Option ℕ
measured_time floats (some true) (some timestamp) =
    if is_positive floats timestamp then floats.from_timestamp timestamp else none
measured_time floats _ _ = none

abbrev pub daily_with : Floats → Fields → Option Number → Json → Option DailyEnergy
daily_with floats raw_daily (some daily_kwh) (integer (pos local_date)) =
    if is_true (get_field "ready" raw_daily)
      && is_true (get_field "date_available" raw_daily)
      && is_daily_energy floats daily_kwh
      && leb 20000101 local_date
      && leb local_date 99991231
    then some (record { local_date = local_date; energy_kwh = daily_kwh })
    else none
daily_with floats raw_daily _ _ = none

unfoldable pub read_daily_energy : Floats → Json → Result (Option DailyEnergy)
unfolding finite_float
read_daily_energy floats (object raw_daily) =
    finite_float (get_field "energy_kwh" raw_daily) >>= λ daily_kwh.
    ok (daily_with floats raw_daily daily_kwh (get_field "local_date" raw_daily))
read_daily_energy floats _ = ok none

unfoldable pub read_snapshot : Floats → ℕ → Fields → Result Snapshot
unfolding read_channels finite_float normalize_alarms read_daily_energy non_negative_int read_values
    read_qualities text_of measurement_freshness
read_snapshot floats received_at payload = do
  let environment = or_empty (get_field "environment" payload)
  let managers = or_empty (get_field "managers" payload)
  let ntp_synchronized =
      as_boolean (get_field "ntp_synchronized" (or_empty (get_field "system" payload)))
  energy_channels ← read_channels floats payload power_channel_keys
  timestamp ← finite_float (get_field "timestamp" payload)
  alarms ← normalize_alarms floats (get_field "alarms" payload)
  daily_energy ← read_daily_energy floats (get_field "daily_energy" payload)
  sensor_age_ms ← non_negative_int floats (get_field "age_ms" environment)
  sensor_values ← read_values sensor_fields environment
  let primary_energy = channel_of "power_1" energy_channels
  ok (record {
    received_at = received_at;
    measured_at = measured_time floats ntp_synchronized timestamp;
    device_uid = text_of (get_field "device_uid" payload);
    mqtt_device_id = text_of (get_field "mqtt_device_id" payload);
    model = text_of (get_field "model" payload);
    hardware_revision = text_of (get_field "hardware_revision" payload);
    firmware_version = text_of (get_field "firmware_version" payload);
    capabilities = as_object (get_field "capabilities" payload);
    ntp_synchronized = ntp_synchronized;
    energy_channels = channels_or_none energy_channels;
    sensor_status = text_of (get_field "status" (or_empty (get_field "sensor" managers)));
    energy_status = text_of (get_field "status" (or_empty (get_field "energy" managers)));
    sensor_freshness = measurement_freshness (get_field "freshness" environment);
    sensor_age_ms = sensor_age_ms;
    energy_freshness = primary_energy.freshness;
    energy_age_ms = primary_energy.age_ms;
    sensor_values = sensor_values;
    sensor_quality = read_qualities sensor_qualities environment;
    energy_values = primary_energy.values;
    energy_quality = primary_energy.qualities;
    alarms = alarms;
    daily_energy = daily_energy;
  })

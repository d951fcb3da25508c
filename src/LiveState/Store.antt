-- ===== src/LiveState/Store.antt =====
-- app/device_live_state.py: the store of the snapshots and of the last values, which stand in for
-- values that a message lacks. The key f"{prefix}.{field}" is the pair of its two parts.
use smart_monitor_back_end.Base.{
  ℕ, ◌-◌, max, String, Bool, ◌||◌, Option, none, some, List, [], ◌∷◌, any, ltb, is_some,
  if◌then◌else◌, ◌==◌, string_eq, pair_eq,
}
use smart_monitor_back_end.Base.Dict
use smart_monitor_back_end.Base.Dict.{Dict}
use smart_monitor_back_end.Base.Double.{int_milliseconds}
use smart_monitor_back_end.Base.Http.{Result, ok, err}
use smart_monitor_back_end.Base.Json.{Number, Fields}
use smart_monitor_back_end.LiveState.Blocks.{
  Floats, power_channel_keys, energy_value_fields, EnergyBlock, set,
}
use smart_monitor_back_end.LiveState.Snapshot.{
  Snapshot, sensor_fields, channel_of, channels_or_none, read_snapshot,
}

-- LIVE_VALUE_HOLD_SECONDS, in microseconds
abbrev pub live_value_hold : ℕ
live_value_hold = 15000000

abbrev pub Entry : Type 0
Entry = Number × ℕ

abbrev pub LastValues : Type 0
LastValues = Dict (String × String) Entry

-- What `retain` gives: the value, the age of a value of the cache, and the entry that is left.
pub record Retained : Type 0 where
  pub value : Option Number
  pub age_ms : Option ℕ
  pub entry : Option Entry

abbrev pub retain_cached : ℕ → Option Entry → Retained
retain_cached received_at none = record { value = none; age_ms = none; entry = none }
retain_cached received_at (some (cached_value, cached_at)) =
    if ltb received_at cached_at || ltb live_value_hold (received_at - cached_at)
    then record { value = none; age_ms = none; entry = none }
    else record {
      value = some cached_value;
      age_ms = some (int_milliseconds (received_at - cached_at));
      entry = some (cached_value, cached_at);
    }

unfoldable pub retain_entry : ℕ → Option Number → Option Entry → Retained
unfolding int_milliseconds
retain_entry received_at (some value) entry = record {
  value = some value;
  age_ms = none;
  entry = some (value, received_at);
}
retain_entry received_at none entry = retain_cached received_at entry

abbrev pub set_entry : String × String → Option Entry → LastValues → LastValues
set_entry key entry cached j = if key == j then entry else cached j

abbrev pub add_age : Option ℕ → List ℕ → List ℕ
add_age none ages = ages
add_age (some age) ages = age ∷ ages

-- The values after a loop over fields, the ages of those of the cache, and the cache.
pub record Filled : Type 0 where
  pub values : Dict String Number
  pub ages : List ℕ
  pub cached : LastValues

abbrev pub with_age : Option ℕ → Filled → Filled
with_age age_ms filled = record filled { ages = add_age age_ms filled.ages }

unfoldable pub retain_fields : ℕ → String → List String → Dict String Number → LastValues → Filled
unfolding retain_entry
retain_fields received_at prefix [] values cached = record {
  values = values;
  ages = [];
  cached = cached;
}
retain_fields received_at prefix (field_name ∷ names) values cached =
    let key : String × String = (prefix, field_name) in
    let r = retain_entry received_at (Dict.get values field_name) (Dict.get cached key) in
    with_age r.age_ms (
      retain_fields received_at prefix names (set field_name r.value values)
        (set_entry key r.entry cached))

-- max(ages)
abbrev pub greatest : ℕ → List ℕ → ℕ
greatest age [] = age
greatest age (a ∷ ages) = max age (greatest a ages)

-- Freshness and age, when there are values of the cache.
abbrev pub freshness_with : List ℕ → Option String → Option String
freshness_with [] freshness = freshness
freshness_with (a ∷ ages) freshness = some "stale"

abbrev pub age_with : List ℕ → Option ℕ → Option ℕ
age_with [] age_ms = age_ms
age_with (a ∷ ages) age_ms = some (greatest a ages)

abbrev pub filled_block : EnergyBlock → Filled → EnergyBlock
filled_block block filled = record {
  freshness = freshness_with filled.ages block.freshness;
  age_ms = age_with filled.ages block.age_ms;
  values = filled.values;
  qualities = block.qualities;
}

abbrev pub has_value : Dict String Number → Bool
has_value values = any (λ field_name. is_some (Dict.get values field_name)) energy_value_fields

abbrev pub put_channel :
    String → EnergyBlock → Filled → Dict String EnergyBlock → Dict String EnergyBlock
put_channel channel_key block filled channels =
    if has_value filled.values
    then Dict.insert channel_key (filled_block block filled) channels
    else channels

unfoldable pub retain_channels :
    ℕ → List String → Dict String EnergyBlock → LastValues → Dict String EnergyBlock × LastValues
unfolding retain_fields
retain_channels received_at [] channels cached = (channels, cached)
retain_channels received_at (channel_key ∷ keys) channels cached =
    let block = channel_of channel_key channels in
    let filled = retain_fields received_at channel_key energy_value_fields block.values cached in
    retain_channels received_at keys (put_channel channel_key block filled channels) filled.cached

abbrev pub channels_of : Option (Dict String EnergyBlock) → Dict String EnergyBlock
channels_of none = Dict.empty
channels_of (some channels) = channels

-- _retain_recent_values
unfoldable pub retain_recent_values : ℕ → Snapshot → LastValues → Snapshot × LastValues
unfolding retain_fields retain_channels
retain_recent_values now snapshot cached =
    let sensor = retain_fields now "sensor" sensor_fields snapshot.sensor_values cached in
    let (channels, cached') =
      retain_channels now power_channel_keys (channels_of snapshot.energy_channels) sensor.cached in
    let primary_energy = channel_of "power_1" channels in
    (
      record snapshot {
        sensor_values = sensor.values;
        sensor_freshness = freshness_with sensor.ages snapshot.sensor_freshness;
        sensor_age_ms = age_with sensor.ages snapshot.sensor_age_ms;
        energy_channels = channels_or_none channels;
        energy_values = primary_energy.values;
        energy_freshness = primary_energy.freshness;
        energy_age_ms = primary_energy.age_ms;
      },
      cached',
    )

pub record DeviceLiveStateStore : Type 0 where
  pub states : Dict String Snapshot
  pub last_values : Dict String LastValues

abbrev pub init : DeviceLiveStateStore
init = record { states = Dict.empty; last_values = Dict.empty }

-- self._last_values.setdefault(mqtt_device_id, {})
abbrev pub or_no_values : Option LastValues → LastValues
or_no_values none = Dict.empty
or_no_values (some cached) = cached

abbrev pub last_values_of : String → DeviceLiveStateStore → LastValues
last_values_of device store = or_no_values (Dict.get store.last_values device)

unfoldable pub put_snapshot : ℕ → String → Snapshot → DeviceLiveStateStore → DeviceLiveStateStore
unfolding retain_recent_values
put_snapshot now device snapshot store =
    let (shown, cached) = retain_recent_values now snapshot (last_values_of device store) in
    record {
      states = Dict.insert device shown store.states;
      last_values = Dict.insert device cached store.last_values;
    }

-- A number that is too large for a float raises before the store is changed.
abbrev pub put_read :
    ℕ → String → Result Snapshot → DeviceLiveStateStore → Result (Unit {0}) × DeviceLiveStateStore
put_read now device (err e) store = (err e, store)
put_read now device (ok snapshot) store = (ok tt, put_snapshot now device snapshot store)

unfoldable pub update :
    Floats → ℕ → String → Fields → DeviceLiveStateStore → Result (Unit {0}) × DeviceLiveStateStore
unfolding read_snapshot put_snapshot
update floats now mqtt_device_id payload store =
    put_read now mqtt_device_id (read_snapshot floats now payload) store

unfoldable pub get : String → DeviceLiveStateStore → Option Snapshot
get mqtt_device_id store = Dict.get store.states mqtt_device_id

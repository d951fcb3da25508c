-- ===== src/IngestionCache.antt =====
-- app/ingestion_cache.py: the state in memory of each power channel, which filters the measurements
-- before the database. The lock makes each method one step.
pub mod Histories
mod Tests
use smart_monitor_back_end.Base.{
  ℕ, String, Bool, true, false, not, ◌&&◌, Option, none, some, if◌then◌else◌, ltb, ◌==◌, nat_eq,
  string_eq, pair_eq,
}
use smart_monitor_back_end.Base.Dict
use smart_monitor_back_end.Base.Dict.{Dict}

pub record PowerChannelState : Type 0 where
  pub channel_id : ℕ
  pub last_measured_at : Option ℕ

-- (mqtt_device_id, channel_key)
abbrev pub Key : Type 0
Key = String × String

-- `_states`
abbrev pub PowerIngestionCache : Type 0
PowerIngestionCache = Dict Key PowerChannelState

unfoldable pub init : PowerIngestionCache
init = Dict.empty

unfoldable pub get : Key → PowerIngestionCache → Option PowerChannelState
get key states = Dict.get states key

-- the state that is kept, when `existing` is there before
abbrev pub or_existing : Option PowerChannelState → PowerChannelState → PowerChannelState
or_existing none state = state
or_existing (some existing) state = existing

abbrev pub put_if_absent :
    Option PowerChannelState → Key → PowerChannelState → PowerIngestionCache → PowerIngestionCache
put_if_absent none key state states = Dict.insert key state states
put_if_absent (some existing) key state states = states

unfoldable pub set_if_absent :
    Key → PowerChannelState → PowerIngestionCache → PowerChannelState × PowerIngestionCache
set_if_absent key state states =
    let existing = Dict.get states key in
    (or_existing existing state, put_if_absent existing key state states)

-- existing.last_measured_at is not None and measured_at < existing.last_measured_at
abbrev pub is_older : ℕ → Option ℕ → Bool
is_older measured_at none = false
is_older measured_at (some last) = ltb measured_at last

-- the two early returns
unfoldable pub ignored : ℕ → ℕ → Option PowerChannelState → Bool
ignored channel_id measured_at none = false
ignored channel_id measured_at (some existing) =
    if not (existing.channel_id == channel_id)
    then true
    else is_older measured_at existing.last_measured_at

unfoldable pub record_measurement : Key → ℕ → ℕ → PowerIngestionCache → PowerIngestionCache
unfolding ignored
record_measurement key channel_id measured_at states =
    if ignored channel_id measured_at (Dict.get states key)
    then states
    else Dict.insert key (record { channel_id = channel_id; last_measured_at = some measured_at })
        states

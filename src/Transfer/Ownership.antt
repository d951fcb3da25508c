-- ===== src/Transfer/Ownership.antt =====
-- app/measurement_ownership.py: the owner epoch to which a measurement is attributed.
pub mod Epochs
use smart_monitor_back_end.Base.{
  ℕ, Bool, true, false, ◌||◌, not, ◌&&◌, String, Option, none, some, List, [], ◌∷◌, ltb,
  if◌then◌else◌, is_some, is_none, first, keep, ◌==◌, nat_eq,
}
use smart_monitor_back_end.Base.Http.{
  Result, ok, err, value_error, owner_unavailable, raise_if, ◌>>=◌, ◌>>◌,
}
use smart_monitor_back_end.Database.{
  Db, Device, DeviceChannel, DeviceMembership, DeviceTransfer, find_device, pending_of, owner_of,
}
use smart_monitor_back_end.Transfer.Guard.{latest_of}

pub record OwnerEpoch : Type 0 where
  pub device_id : ℕ
  pub owner_user_id : ℕ
  pub epoch_transfer_id : Option ℕ
  pub effective_at : Option ℕ

abbrev pub or_unavailable {ℓ} : {A : Type ℓ} → Option A → String → Result A
or_unavailable none message = err (owner_unavailable message)
or_unavailable (some a) message = ok a

abbrev pub find_channel : ℕ → Db → Option DeviceChannel
find_channel id db = first (λ c. c.id == id) db.channels

-- the only element of a list of one
abbrev pub only : List DeviceMembership → Option DeviceMembership
only [] = none
only (m ∷ []) = some m
only (m ∷ n ∷ ms) = none

abbrev pub transfer_id : Option DeviceTransfer → Option ℕ
transfer_id none = none
transfer_id (some t) = some t.id

abbrev pub transfer_time : Option DeviceTransfer → Option ℕ
transfer_time none = none
transfer_time (some t) = t.effective_at

abbrev pub epoch_inconsistent : Option DeviceTransfer → ℕ → Bool
epoch_inconsistent none user_id = false
epoch_inconsistent (some t) user_id =
    is_none t.effective_at || not (t.next_owner_user_id == user_id)

unfoldable pub resolve_owner_epoch : ℕ → Db → Result OwnerEpoch
resolve_owner_epoch channel_id db = do
  channel ← or_unavailable (find_channel channel_id db) "measurement channel missing"
  device ← or_unavailable (find_device channel.device_id db) "device unavailable"
  raise_if (not device.is_active) (owner_unavailable "device unavailable")
  raise_if (is_some (first (pending_of channel.device_id) db.transfers))
      (owner_unavailable "ownership transfer pending")
  owner ←
      or_unavailable (only (keep (owner_of channel.device_id) db.memberships))
        "one active owner required"
  let latest = latest_of channel.device_id db.transfers
  raise_if (epoch_inconsistent latest owner.user_id)
      (owner_unavailable "ownership epoch inconsistent")
  ok (record {
    device_id = channel.device_id;
    owner_user_id = owner.user_id;
    epoch_transfer_id = transfer_id latest;
    effective_at = transfer_time latest;
  })

abbrev predates : Option ℕ → ℕ → Bool
predates none measured_at = false
predates (some effective_at) measured_at = ltb measured_at effective_at

unfoldable pub require_measurement_in_epoch : OwnerEpoch → ℕ → Result (Unit {0})
require_measurement_in_epoch epoch measured_at =
    raise_if (predates epoch.effective_at measured_at)
      (owner_unavailable "measurement predates ownership epoch")

-- the row of `PowerMeasurementAttribution`
pub record PowerMeasurementAttribution : Type 0 where
  pub measurement_id : ℕ
  pub device_id : ℕ
  pub owner_user_id : ℕ
  pub epoch_transfer_id : Option ℕ
  pub attributed_at : ℕ

-- `id` is None until the measurement is flushed; the table is the list of its rows
unfoldable pub attach_measurement_owner :
    Option ℕ
    → OwnerEpoch
    → ℕ
    → List PowerMeasurementAttribution
    → Result (List PowerMeasurementAttribution)
attach_measurement_owner none epoch now rows =
    err (value_error "measurement must be flushed before attribution")
attach_measurement_owner (some id) epoch now rows = ok (
    record {
      measurement_id = id;
      device_id = epoch.device_id;
      owner_user_id = epoch.owner_user_id;
      epoch_transfer_id = epoch.epoch_transfer_id;
      attributed_at = now;
    }
    ∷ rows)

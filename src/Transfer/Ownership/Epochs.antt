-- ===== src/Transfer/Ownership/Epochs.antt =====
-- app/measurement_ownership.py: the epoch of an owner, and the measurements of it.
use smart_monitor_back_end.Base.{
  ℕ, ◌≡◌, refl, subst, false, not, String, Option, none, some, List, [], ◌∷◌, arith, Option-cases,
  inl, inr, first, keep, nat_eq, is_some,
}
use smart_monitor_back_end.Base.Http.{ok, owner_unavailable, raise_if, >>=-eq-ok}
use smart_monitor_back_end.Database.{
  Db, DeviceChannel, DeviceMembership, DeviceTransfer, find_device, pending_of, owner_of,
}
use smart_monitor_back_end.Transfer.Guard.{latest_of}
use smart_monitor_back_end.Transfer.Guard.Latest.{
  AllEffectiveBy, AllEffectiveBy-mono, latest_of-bound, latest_of-none,
}
use smart_monitor_back_end.Transfer.Ownership.{
  OwnerEpoch, or_unavailable, find_channel, only, epoch_inconsistent, transfer_id, transfer_time,
  resolve_owner_epoch, require_measurement_in_epoch,
}

or_unavailable-ok :
    {A : Type 0} (o : Option A) (message : String) {a : A}
    → or_unavailable o message ≡ ok a
    → o ≡ some a
or_unavailable-ok none message h = cc
or_unavailable-ok (some b) message h = cc

only-some : (ms : List DeviceMembership) (m : DeviceMembership) → only ms ≡ some m → ms ≡ m ∷ []
only-some [] m h = cc
only-some (a ∷ []) m h = cc
only-some (a ∷ b ∷ ms) m h = cc

-- Who holds the device of the epoch, and since when.
pub record Holds (channel_id : ℕ) (db : Db) (epoch : OwnerEpoch) : Type 0 where
  pub channel : DeviceChannel
  pub owner : DeviceMembership
  pub of_channel : find_channel channel_id db ≡ some channel
  pub same_device : epoch.device_id ≡ channel.device_id
  pub only_owner : keep (owner_of epoch.device_id) db.memberships ≡ owner ∷ []
  pub same_owner : epoch.owner_user_id ≡ owner.user_id
  pub none_pending : first (pending_of epoch.device_id) db.transfers ≡ none
  pub latest_id : epoch.epoch_transfer_id ≡ transfer_id (latest_of epoch.device_id db.transfers)
  pub latest_time : epoch.effective_at ≡ transfer_time (latest_of epoch.device_id db.transfers)
  pub consistent :
      epoch_inconsistent (latest_of epoch.device_id db.transfers) epoch.owner_user_id ≡ false

pub resolve_owner_epoch-Holds :
    (channel_id : ℕ) (db : Db) (epoch : OwnerEpoch)
    → resolve_owner_epoch channel_id db ≡ ok epoch
    → Holds channel_id db epoch
unfolding resolve_owner_epoch
resolve_owner_epoch-Holds channel_id db epoch h =
    let (channel, e1, h1) =
      >>=-eq-ok (or_unavailable (find_channel channel_id db) "measurement channel missing") _ h in
    let (device, e2, h2) =
      >>=-eq-ok (or_unavailable (find_device channel.device_id db) "device unavailable") _ h1 in
    let (_, e3, h3) =
      >>=-eq-ok (raise_if (not device.is_active) (owner_unavailable "device unavailable")) _ h2 in
    let (_, e4, h4) =
      >>=-eq-ok
        (raise_if (is_some (first (pending_of channel.device_id) db.transfers))
          (owner_unavailable "ownership transfer pending"))
        _ h3 in
    let (owner, e5, h5) =
      >>=-eq-ok
        (or_unavailable (only (keep (owner_of channel.device_id) db.memberships))
          "one active owner required")
        _ h4 in
    let (_, e6, h6) =
      >>=-eq-ok
        (raise_if (epoch_inconsistent (latest_of channel.device_id db.transfers) owner.user_id)
          (owner_unavailable "ownership epoch inconsistent"))
        _ h5 in
    let same : record {
      device_id = channel.device_id;
      owner_user_id = owner.user_id;
      epoch_transfer_id = transfer_id (latest_of channel.device_id db.transfers);
      effective_at = transfer_time (latest_of channel.device_id db.transfers);
    }
        ≡ epoch =
      cc h6 in
    subst (Holds channel_id db) same (record {
      channel = channel;
      owner = owner;
      of_channel = or_unavailable-ok _ "measurement channel missing" e1;
      same_device = refl;
      only_owner = only-some _ owner (or_unavailable-ok _ "one active owner required" e5);
      same_owner = refl;
      none_pending = ground (arith, e4);
      latest_id = refl;
      latest_time = refl;
      consistent = ground (arith, e6);
    })

in_epoch-bound :
    (device_id measured_at : ℕ) (ts : List DeviceTransfer) (user_id : ℕ)
    (latest : Option DeviceTransfer) (epoch : OwnerEpoch)
    → latest_of device_id ts ≡ latest
    → epoch.effective_at ≡ transfer_time latest
    → epoch_inconsistent latest user_id ≡ false
    → require_measurement_in_epoch epoch measured_at ≡ ok tt
    → AllEffectiveBy device_id measured_at ts
unfolding require_measurement_in_epoch
in_epoch-bound device_id measured_at ts user_id none epoch l e c h =
    latest_of-none device_id measured_at ts l
in_epoch-bound device_id measured_at ts user_id (some t) epoch l e c h =
    elim (Option-cases t.effective_at) [
      | inl missing ↦ absurd (ground (arith, missing, c))
      | inr (at, e') ↦
          AllEffectiveBy-mono device_id at measured_at ts (ground (arith, e, e', h))
            (latest_of-bound device_id at ts t l e')
    ]

-- A measurement is attributed only to the single owner of its channel's device, with no transfer
-- pending, and only if it was measured no earlier than every completed transfer of the device took
-- effect: data from before a transfer is never relabelled as the new owner's.
pub attribution_safe :
    (channel_id measured_at : ℕ) (db : Db) (epoch : OwnerEpoch)
    → resolve_owner_epoch channel_id db ≡ ok epoch
    → require_measurement_in_epoch epoch measured_at ≡ ok tt
    → Holds channel_id db epoch × AllEffectiveBy epoch.device_id measured_at db.transfers
attribution_safe channel_id measured_at db epoch h m =
    let held = resolve_owner_epoch-Holds channel_id db epoch h in
    (
      held,
      in_epoch-bound epoch.device_id measured_at db.transfers epoch.owner_user_id
          (latest_of epoch.device_id db.transfers) epoch refl held.latest_time held.consistent m,
    )

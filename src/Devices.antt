-- ===== src/Devices.antt =====
-- app/devices.py: a user claims a device with a proof that the device has registered. The two stores
-- are the proofs (app/claim_proof_store.py) and the database; the request handler changes both.
pub mod Claimed
pub mod Found
pub mod Channels
pub mod Associated
pub mod Claims
pub mod Members
mod Tests
use smart_monitor_back_end.Base.{
  ℕ, suc, String, Bool, true, false, not, ◌&&◌, Option, none, some, List, [], ◌∷◌, any, first,
  if◌then◌else◌, is_some, update_where, ◌==◌, nat_eq, string_eq, option_eq,
}
use smart_monitor_back_end.Base.Http.{
  Error, Result, ok, err, http_exception, integrity_error, runtime_error, raise_if, ◌>>=◌, ◌>>◌,
}
use smart_monitor_back_end.Database.{
  Db, Device, DeviceChannel, DeviceMembership, owner_of, of_device, find_device_by_uid,
  insert_membership,
}
use smart_monitor_back_end.ClaimProofStore
use smart_monitor_back_end.ClaimProofStore.{ClaimProofStore}
use smart_monitor_back_end.Transfer.Guard.{pending_transfer, require_active_transfer_access}

pub record DeviceClaimRequest : Type 0 where
  pub device_uid : String
  pub nonce : String

-- The unique columns `device_uid` and `mqtt_device_id`.
abbrev pub device_conflict : Device → Device → Bool
device_conflict new old =
    if old.device_uid == new.device_uid
    then true
    else is_some new.mqtt_device_id && old.mqtt_device_id == new.mqtt_device_id

abbrev pub insert_device : Device → Db → Result Db
insert_device d db =
    if any (device_conflict d) db.devices
    then err integrity_error
    else ok (record db { devices = d ∷ db.devices; next_device_id = suc db.next_device_id })

abbrev pub mqtt_conflict : Error
mqtt_conflict = http_exception 409 "MQTT identity already belongs to another device"

-- The branch `device is None`: a new device, active as by default.
unfoldable pub new_device : String → String → ℕ → Db → Result (Device × Db)
new_device device_uid mqtt_device_id now db = do
  raise_if (any (λ d. d.mqtt_device_id == some mqtt_device_id) db.devices) mqtt_conflict
  let device : Device = record {
    id = db.next_device_id;
    device_uid = device_uid;
    mqtt_device_id = some mqtt_device_id;
    name = none;
    is_active = true;
    created_at = now;
  }
  db' ← insert_device device db
  ok (device, db')

abbrev pub route : String → Device → Device
route mqtt_device_id d = record d { mqtt_device_id = some mqtt_device_id }

-- The other branch: the device takes the identifier that it registered with.
unfoldable pub known_device : Bool → Device → String → Db → Result (Device × Db)
known_device enabled device mqtt_device_id db = do
  raise_if (is_some (pending_transfer enabled device.id db))
      (http_exception 409 "Device transfer pending")
  raise_if
      (any (λ d. d.mqtt_device_id == some mqtt_device_id && not (d.id == device.id)) db.devices)
      mqtt_conflict
  ok (
    route mqtt_device_id device,
    record db { devices = update_where (λ d. d.id == device.id) (route mqtt_device_id) db.devices },
  )

unfoldable pub get_device : Bool → String → String → ℕ → Option Device → Db → Result (Device × Db)
unfolding new_device known_device
get_device enabled device_uid mqtt_device_id now none db =
    new_device device_uid mqtt_device_id now db
get_device enabled device_uid mqtt_device_id now (some device) db =
    known_device enabled device mqtt_device_id db

-- `owner`, whose account must be the current one; the transfer guard is asked only if there is one.
unfoldable pub check_owner : Bool → ℕ → ℕ → Option DeviceMembership → Db → Result (Unit {0})
check_owner enabled device_id user_id none db = ok tt
check_owner enabled device_id user_id (some owner) db = do
  raise_if (not (owner.user_id == user_id)) (http_exception 409 "Device already has an owner")
  require_active_transfer_access enabled device_id user_id "owner" db

abbrev pub membership_of : ℕ → ℕ → DeviceMembership → Bool
membership_of device_id user_id m = m.device_id == device_id && m.user_id == user_id

abbrev pub make_owner : DeviceMembership → DeviceMembership
make_owner m = record m { role = "owner" }

-- The index "one owner per device", at an update of a row of `user_id`.
abbrev pub other_owner : ℕ → ℕ → DeviceMembership → Bool
other_owner device_id user_id m = owner_of device_id m && not (m.user_id == user_id)

unfoldable pub promote : ℕ → ℕ → Option DeviceMembership → Db → Result Db
promote device_id user_id none db =
    insert_membership (record { user_id = user_id; device_id = device_id; role = "owner" }) db
promote device_id user_id (some membership) db =
    if membership.role == "owner"
    then ok db
    else if any (other_owner device_id user_id) db.memberships
    then err integrity_error
    else ok (record db {
      memberships = update_where (membership_of device_id user_id) make_owner db.memberships;
    })

-- default_power_channels: (channel_key, channel_name, enabled)
abbrev pub default_power_channels : List (String × String × Bool)
default_power_channels =
    ("power_1", "Power", true)
    ∷ ("power_2", "Power 2", true)
    ∷ ("power_3", "Power 3", true)
    ∷ ("power_4", "Power 4", false)
    ∷ []

abbrev pub has_channel : ℕ → String → List DeviceChannel → Bool
has_channel device_id channel_key channels =
    any (λ c. c.device_id == device_id && c.channel_key == channel_key) channels

-- `existing` is the table before the loop.
abbrev pub add_channels : ℕ → List DeviceChannel → List (String × String × Bool) → Db → Db
add_channels device_id existing [] db = db
add_channels device_id existing ((channel_key, channel_name, enabled) ∷ channels) db =
    add_channels device_id existing channels (
      if has_channel device_id channel_key existing then db else record db {
        channels =
            record {
              id = db.next_channel_id;
              device_id = device_id;
              channel_key = channel_key;
              name = some channel_name;
              is_enabled = enabled;
            }
            ∷ db.channels;
        next_channel_id = suc db.next_channel_id;
      })

-- Everything up to `db.commit()`.
unfoldable pub associate : Bool → String → String → ℕ → ℕ → Db → Result (Device × Db)
unfolding get_device check_owner promote insert_membership
associate enabled device_uid mqtt_device_id user_id now db = do
  (device, db') ←
      get_device enabled device_uid mqtt_device_id now (find_device_by_uid device_uid db) db
  check_owner enabled device.id user_id (first (owner_of device.id) db'.memberships) db'
  db'' ← promote device.id user_id (first (membership_of device.id user_id) db'.memberships) db'
  ok (device, add_channels device.id db''.channels default_power_channels db'')

-- The error of the answer: IntegrityError becomes a conflict, all else is raised again.
abbrev pub claim_error : Error → Error
claim_error integrity_error = http_exception 409 "Device association conflict"
claim_error e = e

pub record Stores : Type 0 where
  pub proofs : ClaimProofStore
  pub db : Db

-- `commit_claim_proof` after the commit of the database; a proof that is lost then raises, and
-- `db.rollback()` has nothing to undo.
abbrev pub settled : String → String → Device → Db → Bool × ClaimProofStore → Result Device × Stores
settled device_uid reservation_id device db (true, proofs) =
    (ok device, record { proofs = proofs; db = db })
settled device_uid reservation_id device db (false, proofs) = (
  err (runtime_error "Claim proof reservation was lost after database commit"),
  record { proofs = ClaimProofStore.release device_uid reservation_id proofs; db = db },
)

-- The answer to what the database says, with the reservation.
abbrev pub answer : String → String → ℕ → Stores → Result (Device × Db) → Result Device × Stores
answer device_uid reservation_id commit_time s (ok (device, db')) =
    settled device_uid reservation_id device db'
      (ClaimProofStore.commit device_uid reservation_id commit_time s.proofs)
answer device_uid reservation_id commit_time s (err e) = (
  err (claim_error e),
  record s { proofs = ClaimProofStore.release device_uid reservation_id s.proofs },
)

abbrev pub claim_reserved :
    Bool
    → DeviceClaimRequest
    → ℕ
    → ℕ
    → ℕ
    → Stores
    → Option (String × String)
    → Result Device × Stores
claim_reserved enabled payload user_id now commit_time s none =
    (err (http_exception 409 "Device association proof is invalid or expired"), s)
claim_reserved enabled payload user_id now commit_time s (some (reservation_id, mqtt_device_id)) =
    answer payload.device_uid reservation_id commit_time s
      (associate enabled payload.device_uid mqtt_device_id user_id now s.db)

module _ (sha256 : List ℕ → List ℕ) where
  -- The times are those of the reservation, of the rows and of the commit of the proof.
  unfoldable pub claim_device :
      Bool → DeviceClaimRequest → ℕ → ℕ → String → ℕ → ℕ → Stores → Result Device × Stores
  unfolding associate
  claim_device enabled payload user_id reserve_time id now commit_time s =
      let (reservation, proofs) =
        ClaimProofStore.reserve sha256 payload.device_uid payload.nonce reserve_time id s.proofs in
      claim_reserved enabled payload user_id now commit_time (record s { proofs = proofs })
        reservation

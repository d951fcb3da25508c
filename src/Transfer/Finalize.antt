-- ===== src/Transfer/Finalize.antt =====
-- app/device_transfer_finalizer.py: the atomic switch of ownership.
-- The broker's answer (`RetainedMqttIdentityVerifier.verify`) is a parameter: a function of the
-- device's identifiers and the receipt's reference.
pub mod Switch
pub mod Rights
pub mod Once
pub mod Outcomes
use smart_monitor_back_end.Base.{
  ℕ, ◌+◌, Bool, true, false, ◌&&◌, ◌||◌, not, String, Option, none, some, List, [], ◌∷◌, leb, ltb,
  if◌then◌else◌, is_some, is_none, first, keep, any, update_where, ◌==◌, nat_eq, string_eq,
}
use smart_monitor_back_end.Base.Http.{
  Result, ok, err, reject_if, or_reject, on_integrity, ◌>>=◌, ◌>>◌,
}
use smart_monitor_back_end.Base.Text.{strip, is_empty}
use smart_monitor_back_end.Database.{
  Db, Device, DeviceChannel, DeviceMembership, DeviceTransfer, IdentityCheck, AlarmConfiguration,
  User, completed, phase_completed, is_pending, is_completed, of_device, find_user, find_device,
  find_transfer, find_check, insert_membership, insert_notice, transact,
}
use smart_monitor_back_end.Transfer.Notice.{
  transfer_cause, completed_transfer_notice, new_owner_transfer_notice, notice_label,
}
use smart_monitor_back_end.Transfer.Stage.{Externals}

-- timedelta(minutes=2), in microseconds
abbrev pub max_identity_check_age : ℕ
max_identity_check_age = 120000000

-- verify(device_uid, mqtt_device_id, broker_reference)
abbrev pub Verifier : Type 0
Verifier = String → String → String → Bool

abbrev pub is_owner : DeviceMembership → Bool
is_owner m = m.role == "owner"

-- len(owners) == 1 and owners[0].user_id == user_id
abbrev pub single_owner : List DeviceMembership → ℕ → Bool
single_owner [] user_id = false
single_owner (m ∷ []) user_id = m.user_id == user_id
single_owner (m ∷ n ∷ ms) user_id = false

abbrev pub members_of : ℕ → Db → List DeviceMembership
members_of device_id db = keep (of_device device_id) db.memberships

-- A transfer that is already completed is returned again if the rights agree with it.
unfoldable pub confirm_completed : DeviceTransfer → Device → Db → Result (DeviceTransfer × Db)
confirm_completed transfer device db = do
  let current = members_of device.id db
  reject_if
      (is_none transfer.effective_at
        || (not (single_owner (keep is_owner current) transfer.next_owner_user_id)
            || any (λ m. m.user_id == transfer.previous_owner_user_id) current))
      "completed transfer is inconsistent"
  ok (transfer, db)

unfoldable pub check_due : DeviceTransfer → ℕ → Result (Unit {0})
check_due transfer now = do
  reject_if (not (is_pending transfer.state) || not (transfer.cause == transfer_cause))
      "transfer not pending"
  reject_if (leb transfer.not_before transfer.requested_at) "transfer deadline is inconsistent"
  reject_if (ltb now transfer.not_before) "transfer delay not elapsed"

-- `device.mqtt_device_id` if it is neither None nor empty
abbrev pub present : Option String → Option String
present none = none
present (some s) = if is_empty s then none else some s

unfoldable pub receipt_stale : IdentityCheck → String → String → DeviceTransfer → ℕ → Bool
unfolding strip
receipt_stale check device_uid mqtt_device_id transfer now =
    not (check.device_uid == device_uid)
    || (not (check.mqtt_device_id == mqtt_device_id)
        || (is_empty (strip check.broker_reference)
            || (ltb check.verified_at transfer.requested_at
                || (ltb now check.verified_at
                    || ltb (check.verified_at + max_identity_check_age) now))))

abbrev pub answers : Option Verifier → Verifier
answers none device_uid mqtt_device_id reference = false
answers (some verify) device_uid mqtt_device_id reference =
    verify device_uid mqtt_device_id reference

-- The stored receipt, and the live answer of the broker.
unfoldable pub check_identity :
    Option Verifier → DeviceTransfer → Device → ℕ → Db → Result (Unit {0})
unfolding receipt_stale
check_identity verifier transfer device now db = do
  check ← or_reject (find_check transfer.id db) "verified device-scoped MQTT identity required"
  mqtt_device_id ←
      or_reject (present device.mqtt_device_id) "verified device-scoped MQTT identity required"
  reject_if (receipt_stale check device.device_uid mqtt_device_id transfer now)
      "verified device-scoped MQTT identity required"
  reject_if (not (answers verifier device.device_uid mqtt_device_id check.broker_reference))
      "live broker identity verification required"

unfoldable pub check_owners : DeviceTransfer → Device → Db → Result (Unit {0})
check_owners transfer device db = do
  reject_if
      (not (single_owner (keep is_owner (members_of device.id db)) transfer.previous_owner_user_id))
      "previous owner is inconsistent"
  next_owner ← or_reject (find_user transfer.next_owner_user_id db) "new owner not eligible"
  reject_if (not next_owner.is_active || not next_owner.email_verified) "new owner not eligible"

-- Every membership of the device and its alarm configuration go.
abbrev pub remove_rights : ℕ → Db → Db
remove_rights device_id db = record db {
  memberships = keep (λ m. not (of_device device_id m)) db.memberships;
  alarm_configurations = keep (λ a. not (a.device_id == device_id)) db.alarm_configurations;
}

abbrev pub complete_row : ℕ → DeviceTransfer → DeviceTransfer
complete_row now t = record t { state = completed; effective_at = some now }

-- The labels of the previous owner go, and the transfer is completed.
abbrev pub finish : DeviceTransfer → ℕ → Db → Db
finish transfer now db = record db {
  devices =
      update_where (λ d. d.id == transfer.device_id) (λ d. record d { name = none }) db.devices;
  channels =
      update_where (λ c. c.device_id == transfer.device_id) (λ c. record c { name = none })
        db.channels;
  transfers = update_where (λ t. t.id == transfer.id) (complete_row now) db.transfers;
}

-- The two notices of a completed transfer.
unfoldable pub write_notices : Externals → DeviceTransfer → Device → ℕ → Db → Result Db
unfolding insert_notice notice_label completed_transfer_notice new_owner_transfer_notice
write_notices env transfer device now db = do
  old_body ← completed_transfer_notice env.paris (notice_label device.name device.device_uid) now
  new_body ← new_owner_transfer_notice env.paris device.device_uid now
  db' ←
      insert_notice
        (record {
          id = db.next_notice_id;
          transfer_id = transfer.id;
          user_id = transfer.previous_owner_user_id;
          phase = phase_completed;
          body = old_body;
          created_at = now;
          read_at = none;
        })
        db
  insert_notice
      (record {
        id = db'.next_notice_id;
        transfer_id = transfer.id;
        user_id = transfer.next_owner_user_id;
        phase = phase_completed;
        body = new_body;
        created_at = now;
        read_at = none;
      })
      db'

unfoldable pub switch_owner :
    Externals → DeviceTransfer → Device → ℕ → Db → Result (DeviceTransfer × Db)
unfolding insert_membership write_notices
switch_owner env transfer device now db = do
  db' ←
      insert_membership
        (record { user_id = transfer.next_owner_user_id; device_id = device.id; role = "owner" })
        (remove_rights device.id db)
  db'' ← write_notices env transfer device now (finish transfer now db')
  ok (complete_row now transfer, db'')

unfoldable pub complete_pending :
    Externals → Option Verifier → DeviceTransfer → Device → ℕ → Db → Result (DeviceTransfer × Db)
unfolding check_due check_identity check_owners switch_owner
complete_pending env verifier transfer device now db = do
  check_due transfer now
  check_identity verifier transfer device now db
  check_owners transfer device db
  switch_owner env transfer device now db

unfoldable pub complete_body :
    Externals → Option Verifier → ℕ → ℕ → Db → Result (DeviceTransfer × Db)
unfolding confirm_completed complete_pending
complete_body env verifier transfer_id now db = do
  transfer ← or_reject (find_transfer transfer_id db) "transfer not found"
  device ← or_reject (find_device transfer.device_id db) "transfer device missing"
  if is_completed transfer.state
      then confirm_completed transfer device db
      else complete_pending env verifier transfer device now db

unfoldable pub complete_due_transfer :
    Externals → Bool → Option Verifier → ℕ → ℕ → Db → Result DeviceTransfer × Db
unfolding complete_body
complete_due_transfer env enabled verifier transfer_id now db = transact db (do
  reject_if (not enabled) "ownership transfer is disabled"
  on_integrity "conflicting transfer completion" (complete_body env verifier transfer_id now db))

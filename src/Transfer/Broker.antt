-- ===== src/Transfer/Broker.antt =====
-- app/device_transfer_broker_worker.py: the completion of a transfer on fresh evidence of the broker.
-- The broker is asked without a lock, so the database at the row locks is an input of its own.
pub mod Collected
pub mod Evidence
mod Tests
use smart_monitor_back_end.Base.{
  ℕ, zero, suc, Bool, true, false, not, ◌||◌, ◌&&◌, String, Option, none, some, List, [], ◌∷◌, leb,
  ltb, length, take, keep, map, if◌then◌else◌, ◌==◌, nat_eq, string_eq, option_eq,
}
use smart_monitor_back_end.Base.Http.{
  Result, ok, err, value_error, transfer_rejected, raise_if, reject_if, or_reject, ◌>>=◌, ◌>>◌,
}
use smart_monitor_back_end.Base.Text.{codes, has_code, is_empty, strip}
use smart_monitor_back_end.Database.{
  Db, Device, DeviceTransfer, IdentityCheck, is_pending, is_completed, find_device, find_transfer,
}
use smart_monitor_back_end.Transfer.Stage.{Externals}
use smart_monitor_back_end.Transfer.Finalize.{Verifier, present, complete_due_transfer}

-- BrokerIdentityAttestor: attest(device_uid, mqtt_device_id), and verify
pub record Attestor : Type 0 where
  pub attest : String → String → Option String
  pub verify : Verifier

abbrev pub bad_reference : String → Bool
bad_reference reference =
    is_empty (strip reference)
    || (not (reference == strip reference)
        || (ltb 128 (length (codes reference)) || (has_code 13 reference || has_code 10 reference)))

unfoldable pub attested_reference : Option String → Result String
unfolding strip has_code
attested_reference none = err (transfer_rejected "trusted broker attestation required")
attested_reference (some reference) =
    reject_if (bad_reference reference) "trusted broker attestation required" >> ok reference

-- What the code knows of the device when it asks the broker.
pub record Asked : Type 0 where
  pub device_id : ℕ
  pub device_uid : String
  pub mqtt_device_id : String

-- What is read before the broker is asked.
unfoldable pub read_pending : ℕ → DeviceTransfer → Db → Result Asked
read_pending now transfer db = do
  reject_if (not (is_pending transfer.state)) "transfer not pending"
  reject_if (ltb now transfer.not_before) "transfer delay not elapsed"
  device ← or_reject (find_device transfer.device_id db) "device-scoped MQTT identity required"
  mqtt_device_id ← or_reject (present device.mqtt_device_id) "device-scoped MQTT identity required"
  ok (record {
    device_id = device.id;
    device_uid = device.device_uid;
    mqtt_device_id = mqtt_device_id;
  })

abbrev pub device_changed : Asked → Option Device → Bool
device_changed asked none = true
device_changed asked (some device) =
    not (device.device_uid == asked.device_uid)
    || not (device.mqtt_device_id == some asked.mqtt_device_id)

abbrev pub transfer_changed : Asked → Option DeviceTransfer → Bool
transfer_changed asked none = true
transfer_changed asked (some transfer) =
    not (is_pending transfer.state) || not (transfer.device_id == asked.device_id)

-- The second look, at the locked rows.
unfoldable pub check_locked : ℕ → Asked → Db → Result (Unit {0})
check_locked transfer_id asked locked =
    reject_if
      (device_changed asked (find_device asked.device_id locked)
        || transfer_changed asked (find_transfer transfer_id locked))
      "transfer or broker identity changed"

-- The receipt replaces the one of the transfer, if there is one.
abbrev pub put_receipt : IdentityCheck → Db → Db
put_receipt receipt db = record db {
  checks = receipt ∷ keep (λ c. not (c.transfer_id == receipt.transfer_id)) db.checks;
}

abbrev pub receipt_of : ℕ → Asked → String → ℕ → IdentityCheck
receipt_of transfer_id asked reference now = record {
  transfer_id = transfer_id;
  device_uid = asked.device_uid;
  mqtt_device_id = asked.mqtt_device_id;
  broker_reference = reference;
  verified_at = now;
}

-- `db.rollback()` also undoes the receipt.
abbrev pub rolled_back {ℓ} : {A : Type ℓ} → Db → Result A × Db → Result A × Db
rolled_back db (ok a, db') = (ok a, db')
rolled_back db (err e, db') = (err e, db)

module _ (env : Externals) (enabled : Bool) (attestor : Attestor) (transfer_id now : ℕ)
    (db locked : Db) where
  unfoldable pub evidence : DeviceTransfer → Result IdentityCheck
  unfolding read_pending attested_reference check_locked
  evidence transfer = do
    asked ← read_pending now transfer db
    reference ← attested_reference (attestor.attest asked.device_uid asked.mqtt_device_id)
    check_locked transfer_id asked locked
    ok (receipt_of transfer_id asked reference now)

  -- A rejection before the broker is asked leaves the database as others have it by then.
  abbrev pub finish_with : Result IdentityCheck → Result DeviceTransfer × Db
  finish_with (err e) = (err e, locked)
  finish_with (ok receipt) = rolled_back locked (
      complete_due_transfer env enabled (some attestor.verify) transfer_id now
        (put_receipt receipt locked))

  abbrev pub from_transfer : Option DeviceTransfer → Result DeviceTransfer × Db
  from_transfer none = (err (transfer_rejected "transfer not found"), db)
  from_transfer (some transfer) =
      if is_completed transfer.state
      then complete_due_transfer env enabled (some attestor.verify) transfer_id now db
      else finish_with (evidence transfer)

-- The databases are the one that is read first and the one at the row locks.
unfoldable pub complete_due_transfer_from_broker :
    Externals → Bool → Option Attestor → ℕ → ℕ → Db → Db → Result DeviceTransfer × Db
unfolding evidence complete_due_transfer
complete_due_transfer_from_broker env false attestor transfer_id now db locked =
    (err (transfer_rejected "ownership transfer is disabled"), db)
complete_due_transfer_from_broker env true none transfer_id now db locked =
    (err (transfer_rejected "trusted broker attestor required"), db)
complete_due_transfer_from_broker env true (some attestor) transfer_id now db locked =
    from_transfer env true attestor transfer_id now db locked (find_transfer transfer_id db)

abbrev pub is_due : ℕ → DeviceTransfer → Bool
is_due now t = is_pending t.state && leb t.not_before now

-- (not_before, id)
abbrev pub comes_before : DeviceTransfer → DeviceTransfer → Bool
comes_before a b = ltb a.not_before b.not_before || (a.not_before == b.not_before && leb a.id b.id)

abbrev pub insert_due : DeviceTransfer → List DeviceTransfer → List DeviceTransfer
insert_due t [] = t ∷ []
insert_due t (u ∷ us) = if comes_before t u then t ∷ u ∷ us else u ∷ insert_due t us

abbrev pub in_order : List DeviceTransfer → List DeviceTransfer
in_order [] = []
in_order (t ∷ ts) = insert_due t (in_order ts)

unfoldable pub due_transfer_ids : Bool → ℕ → ℕ → Db → Result (List ℕ)
due_transfer_ids false now limit db = ok []
due_transfer_ids true now limit db = do
  raise_if (ltb limit 1 || ltb 100 limit) (value_error "limit must be between 1 and 100")
  ok (map (λ t. t.id) (take limit (in_order (keep (is_due now) db.transfers))))

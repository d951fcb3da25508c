-- ===== src/Transfer/Broker/Evidence.antt =====
-- app/device_transfer_broker_worker.py: what a completion on broker evidence rests on.
use smart_monitor_back_end.Base.{
  ℕ, ◌≤◌, ◌≡◌, ◌∙◌, ◌⊎◌, inl, inr, refl, sym, ap, subst, Bool, true, false, not, Bool-cases, String,
  Option, none, some, first, keep, if◌then◌else◌, ◌==◌, nat_eq, string_eq, option_eq, eqb_iff,
}
use smart_monitor_back_end.Base.Http.{Result, ok, err}
use smart_monitor_back_end.Base.Rows.{first-holds}
use smart_monitor_back_end.Database.{
  Db, Device, DeviceTransfer, IdentityCheck, is_completed, find_device, find_transfer, find_check,
}
use smart_monitor_back_end.Transfer.Stage.{Externals}
use smart_monitor_back_end.Transfer.Finalize.{complete_due_transfer, complete_row}
use smart_monitor_back_end.Transfer.Finalize.Outcomes.{complete_due_transfer-completed}
use smart_monitor_back_end.Transfer.Finalize.Once.{Attested, complete_due_transfer_requires}
use smart_monitor_back_end.Transfer.Finalize.Rights.{Switched, complete_due_transfer-Switched}
use smart_monitor_back_end.Transfer.Broker.{
  Attestor, bad_reference, receipt_of, put_receipt, rolled_back, evidence, finish_with,
  from_transfer, complete_due_transfer_from_broker,
}
use smart_monitor_back_end.Transfer.Broker.Collected.{some_injective, Collected, evidence-Collected}

-- What the broker and the locked rows say of a completion at `now` of the locked row `t`.
pub record Evidence (attestor : Attestor) (now : ℕ) (locked : Db) (t : DeviceTransfer)
    : Type 0 where
  pub device : Device
  pub mqtt_device_id : String
  pub reference : String
  pub found : find_device t.device_id locked ≡ some device
  pub routed : device.mqtt_device_id ≡ some mqtt_device_id
  pub attested : attestor.attest device.device_uid mqtt_device_id ≡ some reference
  pub well_formed : bad_reference reference ≡ false
  pub verified : attestor.verify device.device_uid mqtt_device_id reference ≡ true
  pub due : t.not_before ≤ now

-- The ways in which a call can end, from the two databases that it sees.
abbrev pub Completed : Attestor → ℕ → ℕ → Db → Db → Result DeviceTransfer → Db → Type 0
Completed attestor transfer_id now db locked (err e) db' = (db' ≡ db) ⊎ (db' ≡ locked)
Completed attestor transfer_id now db locked (ok t') db' =
    ((db' ≡ db)
      × (t : DeviceTransfer) × (find_transfer transfer_id db ≡ some t)
      × (is_completed t.state ≡ true))
    ⊎ ((t : DeviceTransfer) × (find_transfer transfer_id locked ≡ some t)
        × (t' ≡ complete_row now t)
        × Evidence attestor now locked t
        × Switched t now locked db')

module _ (env : Externals) (attestor : Attestor) (id now : ℕ) (db locked : Db) where
  receipt_stored :
      (receipt : IdentityCheck) (t : DeviceTransfer) (check : IdentityCheck)
      → receipt.transfer_id ≡ t.id
      → find_check t.id (put_receipt receipt locked) ≡ some check
      → check ≡ receipt
  receipt_stored receipt t check e h = some_injective check receipt (
      sym h
      ∙ ap
          (λ (b : Bool).
            if b
            then some receipt
            else first (λ c. c.transfer_id == t.id)
                (keep (λ c. not (c.transfer_id == receipt.transfer_id)) locked.checks))
          ((eqb_iff receipt.transfer_id t.id).1 e))

  Collected-Evidence :
      (receipt : IdentityCheck) (d : Device)
      → (c : Collected env attestor id now db locked receipt)
      → find_device c.row.device_id locked ≡ some d
      → c.row.not_before ≤ now
      → Attested (some attestor.verify) c.row d now (put_receipt receipt locked)
      → Evidence attestor now locked c.row
  Collected-Evidence receipt d c found due a =
      let mqtt = c.asked.mqtt_device_id in
      let found' : find_device c.row.device_id locked ≡ some c.device =
        ap (λ i. find_device i locked) c.same_device ∙ c.found_device in
      let same_d = some_injective d c.device (sym found ∙ found') in
      let row_id : c.row.id ≡ id =
        (eqb_iff c.row.id id).0
          (first-holds (λ x. x.id == id) locked.transfers c.row c.found_row) in
      let stored : a.check ≡ receipt_of id c.asked c.reference now =
        receipt_stored receipt c.row a.check
          (ap (λ (x : IdentityCheck). x.transfer_id) c.same ∙ sym row_id) a.stored
        ∙ c.same in
      let same_uid : d.device_uid ≡ c.device.device_uid =
        ap (λ (x : Device). x.device_uid) same_d in
      let same_mqtt : a.mqtt_device_id ≡ mqtt =
        sym a.same_mqtt ∙ ap (λ (x : IdentityCheck). x.mqtt_device_id) stored in
      let same_reference : a.check.broker_reference ≡ c.reference =
        ap (λ (x : IdentityCheck). x.broker_reference) stored in
      record {
        device = c.device;
        mqtt_device_id = mqtt;
        reference = c.reference;
        found = found';
        routed = c.same_mqtt;
        attested =
            subst (λ x. attestor.attest x mqtt ≡ some c.reference) (sym c.same_uid) c.attested;
        well_formed = c.well_formed;
        verified =
            subst (λ x. attestor.verify x mqtt c.reference ≡ true) same_uid
              (subst (λ y. attestor.verify d.device_uid y c.reference ≡ true) same_mqtt
                (subst (λ z. attestor.verify d.device_uid a.mqtt_device_id z ≡ true) same_reference
                  a.live));
        due = due;
      }

  finish_with-Completed :
      (transfer : DeviceTransfer) (r : Result IdentityCheck)
      → evidence env true attestor id now db locked transfer ≡ r
      → let f = finish_with env true attestor id now db locked r in
        Completed attestor id now db locked f.0 f.1
  finish_with-Completed transfer (err e) h = inr refl
  finish_with-Completed transfer (ok receipt) h =
      go (complete_due_transfer env true (some attestor.verify) id now (put_receipt receipt locked))
        refl
    where
      go :
          (r : Result DeviceTransfer × Db)
          → complete_due_transfer env true
              (some attestor.verify)
              id
              now
              (put_receipt receipt locked)
            ≡ r
          → let f = rolled_back locked r in Completed attestor id now db locked f.0 f.1
      go (err e, db') k = inr refl
      go (ok t', db') k =
          let c = evidence-Collected env attestor id now db locked transfer receipt h in
          let t = c.row in
          let (row, s) =
            complete_due_transfer-Switched env true (some attestor.verify) id now
              (put_receipt receipt locked) db' t t' c.found_row c.is_open k in
          let (d, found, _, _, due, a, _, _, _, _, _) =
            complete_due_transfer_requires env true (some attestor.verify) id now
              (put_receipt receipt locked) db' t t' c.found_row c.is_open k in
          inr (
            t,
            c.found_row,
            row,
            Collected-Evidence receipt d c found due a,
            record {
              only_new_owner = s.only_new_owner;
              other_devices = s.other_devices;
              recorded = s.recorded;
              device_kept = s.device_kept;
              no_labels = s.no_labels;
              other_rows = s.other_rows;
              other_channels = s.other_channels;
              other_transfers = s.other_transfers;
              configurations = s.configurations;
              notified = s.notified;
              accounts = s.accounts;
              measured = s.measured;
            },
          )

  unchanged-Completed :
      (t : DeviceTransfer)
      → find_transfer id db ≡ some t
      → is_completed t.state ≡ true
      → (r : Result DeviceTransfer × Db) → r.1 ≡ db
      → Completed attestor id now db locked r.0 r.1
  unchanged-Completed t found c (err e, db') h = inl h
  unchanged-Completed t found c (ok t', db') h = inl (h, t, found, c)

  from_transfer-Completed :
      (o : Option DeviceTransfer)
      → find_transfer id db ≡ o
      → let f = from_transfer env true attestor id now db locked o in
        Completed attestor id now db locked f.0 f.1
  from_transfer-Completed none found = inl refl
  from_transfer-Completed (some t) found = elim (Bool-cases (is_completed t.state)) [
    | inl e ↦ rw e (
        unchanged-Completed t found e
          (complete_due_transfer env true (some attestor.verify) id now db)
          (complete_due_transfer-completed env true (some attestor.verify) id now db t found e))
    | inr e ↦ rw e (finish_with-Completed t (evidence env true attestor id now db locked t) refl)
  ]

-- A completion on broker evidence that succeeds found the transfer completed and changes nothing, or
-- completes the pending row that it finds under the locks: the broker attested, for the identifiers
-- that the device has under the locks, a well-formed reference, confirms that very reference again,
-- and the delay is over; then only the new owner has rights on the device, its labels and its alarm
-- configuration are gone, both owners are notified, and the rows of all other devices and transfers
-- stay. A call that fails writes nothing, not even the receipt.
pub complete_due_transfer_from_broker-Completed :
    (env : Externals) (enabled : Bool) (attestor : Attestor) (id now : ℕ) (db locked db' : Db)
    (result : Result DeviceTransfer)
    → complete_due_transfer_from_broker env enabled (some attestor) id now db locked ≡ (result, db')
    → Completed attestor id now db locked result db'
unfolding complete_due_transfer_from_broker
complete_due_transfer_from_broker-Completed env enabled attestor id now db locked db' result h =
    subst (λ (r : Result DeviceTransfer × Db). Completed attestor id now db locked r.0 r.1) h
      (go enabled)
  where
    go :
        (b : Bool)
        → let r = complete_due_transfer_from_broker env b (some attestor) id now db locked in
          Completed attestor id now db locked r.0 r.1
    go false = inl refl
    go true = from_transfer-Completed env attestor id now db locked (find_transfer id db) refl

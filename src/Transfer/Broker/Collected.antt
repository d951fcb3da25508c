-- ===== src/Transfer/Broker/Collected.antt =====
-- app/device_transfer_broker_worker.py: the evidence that is collected before the receipt is stored.
use smart_monitor_back_end.Base.{
  ℕ, ◌≡◌, refl, sym, ap, subst, Bool, true, false, ◌||◌, String, Option, none, some, arith, nat_eq,
  string_eq, option_eq, eqb_iff, eq_iff,
}
use smart_monitor_back_end.Base.Http.{ok, reject_if, reject_if-ok, >>=-eq-ok, ok_injective}
use smart_monitor_back_end.Database.{
  Db, Device, DeviceTransfer, IdentityCheck, is_pending, find_device, find_transfer,
}
use smart_monitor_back_end.Transfer.Stage.{Externals}
use smart_monitor_back_end.Transfer.Broker.{
  Attestor, Asked, bad_reference, attested_reference, read_pending, device_changed,
  transfer_changed, check_locked, receipt_of, evidence,
}

attested_reference-ok :
    (o : Option String) (reference : String)
    → attested_reference o ≡ ok reference
    → (o ≡ some reference) × (bad_reference reference ≡ false)
unfolding attested_reference
attested_reference-ok none reference h = cc
attested_reference-ok (some r) reference h =
    let (_, e, h1) =
      >>=-eq-ok (reject_if (bad_reference r) "trusted broker attestation required") _ h in
    let same = ok_injective r reference h1 in
    (ap some same, subst (λ s. bad_reference s ≡ false) same (reject_if-ok (bad_reference r) _ e))

device_unchanged :
    (asked : Asked) (o : Option Device)
    → device_changed asked o ≡ false
    → (d : Device) × (o ≡ some d)
      × (d.device_uid ≡ asked.device_uid)
      × (d.mqtt_device_id ≡ some asked.mqtt_device_id)
device_unchanged asked none h = cc
device_unchanged asked (some d) h = (
  d,
  refl,
  (eq_iff d.device_uid asked.device_uid).0 (ground (arith, h)),
  (option_eq.beq_iff d.mqtt_device_id (some asked.mqtt_device_id)).0 (ground (arith, h)),
)

transfer_unchanged :
    (asked : Asked) (o : Option DeviceTransfer)
    → transfer_changed asked o ≡ false
    → (t : DeviceTransfer) × (o ≡ some t)
      × (is_pending t.state ≡ true)
      × (t.device_id ≡ asked.device_id)
transfer_unchanged asked none h = cc
transfer_unchanged asked (some t) h =
    (t, refl, ground (arith, h), (eqb_iff t.device_id asked.device_id).0 (ground (arith, h)))

neither : (a b : Bool) → (a || b) ≡ false → (a ≡ false) × (b ≡ false)
neither true b h = cc
neither false b h = (refl, h)

pub some_injective {ℓ} : {A : Type ℓ} (x y : A) → some x ≡ some y → x ≡ y
some_injective x y h = ground (arith, h)

module _ (env : Externals) (attestor : Attestor) (id now : ℕ) (db locked : Db) where
  -- The evidence that a receipt stands for, before the broker is asked again.
  pub record Collected (receipt : IdentityCheck) : Type 0 where
    pub asked : Asked
    pub reference : String
    pub same : receipt ≡ receipt_of id asked reference now
    pub attested : attestor.attest asked.device_uid asked.mqtt_device_id ≡ some reference
    pub well_formed : bad_reference reference ≡ false
    pub device : Device
    pub found_device : find_device asked.device_id locked ≡ some device
    pub same_uid : device.device_uid ≡ asked.device_uid
    pub same_mqtt : device.mqtt_device_id ≡ some asked.mqtt_device_id
    pub row : DeviceTransfer
    pub found_row : find_transfer id locked ≡ some row
    pub is_open : is_pending row.state ≡ true
    pub same_device : row.device_id ≡ asked.device_id

  pub evidence-Collected :
      (transfer : DeviceTransfer) (receipt : IdentityCheck)
      → evidence env true attestor id now db locked transfer ≡ ok receipt
      → Collected receipt
  unfolding evidence check_locked
  evidence-Collected transfer receipt h =
      let (asked, _, h1) = >>=-eq-ok (read_pending now transfer db) _ h in
      let (reference, e2, h2) =
        >>=-eq-ok (attested_reference (attestor.attest asked.device_uid asked.mqtt_device_id)) _
          h1 in
      let (_, e3, h3) = >>=-eq-ok (check_locked id asked locked) _ h2 in
      let (same_device, same_transfer) =
        neither (device_changed asked (find_device asked.device_id locked))
          (transfer_changed asked (find_transfer id locked))
          (reject_if-ok _ "transfer or broker identity changed" e3) in
      let (attested, well_formed) =
        attested_reference-ok (attestor.attest asked.device_uid asked.mqtt_device_id) reference
          e2 in
      let (d, f1, f2, f3) =
        device_unchanged asked (find_device asked.device_id locked) same_device in
      let (t, g1, g2, g3) = transfer_unchanged asked (find_transfer id locked) same_transfer in
      record {
        asked = asked;
        reference = reference;
        same = sym (ok_injective _ receipt h3);
        attested = attested;
        well_formed = well_formed;
        device = d;
        found_device = f1;
        same_uid = f2;
        same_mqtt = f3;
        row = t;
        found_row = g1;
        is_open = g2;
        same_device = g3;
      }

-- ===== src/Devices/Found.antt =====
-- app/devices.py: the row of the device of a claim.
use smart_monitor_back_end.Base.{
  suc, keep, Bool-cases, ap, beq_self, ℕ, ◌≡◌, inl, inr, refl, sym, subst, ◌∙◌, String, Bool, true,
  not, ◌&&◌, Option, none, some, List, ◌∷◌, arith, any, is_some, ◌==◌, nat_eq, string_eq, option_eq,
  eq_iff,
}
use smart_monitor_back_end.Base.Rows.{first-holds, first-update_where, keep-update_where_disjoint}
use smart_monitor_back_end.Base.Http.{ok, raise_if, >>=-eq-ok, ok_injective}
use smart_monitor_back_end.Database.{Db, Device, find_device_by_uid}
use smart_monitor_back_end.Transfer.Guard.{pending_transfer}
use smart_monitor_back_end.Devices.{
  insert_device, device_conflict, route, mqtt_conflict, new_device, known_device, get_device,
}

-- The rows of the other devices.
abbrev pub other_devices : ℕ → List Device → List Device
other_devices k ds = keep (λ d. not (d.id == k)) ds

-- The row of the device of a claim: a new one, or the one of that identifier with its new route.
abbrev pub claimed_row : String → String → ℕ → Db → Option Device → Device
claimed_row uid mqtt now db none = record {
  id = db.next_device_id;
  device_uid = uid;
  mqtt_device_id = some mqtt;
  name = none;
  is_active = true;
  created_at = now;
}
claimed_row uid mqtt now db (some d) = record d { mqtt_device_id = some mqtt }

-- The device of a claim, which is stored with both identifiers; nothing but the table of the devices
-- changes.
pub record Found (uid mqtt : String) (now : ℕ) (db : Db) (r : Device × Db) : Type 0 where
  pub row : r.0 ≡ claimed_row uid mqtt now db (find_device_by_uid uid db)
  pub same_uid : r.0.device_uid ≡ uid
  pub same_mqtt : r.0.mqtt_device_id ≡ some mqtt
  pub stored : find_device_by_uid uid r.1 ≡ some r.0
  pub others : other_devices r.0.id r.1.devices ≡ other_devices r.0.id db.devices
  pub rest : r.1 ≡ record db { devices = r.1.devices; next_device_id = r.1.next_device_id }

insert_device-shape :
    (d : Device) (db db' : Db)
    → insert_device d db ≡ ok db'
    → db' ≡ record db { devices = d ∷ db.devices; next_device_id = suc db.next_device_id }
insert_device-shape d db db' h = elim (Bool-cases (any (device_conflict d) db.devices)) [
  | inl taken ↦ absurd (ground (arith, taken, h))
  | inr free ↦ sym (ok_injective _ db' (rw free at h))
]

new_device-Found :
    (uid mqtt : String) (now : ℕ) (db : Db) (r : Device × Db)
    → find_device_by_uid uid db ≡ none
    → new_device uid mqtt now db ≡ ok r
    → Found uid mqtt now db r
unfolding new_device
new_device-Found uid mqtt now db r f h =
    let d = claimed_row uid mqtt now db none in
    let (_, _, h1) =
      >>=-eq-ok (raise_if (any (λ d. d.mqtt_device_id == some mqtt) db.devices) mqtt_conflict) _
        h in
    let (db', e2, h2) = >>=-eq-ok (insert_device d db) _ h1 in
    subst (Found uid mqtt now db) (ok_injective _ r h2) (
      subst (λ x. Found uid mqtt now db (d, x)) (sym (insert_device-shape d db db' e2))
        (record {
          row = rw f refl;
          same_uid = refl;
          same_mqtt = refl;
          stored = rw (beq_self uid);
          others = rw (beq_self db.next_device_id);
          rest = refl;
        }))

known_device-Found :
    (enabled : Bool) (d : Device) (mqtt : String) (now : ℕ) (db : Db) (r : Device × Db)
    → find_device_by_uid d.device_uid db ≡ some d
    → known_device enabled d mqtt db ≡ ok r
    → Found d.device_uid mqtt now db r
unfolding known_device
known_device-Found enabled d mqtt now db r found h =
    let (_, _, h1) = >>=-eq-ok (raise_if (is_some (pending_transfer enabled d.id db)) _) _ h in
    let (_, _, h2) =
      >>=-eq-ok
        (raise_if (any (λ e. e.mqtt_device_id == some mqtt && not (e.id == d.id)) db.devices)
          mqtt_conflict)
        _ h1 in
    subst (Found d.device_uid mqtt now db) (ok_injective _ r h2) (record {
      row = rw found refl;
      same_uid = refl;
      same_mqtt = refl;
      stored =
          first-update_where (λ e. e.device_uid == d.device_uid) (λ e. e.id == d.id) (route mqtt)
            db.devices d (λ e. refl) found
          ∙ ap some (rw (beq_self d.id));
      others =
          keep-update_where_disjoint (λ e. not (e.id == d.id)) (λ e. e.id == d.id) (route mqtt)
            db.devices (λ e k. rw k) (λ e k. rw k);
      rest = refl;
    })

pub get_device-Found :
    (enabled : Bool) (uid mqtt : String) (now : ℕ) (o : Option Device) (db : Db) (r : Device × Db)
    → find_device_by_uid uid db ≡ o
    → get_device enabled uid mqtt now o db ≡ ok r
    → Found uid mqtt now db r
unfolding get_device
get_device-Found enabled uid mqtt now none db r f h = new_device-Found uid mqtt now db r f h
get_device-Found enabled uid mqtt now (some d) db r f h =
    let same : d.device_uid ≡ uid =
      (eq_iff d.device_uid uid).0 (first-holds (λ e. e.device_uid == uid) db.devices d f) in
    subst (λ s. Found s mqtt now db r) same
      (known_device-Found enabled d mqtt now db r
        (subst (λ s. find_device_by_uid s db ≡ some d) (sym same) f) h)

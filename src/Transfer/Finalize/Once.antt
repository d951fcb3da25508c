-- ===== src/Transfer/Finalize/Once.antt =====
-- app/device_transfer_finalizer.py: the tests of a completion, and completing again.
use smart_monitor_back_end.Base.{
  ℕ, ◌+◌, ◌≤◌, ◌<◌, ◌≡◌, ◌≢◌, refl, sym, ◌∙◌, ap, subst, Bool, true, false, ◌||◌, not, String,
  Option, none, some, [], ◌∷◌, arith, keep, ◌==◌, nat_eq, string_eq, eqb_iff, eq_iff,
}
use smart_monitor_back_end.Base.Http.{
  ok, reject_if, or_reject, on_integrity, >>=-eq-ok, reject_if-ok, or_reject-ok,
}
use smart_monitor_back_end.Base.Rows.{first-holds}
use smart_monitor_back_end.Database.{
  Db, Device, DeviceTransfer, IdentityCheck, User, find_transfer, find_device, find_check,
  find_user, is_pending, transact,
}
use smart_monitor_back_end.Transfer.Notice.{transfer_cause}
use smart_monitor_back_end.Transfer.Stage.{Externals}
use smart_monitor_back_end.Transfer.Finalize.{
  Verifier, check_due, check_identity, check_owners, members_of, single_owner, is_owner,
  complete_row, complete_body, confirm_completed, complete_due_transfer, answers, present,
  receipt_stale, max_identity_check_age,
}
use smart_monitor_back_end.Transfer.Finalize.Switch.{complete_pending-ok}
use smart_monitor_back_end.Transfer.Finalize.Rights.{
  complete_due_transfer-Switched, completion, complete_body-again,
}

confirm_completed-ok :
    (t : DeviceTransfer) (d : Device) (db : Db) (at : ℕ)
    → t.effective_at ≡ some at
    → t.previous_owner_user_id ≢ t.next_owner_user_id
    → members_of d.id db
      ≡ record { user_id = t.next_owner_user_id; device_id = d.id; role = "owner" } ∷ []
    → confirm_completed t d db ≡ ok (t, db)
unfolding confirm_completed
confirm_completed-ok t d db at e ne m = rw (e, m) (ground arith)

pub check_due-ok :
    (t : DeviceTransfer) (now : ℕ)
    → check_due t now ≡ ok tt
    → (t.cause ≡ transfer_cause) × (t.requested_at < t.not_before) × (t.not_before ≤ now)
unfolding check_due
check_due-ok t now h = ground (arith, eq_iff t.cause transfer_cause)

-- The receipt that a completion of `t` on the device `d` rests on.
pub record Attested (verifier : Option Verifier) (t : DeviceTransfer) (d : Device) (now : ℕ)
    (db : Db) : Type 0 where
  pub check : IdentityCheck
  pub mqtt_device_id : String
  pub stored : find_check t.id db ≡ some check
  pub device_mqtt : d.mqtt_device_id ≡ some mqtt_device_id
  pub same_uid : check.device_uid ≡ d.device_uid
  pub same_mqtt : check.mqtt_device_id ≡ mqtt_device_id
  pub after_request : t.requested_at ≤ check.verified_at
  pub not_future : check.verified_at ≤ now
  pub fresh : now ≤ check.verified_at + max_identity_check_age
  pub live : answers verifier d.device_uid mqtt_device_id check.broker_reference ≡ true

receipt_fresh :
    (c : IdentityCheck) (uid mqtt : String) (t : DeviceTransfer) (now : ℕ)
    → receipt_stale c uid mqtt t now ≡ false
    → (c.device_uid ≡ uid)
      × (c.mqtt_device_id ≡ mqtt)
      × (t.requested_at ≤ c.verified_at)
      × (c.verified_at ≤ now)
      × (now ≤ c.verified_at + max_identity_check_age)
unfolding receipt_stale
receipt_fresh c uid mqtt t now h =
    ground (arith, eq_iff c.device_uid uid, eq_iff c.mqtt_device_id mqtt)

present-some : (o : Option String) (s : String) → present o ≡ some s → o ≡ some s
present-some none s h = cc
present-some (some String.[]) s h = cc
present-some (some (String.◌∷◌ c r)) s h = h

not-false : (b : Bool) → not b ≡ false → b ≡ true
not-false b h = ground arith

check_identity-ok :
    (verifier : Option Verifier) (t : DeviceTransfer) (d : Device) (now : ℕ) (db : Db)
    → check_identity verifier t d now db ≡ ok tt
    → Attested verifier t d now db
unfolding check_identity
check_identity-ok verifier t d now db h =
    let message : String = "verified device-scoped MQTT identity required" in
    let (c, e1, h1) = >>=-eq-ok (or_reject (find_check t.id db) message) _ h in
    let (mqtt, e2, h2) = >>=-eq-ok (or_reject (present d.mqtt_device_id) message) _ h1 in
    let (u, e3, h3) =
      >>=-eq-ok (reject_if (receipt_stale c d.device_uid mqtt t now) message) _ h2 in
    let facts = receipt_fresh c d.device_uid mqtt t now (reject_if-ok _ message e3) in
    record {
      check = c;
      mqtt_device_id = mqtt;
      stored = or_reject-ok (find_check t.id db) message e1;
      device_mqtt =
          present-some d.mqtt_device_id mqtt (or_reject-ok (present d.mqtt_device_id) message e2);
      same_uid = facts.0;
      same_mqtt = facts.1;
      after_request = facts.2;
      not_future = facts.3;
      fresh = facts.4;
      live = not-false _ (reject_if-ok _ "live broker identity verification required" h3);
    }

check_owners-ok :
    (t : DeviceTransfer) (d : Device) (db : Db)
    → check_owners t d db ≡ ok tt
    → (single_owner (keep is_owner (members_of d.id db)) t.previous_owner_user_id ≡ true)
      × (u : User) × (find_user t.next_owner_user_id db ≡ some u)
      × (u.is_active ≡ true)
      × (u.email_verified ≡ true)
unfolding check_owners
check_owners-ok t d db h =
    let (_, e1, h1) =
      >>=-eq-ok
        (reject_if
          (not (single_owner (keep is_owner (members_of d.id db)) t.previous_owner_user_id))
          "previous owner is inconsistent")
        _ h in
    let (u, e2, h2) =
      >>=-eq-ok (or_reject (find_user t.next_owner_user_id db) "new owner not eligible") _ h1 in
    let eligible =
      reject_if-ok (not u.is_active || not u.email_verified) "new owner not eligible" h2 in
    (
      not-false _ (reject_if-ok _ "previous owner is inconsistent" e1),
      u,
      or_reject-ok (find_user t.next_owner_user_id db) "new owner not eligible" e2,
      ground (arith, eligible),
      ground (arith, eligible),
    )

-- A pending transfer is completed only after its deadline, for a transfer caused by a physical reset,
-- with a stored broker receipt for this very device that is at most two minutes old and no older than
-- the request, a live confirmation by the broker, the previous owner as the only owner, and an active,
-- verified new owner.
pub complete_due_transfer_requires :
    (env : Externals) (enabled : Bool) (verifier : Option Verifier) (id now : ℕ) (db db' : Db)
    (t t' : DeviceTransfer)
    → find_transfer id db ≡ some t
    → is_pending t.state ≡ true
    → complete_due_transfer env enabled verifier id now db ≡ (ok t', db')
    → (d : Device) × (find_device t.device_id db ≡ some d)
      × (t.cause ≡ transfer_cause)
      × (t.requested_at < t.not_before)
      × (t.not_before ≤ now)
      × Attested verifier t d now db
      × (single_owner (keep is_owner (members_of d.id db)) t.previous_owner_user_id ≡ true)
      × (u : User) × (find_user t.next_owner_user_id db ≡ some u)
      × (u.is_active ≡ true)
      × (u.email_verified ≡ true)
complete_due_transfer_requires env enabled verifier id now db db' t t' found open' h =
    let (d, e, h1) = completion env enabled verifier id now db db' t t' found open' h in
    let (due, identity, owners, _, _) = complete_pending-ok env verifier t d now db t' db' h1 in
    let (cause, deadline, elapsed) = check_due-ok t now due in
    let (single, u, u1, u2, u3) = check_owners-ok t d db owners in
    (
      d,
      e,
      cause,
      deadline,
      elapsed,
      check_identity-ok verifier t d now db identity,
      single,
      u,
      u1,
      u2,
      u3,
    )

enabled-body :
    (env : Externals) (verifier : Option Verifier) (id now : ℕ) (db : Db)
    → complete_due_transfer env true verifier id now db
      ≡ transact db
          (on_integrity "conflicting transfer completion" (complete_body env verifier id now db))
unfolding complete_due_transfer
enabled-body env verifier id now db = refl

-- Completing a transfer again, at any time and with any broker answer, returns it and leaves the
-- database as it is (where the two owners differ, as staging ensures).
pub complete_due_transfer_again :
    (env : Externals) (verifier verifier' : Option Verifier) (id now later : ℕ) (db db' : Db)
    (t t' : DeviceTransfer)
    → find_transfer id db ≡ some t
    → is_pending t.state ≡ true
    → t.previous_owner_user_id ≢ t.next_owner_user_id
    → complete_due_transfer env true verifier id now db ≡ (ok t', db')
    → complete_due_transfer env true verifier' id later db' ≡ (ok t', db')
complete_due_transfer_again env verifier verifier' id now later db db' t t' found open' ne h =
    let (row, s) =
      complete_due_transfer-Switched env true verifier id now db db' t t' found open' h in
    let (d, k1, k2, k3) = s.device_kept in
    let tid : t.id ≡ id =
      (eqb_iff t.id id).0 (first-holds (λ x. x.id == id) db.transfers t found) in
    let found' : find_transfer id db' ≡ some (complete_row now t) =
      subst (λ i. find_transfer i db' ≡ some (complete_row now t)) tid s.recorded in
    let members : members_of d.id db'
        ≡ record { user_id = t.next_owner_user_id; device_id = d.id; role = "owner" } ∷ [] =
      subst
        (λ k.
          members_of k db'
          ≡ record { user_id = t.next_owner_user_id; device_id = k; role = "owner" } ∷ [])
        (sym k2) s.only_new_owner in
    enabled-body env verifier' id later db'
    ∙ ap (λ r. transact db' (on_integrity "conflicting transfer completion" r))
        (complete_body-again env verifier' id later db' (complete_row now t) found' d k1 refl
          ∙ confirm_completed-ok (complete_row now t) d db' now refl ne members)
    ∙ ap (λ r. (ok r, db')) (sym row)

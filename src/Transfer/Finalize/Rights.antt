-- ===== src/Transfer/Finalize/Rights.antt =====
-- app/device_transfer_finalizer.py: the memberships and rows around a completion.
use smart_monitor_back_end.Base.{
  ℕ, ◌≡◌, ◌≢◌, refl, sym, ◌∙◌, ap, subst, Bool, true, false, Option, none, some, List, keep, not,
  update_where, All, [], ◌∷◌, arith, ◌==◌, nat_eq, string_eq, Option-cases, inl, inr, eqb_iff,
  beq_self,
}
use smart_monitor_back_end.Base.Http.{ok, err, transfer_rejected}
use smart_monitor_back_end.Base.Rows.{
  first-holds, keep-keep-not, keep-keep_disjoint, keep-update_where_disjoint, first-update_where,
}
use smart_monitor_back_end.Database.{
  Db, Device, DeviceChannel, DeviceTransfer, find_transfer, find_device, is_pending, is_completed,
  of_device,
}
use smart_monitor_back_end.Transfer.Stage.{Externals}
use smart_monitor_back_end.Transfer.Finalize.{
  Verifier, members_of, complete_row, complete_pending, complete_body, confirm_completed,
  complete_due_transfer,
}
use smart_monitor_back_end.Transfer.Finalize.Switch.{
  Notified, complete_pending-Notified, switched, new_owner, complete_pending-ok,
  complete_due_transfer-ok,
}

module _ (env : Externals) (verifier : Option Verifier) (id now : ℕ) (db : Db) (t : DeviceTransfer)
    (found : find_transfer id db ≡ some t) where
  pub complete_body-no_device :
      find_device t.device_id db ≡ none
      → complete_body env verifier id now db ≡ err (transfer_rejected "transfer device missing")
  unfolding complete_body
  complete_body-no_device e = rw (found, e)

  pub complete_body-open :
      (d : Device)
      → find_device t.device_id db ≡ some d
      → is_completed t.state ≡ false
      → complete_body env verifier id now db ≡ complete_pending env verifier t d now db
  unfolding complete_body
  complete_body-open d e o = rw (found, e, o)

  pub complete_body-again :
      (d : Device)
      → find_device t.device_id db ≡ some d
      → is_completed t.state ≡ true
      → complete_body env verifier id now db ≡ confirm_completed t d db
  unfolding complete_body
  complete_body-again d e o = rw (found, e, o)

pub pending-open : (t : DeviceTransfer) → is_pending t.state ≡ true → is_completed t.state ≡ false
pending-open t h = ground arith

eqb-false : (a b : ℕ) → a ≢ b → (a == b) ≡ false
eqb-false a b h = ground arith

members_switched :
    (t : DeviceTransfer) (d : Device) (now : ℕ) (db : Db)
    → members_of d.id (switched t d now db) ≡ new_owner t d ∷ []
members_switched t d now db = rw (beq_self d.id, keep-keep-not (of_device d.id) db.memberships)

members_switched_other :
    (t : DeviceTransfer) (d : Device) (now k : ℕ) (db : Db)
    → k ≢ d.id
    → members_of k (switched t d now db) ≡ members_of k db
members_switched_other t d now k db h =
    rw (eqb-false d.id k (λ e. h (sym e)))
      (keep-keep_disjoint (of_device d.id) (of_device k) db.memberships (λ m e. ground arith))

transfer_switched :
    (t : DeviceTransfer) (d : Device) (id now : ℕ) (db : Db)
    → find_transfer id db ≡ some t
    → find_transfer id (switched t d now db) ≡ some (complete_row now t)
transfer_switched t d id now db h =
    first-update_where (λ x. x.id == id) (λ x. x.id == t.id) (complete_row now) db.transfers t
      (λ x. refl) h
    ∙ ap some (rw (beq_self t.id))

device_switched :
    (t : DeviceTransfer) (d : Device) (now : ℕ) (db : Db)
    → find_device t.device_id db ≡ some d
    → (e : Device) × (find_device t.device_id (switched t d now db) ≡ some e)
      × (e.id ≡ d.id)
      × (e.name ≡ none)
device_switched t d now db h = (
  record d { name = none },
  first-update_where (λ x. x.id == t.device_id) (λ x. x.id == t.device_id)
        (λ x. record x { name = none }) db.devices d (λ x. refl) h
      ∙ ap some (rw (first-holds (λ x. x.id == t.device_id) db.devices d h)),
  refl,
  refl,
)

-- After a completion, no channel of the device has a label.
unlabelled :
    (device_id : ℕ) (cs : List DeviceChannel)
    → All
        (λ c. c.device_id ≡ device_id → c.name ≡ none)
        (update_where (λ c. c.device_id == device_id) (λ c. record c { name = none }) cs)
unlabelled device_id [] = tt
unlabelled device_id (c ∷ cs) = (λ same. ground (arith, same), unlabelled device_id cs)

-- The rows of another key, under an update of the rows of one key.
others_kept :
    {A : Type 0} (key : A → ℕ) (k : ℕ) (f : A → A) (xs : List A)
    → ((x : A) → key (f x) ≡ key x)
    → keep (λ x. not (key x == k)) (update_where (λ x. key x == k) f xs)
      ≡ keep (λ x. not (key x == k)) xs
others_kept key k f xs h =
    keep-update_where_disjoint (λ x. not (key x == k)) (λ x. key x == k) f xs (λ x e. rw e)
      (λ x e. rw (h x, e))

-- What a completion of the pending transfer `t` has done to the database `db`.
pub record Switched (t : DeviceTransfer) (now : ℕ) (db db' : Db) : Type 0 where
  pub only_new_owner :
      members_of t.device_id db'
      ≡ record { user_id = t.next_owner_user_id; device_id = t.device_id; role = "owner" } ∷ []
  pub other_devices : (k : ℕ) → k ≢ t.device_id → members_of k db' ≡ members_of k db
  pub recorded : find_transfer t.id db' ≡ some (complete_row now t)
  pub device_kept :
      (e : Device) × (find_device t.device_id db' ≡ some e) × (e.id ≡ t.device_id) × (e.name ≡ none)
  pub no_labels : All (λ c. c.device_id ≡ t.device_id → c.name ≡ none) db'.channels
  pub other_rows :
      keep (λ d. not (d.id == t.device_id)) db'.devices
      ≡ keep (λ d. not (d.id == t.device_id)) db.devices
  pub other_channels :
      keep (λ c. not (c.device_id == t.device_id)) db'.channels
      ≡ keep (λ c. not (c.device_id == t.device_id)) db.channels
  pub other_transfers :
      keep (λ x. not (x.id == t.id)) db'.transfers ≡ keep (λ x. not (x.id == t.id)) db.transfers
  pub configurations :
      db'.alarm_configurations
      ≡ keep (λ a. not (a.device_id == t.device_id)) db.alarm_configurations
  pub notified : Notified t db.notices db'.notices
  pub accounts : (db'.users ≡ db.users) × (db'.challenges ≡ db.challenges)
  pub measured :
      (db'.local_history_records ≡ db.local_history_records)
      × (db'.power_measurements ≡ db.power_measurements)

-- `t'` is the row that the call returns.
pub completion :
    (env : Externals) (enabled : Bool) (verifier : Option Verifier) (id now : ℕ) (db db' : Db)
    (t t' : DeviceTransfer)
    → find_transfer id db ≡ some t
    → is_pending t.state ≡ true
    → complete_due_transfer env enabled verifier id now db ≡ (ok t', db')
    → (d : Device) × (find_device t.device_id db ≡ some d)
      × (complete_pending env verifier t d now db ≡ ok (t', db'))
completion env enabled verifier id now db db' t t' found open' h =
    elim (Option-cases (find_device t.device_id db)) [
      | inl e ↦ absurd (cc (sym (complete_body-no_device env verifier id now db t found e) ∙ body))
      | inr (d, e) ↦ (
        d,
        e,
        sym (complete_body-open env verifier id now db t found d e (pending-open t open')) ∙ body,
      )
    ]
  where
    body : complete_body env verifier id now db ≡ ok (t', db')
    body = complete_due_transfer-ok env enabled verifier id now db db' t' h

pub complete_due_transfer-Switched :
    (env : Externals) (enabled : Bool) (verifier : Option Verifier) (id now : ℕ) (db db' : Db)
    (t t' : DeviceTransfer)
    → find_transfer id db ≡ some t
    → is_pending t.state ≡ true
    → complete_due_transfer env enabled verifier id now db ≡ (ok t', db')
    → (t' ≡ complete_row now t) × Switched t now db db'
complete_due_transfer-Switched env enabled verifier id now db db' t t' found open' h =
    let (d, e, pending') = completion env enabled verifier id now db db' t t' found open' h in
    let (due, identity, owners, row, shape) =
      complete_pending-ok env verifier t d now db t' db' pending' in
    let same : d.id ≡ t.device_id =
      (eqb_iff d.id t.device_id).0 (first-holds (λ x. x.id == t.device_id) db.devices d e) in
    let tid : t.id ≡ id =
      (eqb_iff t.id id).0 (first-holds (λ x. x.id == id) db.transfers t found) in
    let (kept, k1, k2, k3) = device_switched t d now db e in
    (
      row,
      record {
        only_new_owner =
            subst
              (λ k.
                members_of k db'
                ≡ record { user_id = t.next_owner_user_id; device_id = k; role = "owner" } ∷ [])
              same (ap (members_of d.id) shape ∙ members_switched t d now db);
        other_devices = λ k ne.
            ap (members_of k) shape ∙ members_switched_other t d now k db (λ p. ne (p ∙ same));
        recorded =
            subst (λ i. find_transfer i db' ≡ some (complete_row now t)) (sym tid)
              (ap (find_transfer id) shape ∙ transfer_switched t d id now db found);
        device_kept = (kept, ap (find_device t.device_id) shape ∙ k1, k2 ∙ same, k3);
        no_labels =
            subst (λ (x : Db). All (λ c. c.device_id ≡ t.device_id → c.name ≡ none) x.channels)
              (sym shape) (unlabelled t.device_id db.channels);
        other_rows =
            ap (λ (x : Db). keep (λ y. not (y.id == t.device_id)) x.devices) shape
            ∙ others_kept (λ (y : Device). y.id) t.device_id (λ y. record y { name = none })
                db.devices (λ y. refl);
        other_channels =
            ap (λ (x : Db). keep (λ y. not (y.device_id == t.device_id)) x.channels) shape
            ∙ others_kept (λ (y : DeviceChannel). y.device_id) t.device_id
                (λ y. record y { name = none }) db.channels (λ y. refl);
        other_transfers =
            ap (λ (x : Db). keep (λ y. not (y.id == t.id)) x.transfers) shape
            ∙ others_kept (λ (y : DeviceTransfer). y.id) t.id (complete_row now) db.transfers
                (λ y. refl);
        configurations =
            ap (λ (x : Db). x.alarm_configurations) shape
            ∙ ap (λ k. keep (λ a. not (a.device_id == k)) db.alarm_configurations) same;
        notified = complete_pending-Notified env verifier t d now db t' db' pending';
        accounts = (ap (λ (x : Db). x.users) shape, ap (λ (x : Db). x.challenges) shape);
        measured = (
          ap (λ (x : Db). x.local_history_records) shape,
          ap (λ (x : Db). x.power_measurements) shape,
        );
      },
    )

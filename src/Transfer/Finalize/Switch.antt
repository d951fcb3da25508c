-- ===== src/Transfer/Finalize/Switch.antt =====
-- app/device_transfer_finalizer.py: the writes of a completion.
use smart_monitor_back_end.Base.{
  ℕ, ◌≡◌, refl, subst, sym, ◌∙◌, ap, ap₂, Bool, true, false, Option, none, List, ◌∷◌, arith, nat_eq,
  string_eq,
}
use smart_monitor_back_end.Base.Http.{ok, ◌>>=◌, >>=-eq-ok, on_integrity-ok}
use smart_monitor_back_end.Database.{
  Db, Device, DeviceMembership, DeviceTransfer, DeviceTransferNotice, insert_membership,
  insert_notice, transact-ok, phase_completed,
}
use smart_monitor_back_end.Transfer.Notice.{
  notice_label, completed_transfer_notice, new_owner_transfer_notice,
}
use smart_monitor_back_end.Transfer.Stage.{Externals}
use smart_monitor_back_end.Transfer.Finalize.{
  Verifier, check_due, check_identity, check_owners, remove_rights, finish, complete_row,
  write_notices, switch_owner, complete_pending, complete_body, complete_due_transfer,
}

-- `db` but for the notices, which are those of `db'`.
abbrev pub with_notices : Db → Db → Db
with_notices db' db = record db { notices = db'.notices; next_notice_id = db'.next_notice_id }

insert_notice-shape :
    (n : DeviceTransferNotice) (db db' : Db)
    → insert_notice n db ≡ ok db'
    → db' ≡ with_notices db' db
unfolding insert_notice
insert_notice-shape n db db' h = ground arith

insert_two-shape :
    (n : DeviceTransferNotice) (next : Db → DeviceTransferNotice) (db db' : Db)
    → (insert_notice n db >>= λ db1. insert_notice (next db1) db1) ≡ ok db'
    → db' ≡ with_notices db' db
insert_two-shape n next db db' h =
    let (db1, e1, e2) = >>=-eq-ok (insert_notice n db) _ h in
    insert_notice-shape (next db1) db1 db' e2
    ∙ ap (with_notices db') (insert_notice-shape n db db1 e1)

write_notices-shape :
    (env : Externals) (t : DeviceTransfer) (d : Device) (now : ℕ) (db db' : Db)
    → write_notices env t d now db ≡ ok db'
    → db' ≡ with_notices db' db
unfolding write_notices
write_notices-shape env t d now db db' h =
    let (old_body, e, h1) =
      >>=-eq-ok (completed_transfer_notice env.paris (notice_label d.name d.device_uid) now) _ h in
    let (new_body, e', h2) =
      >>=-eq-ok (new_owner_transfer_notice env.paris d.device_uid now) _ h1 in
    insert_two-shape _ _ db db' h2

-- The two notices of a completion, the later first: one to the new owner, one to the old one.
pub record Notified (t : DeviceTransfer) (before after : List DeviceTransferNotice) : Type 0 where
  pub to_new_owner : DeviceTransferNotice
  pub to_old_owner : DeviceTransferNotice
  pub rows : after ≡ to_new_owner ∷ to_old_owner ∷ before
  pub transfers : (to_new_owner.transfer_id ≡ t.id) × (to_old_owner.transfer_id ≡ t.id)
  pub phases : (to_new_owner.phase ≡ phase_completed) × (to_old_owner.phase ≡ phase_completed)
  pub new_reader : to_new_owner.user_id ≡ t.next_owner_user_id
  pub old_reader : to_old_owner.user_id ≡ t.previous_owner_user_id

insert_notice-rows :
    (n : DeviceTransferNotice) (db db' : Db)
    → insert_notice n db ≡ ok db'
    → db'.notices ≡ n ∷ db.notices
unfolding insert_notice
insert_notice-rows n db db' h = ground arith

write_notices-Notified :
    (env : Externals) (t : DeviceTransfer) (d : Device) (now : ℕ) (db db' : Db)
    → write_notices env t d now db ≡ ok db'
    → Notified t db.notices db'.notices
unfolding write_notices
write_notices-Notified env t d now db db' h =
    let (old_body, e, h1) =
      >>=-eq-ok (completed_transfer_notice env.paris (notice_label d.name d.device_uid) now) _ h in
    let (new_body, e', h2) =
      >>=-eq-ok (new_owner_transfer_notice env.paris d.device_uid now) _ h1 in
    let a : DeviceTransferNotice = record {
      id = db.next_notice_id;
      transfer_id = t.id;
      user_id = t.previous_owner_user_id;
      phase = phase_completed;
      body = old_body;
      created_at = now;
      read_at = none;
    } in
    let (db1, e1, h3) = >>=-eq-ok (insert_notice a db) _ h2 in
    let b : DeviceTransferNotice = record {
      id = db1.next_notice_id;
      transfer_id = t.id;
      user_id = t.next_owner_user_id;
      phase = phase_completed;
      body = new_body;
      created_at = now;
      read_at = none;
    } in
    record {
      to_new_owner = b;
      to_old_owner = a;
      rows = insert_notice-rows b db1 db' h3 ∙ ap (λ l. b ∷ l) (insert_notice-rows a db db1 e1);
      transfers = (refl, refl);
      phases = (refl, refl);
      new_reader = refl;
      old_reader = refl;
    }

abbrev pub new_owner : DeviceTransfer → Device → DeviceMembership
new_owner t d = record { user_id = t.next_owner_user_id; device_id = d.id; role = "owner" }

insert_membership-shape :
    (m : DeviceMembership) (db db' : Db)
    → insert_membership m db ≡ ok db'
    → db' ≡ record db { memberships = m ∷ db.memberships }
unfolding insert_membership
insert_membership-shape m db db' h = ground arith

-- The rows behind a switch, but for the notices.
abbrev pub switched : DeviceTransfer → Device → ℕ → Db → Db
switched t d now db = finish t now (record (remove_rights d.id db) {
  memberships = new_owner t d ∷ (remove_rights d.id db).memberships;
})

switch_owner-shape :
    (env : Externals) (t : DeviceTransfer) (d : Device) (now : ℕ) (db : Db) (t' : DeviceTransfer)
    (db' : Db)
    → switch_owner env t d now db ≡ ok (t', db')
    → (t' ≡ complete_row now t) × (db' ≡ with_notices db' (switched t d now db))
unfolding switch_owner
switch_owner-shape env t d now db t' db' h =
    let (db1, e1, h1) = >>=-eq-ok (insert_membership (new_owner t d) (remove_rights d.id db)) _ h in
    let (db2, e2, h2) = >>=-eq-ok (write_notices env t d now (finish t now db1)) _ h1 in
    let same : db2 ≡ db' = cc h2 in
    (
      cc h2,
      sym same
          ∙ write_notices-shape env t d now (finish t now db1) db2 e2
          ∙ ap₂ with_notices same (
              ap (finish t now)
                (insert_membership-shape (new_owner t d) (remove_rights d.id db) db1 e1)),
    )

switch_owner-Notified :
    (env : Externals) (t : DeviceTransfer) (d : Device) (now : ℕ) (db : Db) (t' : DeviceTransfer)
    (db' : Db)
    → switch_owner env t d now db ≡ ok (t', db')
    → Notified t db.notices db'.notices
unfolding switch_owner
switch_owner-Notified env t d now db t' db' h =
    let (db1, e1, h1) = >>=-eq-ok (insert_membership (new_owner t d) (remove_rights d.id db)) _ h in
    let (db2, e2, h2) = >>=-eq-ok (write_notices env t d now (finish t now db1)) _ h1 in
    let same : db2 ≡ db' = cc h2 in
    subst (λ (x : Db). Notified t db.notices x.notices) same
      (subst (λ (x : Db). Notified t x.notices db2.notices)
        (insert_membership-shape (new_owner t d) (remove_rights d.id db) db1 e1)
        (write_notices-Notified env t d now (finish t now db1) db2 e2))

pub complete_pending-Notified :
    (env : Externals) (verifier : Option Verifier) (t : DeviceTransfer) (d : Device) (now : ℕ)
    (db : Db) (t' : DeviceTransfer) (db' : Db)
    → complete_pending env verifier t d now db ≡ ok (t', db')
    → Notified t db.notices db'.notices
unfolding complete_pending
complete_pending-Notified env verifier t d now db t' db' h =
    let (_, _, h1) = >>=-eq-ok (check_due t now) _ h in
    let (_, _, h2) = >>=-eq-ok (check_identity verifier t d now db) _ h1 in
    let (_, _, h3) = >>=-eq-ok (check_owners t d db) _ h2 in
    switch_owner-Notified env t d now db t' db' h3

-- What a completion of a pending transfer has tested before it switched.
pub complete_pending-ok :
    (env : Externals) (verifier : Option Verifier) (t : DeviceTransfer) (d : Device) (now : ℕ)
    (db : Db) (t' : DeviceTransfer) (db' : Db)
    → complete_pending env verifier t d now db ≡ ok (t', db')
    → (check_due t now ≡ ok tt)
      × (check_identity verifier t d now db ≡ ok tt)
      × (check_owners t d db ≡ ok tt)
      × (t' ≡ complete_row now t)
      × (db' ≡ with_notices db' (switched t d now db))
unfolding complete_pending
complete_pending-ok env verifier t d now db t' db' h =
    let (_, due, h1) = >>=-eq-ok (check_due t now) _ h in
    let (_, identity, h2) = >>=-eq-ok (check_identity verifier t d now db) _ h1 in
    let (_, owners, h3) = >>=-eq-ok (check_owners t d db) _ h2 in
    let (row, shape) = switch_owner-shape env t d now db t' db' h3 in
    (due, identity, owners, row, shape)

-- A completion that succeeds was enabled, and is `complete_body` with the rows of its transfer.
pub complete_due_transfer-ok :
    (env : Externals) (enabled : Bool) (verifier : Option Verifier) (id now : ℕ) (db db' : Db)
    (t' : DeviceTransfer)
    → complete_due_transfer env enabled verifier id now db ≡ (ok t', db')
    → complete_body env verifier id now db ≡ ok (t', db')
unfolding complete_due_transfer
complete_due_transfer-ok env true verifier id now db db' t' h =
    on_integrity-ok "conflicting transfer completion" (complete_body env verifier id now db)
      (transact-ok db _ h)
complete_due_transfer-ok env false verifier id now db db' t' h = cc

-- ===== src/Transfer/Finalize/Outcomes.antt =====
-- app/device_transfer_finalizer.py: the ways in which a call can end, for the database.
use smart_monitor_back_end.Base.{
  ℕ, ◌≡◌, refl, sym, ◌∙◌, ap, ◌⊎◌, inl, inr, Bool, true, false, Option, none, some, arith,
  Bool-cases, Option-cases,
}
use smart_monitor_back_end.Base.Http.{
  Result, ok, err, transfer_rejected, on_integrity, on_integrity-ok,
}
use smart_monitor_back_end.Database.{
  Db, Device, DeviceTransfer, find_transfer, find_device, is_completed, transact_cases,
}
use smart_monitor_back_end.Transfer.Stage.{Externals}
use smart_monitor_back_end.Transfer.Finalize.{
  Verifier, check_due, complete_body, confirm_completed, complete_due_transfer,
}
use smart_monitor_back_end.Transfer.Finalize.Switch.{with_notices, switched, complete_pending-ok}
use smart_monitor_back_end.Transfer.Finalize.Rights.{
  complete_body-no_device, complete_body-open, complete_body-again,
}

complete_body-missing :
    (env : Externals) (verifier : Option Verifier) (id now : ℕ) (db : Db)
    → find_transfer id db ≡ none
    → complete_body env verifier id now db ≡ err (transfer_rejected "transfer not found")
unfolding complete_body
complete_body-missing env verifier id now db h = rw h

confirm_completed-same :
    (t : DeviceTransfer) (d : Device) (db db' : Db) (t' : DeviceTransfer)
    → confirm_completed t d db ≡ ok (t', db')
    → db' ≡ db
unfolding confirm_completed
confirm_completed-same t d db db' t' h = ground arith

-- A switch of the transfer with this id, which was due.
pub record SwitchedDue (id now : ℕ) (db db' : Db) : Type 0 where
  pub transfer : DeviceTransfer
  pub device : Device
  pub found : find_transfer id db ≡ some transfer
  pub due : check_due transfer now ≡ ok tt
  pub rows : db' ≡ with_notices db' (switched transfer device now db)

-- What a call can have done, however it ended.
pub complete_due_transfer_outcomes :
    (env : Externals) (enabled : Bool) (verifier : Option Verifier) (id now : ℕ) (db db' : Db)
    (res : Result DeviceTransfer)
    → complete_due_transfer env enabled verifier id now db ≡ (res, db')
    → (db' ≡ db) ⊎ SwitchedDue id now db db'
unfolding complete_due_transfer
complete_due_transfer_outcomes env true verifier id now db db' res h =
    elim (transact_cases db (on_integrity "conflicting transfer completion" body) res db' h) [
      | inl same ↦ inl same
      | inr (t', e) ↦ by_transfer t' (on_integrity-ok "conflicting transfer completion" body e)
    ]
  where
    body : Result (DeviceTransfer × Db)
    body = complete_body env verifier id now db

    by_device :
        (t t' : DeviceTransfer)
        → find_transfer id db ≡ some t
        → body ≡ ok (t', db')
        → (db' ≡ db) ⊎ SwitchedDue id now db db'
    by_device t t' found e = elim (Option-cases (find_device t.device_id db)) [
      | inl no_device ↦
          absurd (cc (sym (complete_body-no_device env verifier id now db t found no_device) ∙ e))
      | inr (d, f) ↦ elim (Bool-cases (is_completed t.state)) [
        | inl c ↦ inl (
            confirm_completed-same t d db db' t'
              (sym (complete_body-again env verifier id now db t found d f c) ∙ e))
        | inr c ↦
            let facts =
              complete_pending-ok env verifier t d now db t' db'
                (sym (complete_body-open env verifier id now db t found d f c) ∙ e) in
            inr (record { transfer = t; device = d; found = found; due = facts.0; rows = facts.4 })
      ]
    ]

    by_transfer :
        (t' : DeviceTransfer) → body ≡ ok (t', db') → (db' ≡ db) ⊎ SwitchedDue id now db db'
    by_transfer t' e = elim (Option-cases (find_transfer id db)) [
      | inl missing ↦ absurd (cc (sym (complete_body-missing env verifier id now db missing) ∙ e))
      | inr (t, found) ↦ by_device t t' found e
    ]
complete_due_transfer_outcomes env false verifier id now db db' res h = inl (sym (ap (λ p. p.1) h))

pub complete_due_transfer-completed :
    (env : Externals) (enabled : Bool) (verifier : Option Verifier) (id now : ℕ) (db : Db)
    (t : DeviceTransfer)
    → find_transfer id db ≡ some t
    → is_completed t.state ≡ true
    → (complete_due_transfer env enabled verifier id now db).1 ≡ db
unfolding complete_due_transfer
complete_due_transfer-completed env false verifier id now db t found c = refl
complete_due_transfer-completed env true verifier id now db t found c =
    elim (transact_cases db (on_integrity "conflicting transfer completion" body) result.0 result.1
      refl) [
        | inl same ↦ same
        | inr (t', e) ↦ kept t' result.1 (on_integrity-ok "conflicting transfer completion" body e)
      ]
  where
    body : Result (DeviceTransfer × Db)
    body = complete_body env verifier id now db

    result : Result DeviceTransfer × Db
    result = complete_due_transfer env true verifier id now db

    kept : (t' : DeviceTransfer) (db' : Db) → body ≡ ok (t', db') → db' ≡ db
    kept t' db' e = elim (Option-cases (find_device t.device_id db)) [
      | inl no_device ↦
          absurd (cc (sym (complete_body-no_device env verifier id now db t found no_device) ∙ e))
      | inr (d, f) ↦
          confirm_completed-same t d db db' t'
            (sym (complete_body-again env verifier id now db t found d f c) ∙ e)
    ]

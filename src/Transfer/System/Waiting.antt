-- ===== src/Transfer/System/Waiting.antt =====
-- The minute between the request of a transfer and its completion, over the calls that can fall into
-- it: app/device_transfer_store.py, app/device_transfer_finalizer.py and app/device_transfer_guard.py.
use smart_monitor_back_end.Base.{
  ℕ, ◌<◌, ◌≡◌, ◌≢◌, refl, sym, ◌∙◌, ap, subst, Bool, true, false, String, none, some, List, [], ◌∷◌,
  arith, first, update_where, ◌==◌, nat_eq, inl, inr, eqb_iff, beq_self,
}
use smart_monitor_back_end.Base.Http.{ok, err, http_exception}
use smart_monitor_back_end.Base.Rows.{first-holds, first-update_where}
use smart_monitor_back_end.Database.{Db, DeviceTransfer, find_transfer, pending_of}
use smart_monitor_back_end.Transfer.Guard.{
  pending_transfer, active_transfer_access_allowed, require_active_transfer_access,
}
use smart_monitor_back_end.Transfer.Stage.{Externals, StageRequest, stage_verified_transfer}
use smart_monitor_back_end.Transfer.Stage.Staged.{Staged}
use smart_monitor_back_end.Transfer.Stage.Spent.{
  stage_verified_transfer-Staged, stage_verified_transfer_outcomes,
}
use smart_monitor_back_end.Transfer.Stage.Challenges.{issue_reset_challenge-Issued}
use smart_monitor_back_end.Transfer.Finalize.{complete_row}
use smart_monitor_back_end.Transfer.Finalize.Once.{check_due-ok}
use smart_monitor_back_end.Transfer.Finalize.Outcomes.{SwitchedDue, complete_due_transfer_outcomes}
use smart_monitor_back_end.Transfer.System.{Step, Reach, issues, stages, completes, here, next}

-- `t` is in the table under its own id, is the pending transfer of its device, and no later row takes
-- its id.
record Waits (t : DeviceTransfer) (db : Db) : Type 0 where
  listed : find_transfer t.id db ≡ some t
  waiting : first (pending_of t.device_id) db.transfers ≡ some t
  numbered : t.id < db.next_transfer_id

-- No completion of a history is called at `deadline` or later.
abbrev pub StepBefore :
    (deadline : ℕ) {env : Externals} {enabled : Bool} {db db' : Db}
    → Step env enabled db db'
    → Type 0
StepBefore deadline (issues uid requested_by now id hex c h) = Unit
StepBefore deadline (stages r now res h) = Unit
StepBefore deadline (completes verifier id now res h) = now < deadline

abbrev pub CompletedBefore :
    (deadline : ℕ) {env : Externals} {enabled : Bool} {start db : Db}
    → Reach env enabled start db
    → Type 0
CompletedBefore deadline here = Unit
CompletedBefore deadline (next r s) = CompletedBefore deadline r × StepBefore deadline s

Staged-Waits-new :
    (env : Externals) (r : StageRequest) (now : ℕ) (db db' : Db) (t : DeviceTransfer)
    → Staged env r now db t db'
    → Waits t db'
Staged-Waits-new env r now db db' t s =
    subst (λ x. Waits x db') (sym s.row)
      (subst (Waits _) (sym s.rows) (record {
        listed = rw (beq_self db.next_transfer_id) refl;
        waiting = rw (beq_self s.device.id) refl;
        numbered = omega arith;
      }))

-- A staging of another transfer.
Staged-Waits :
    (env : Externals) (r : StageRequest) (now : ℕ) (db db' : Db) (t x : DeviceTransfer)
    → Staged env r now db x db'
    → Waits t db
    → Waits t db'
Staged-Waits env r now db db' t x s w =
    let other_id : (db.next_transfer_id == t.id) ≡ false = ground (arith, w.numbered) in
    let apart : s.device.id ≢ t.device_id = λ e.
      cc (
        sym (subst (λ k. first (pending_of k) db.transfers ≡ none) e s.none_pending) ∙ w.waiting) in
    let other_device : (s.device.id == t.device_id) ≡ false =
      ground (arith, eqb_iff s.device.id t.device_id, apart) in
    subst (Waits t) (sym s.rows) (record {
      listed = rw other_id w.listed;
      waiting = rw other_device w.waiting;
      numbered = omega (arith, w.numbered);
    })

-- The pending transfer of a device, while other rows are completed.
pending_kept :
    (k id now : ℕ) (t : DeviceTransfer) (ts : List DeviceTransfer)
    → id ≢ t.id
    → first (pending_of k) ts ≡ some t
    → first (pending_of k) (update_where (λ x. x.id == id) (complete_row now) ts) ≡ some t
pending_kept k id now t [] ne h = h
pending_kept k id now t (x ∷ ts) ne h =
    ground (arith, h, ne, eqb_iff x.id id, pending_kept k id now t ts ne)

SwitchedDue-Waits :
    (id now : ℕ) (db db' : Db) (t : DeviceTransfer)
    → SwitchedDue id now db db'
    → now < t.not_before
    → Waits t db
    → Waits t db'
SwitchedDue-Waits id now db db' t s early w =
    let (_, _, due) = check_due-ok s.transfer now s.due in
    let named : s.transfer.id ≡ id =
      (eqb_iff s.transfer.id id).0
        (first-holds (λ x. x.id == id) db.transfers s.transfer s.found) in
    let ne : s.transfer.id ≢ t.id = λ e.
      let at : find_transfer t.id db ≡ some s.transfer =
        subst (λ i. find_transfer i db ≡ some s.transfer) (sym named ∙ e) s.found in
      let same : s.transfer ≡ t = cc (sym at ∙ w.listed) in
      absurd (omega (arith, early, due, ap (λ (x : DeviceTransfer). x.not_before) same)) in
    let other : (t.id == s.transfer.id) ≡ false = ground (arith, ne, eqb_iff t.id s.transfer.id) in
    subst (Waits t) (sym s.rows) (record {
      listed =
          first-update_where (λ x. x.id == t.id) (λ x. x.id == s.transfer.id) (complete_row now)
            db.transfers t (λ x. refl) w.listed
          ∙ rw other refl;
      waiting = pending_kept t.device_id s.transfer.id now t db.transfers ne w.waiting;
      numbered = w.numbered;
    })

Step-Waits :
    (t : DeviceTransfer) {env : Externals} {enabled : Bool} {db db' : Db}
    (s : Step env enabled db db')
    → StepBefore t.not_before s
    → Waits t db
    → Waits t db'
Step-Waits t {env} {enabled} {db} {db'} (issues uid requested_by now id hex c h) early w =
    let i = issue_reset_challenge-Issued env enabled uid requested_by now id hex db db' c h in
    subst (Waits t) (sym i.rows)
      (record { listed = w.listed; waiting = w.waiting; numbered = w.numbered })
Step-Waits t {env} {enabled} {db} {db'} (stages r now res h) early w =
    elim (stage_verified_transfer_outcomes env enabled r now db db' res h) [
      | inl same ↦ subst (Waits t) (sym same) w
      | inr (x, s) ↦ Staged-Waits env r now db db' t x s w
    ]
Step-Waits t {env} {enabled} {db} {db'} (completes verifier id now res h) early w =
    elim (complete_due_transfer_outcomes env enabled verifier id now db db' res h) [
      | inl same ↦ subst (Waits t) (sym same) w
      | inr s ↦ SwitchedDue-Waits id now db db' t s early w
    ]

Reach-Waits :
    (t : DeviceTransfer) {env : Externals} {enabled : Bool} {start db : Db}
    (r : Reach env enabled start db)
    → CompletedBefore t.not_before r
    → Waits t start
    → Waits t db
Reach-Waits t here by w = w
Reach-Waits t (next r s) by w = Step-Waits t s by.1 (Reach-Waits t r by.0 w)

-- After a staging, and through any sequence of further issued challenges, stagings and completions, of
-- any accounts and devices and with any outcome, in which no completion is called at the deadline of
-- the transfer or later: the transfer is still stored as it was staged and is the pending one of its
-- device, and the guards of the device refuse every account, whatever its role (the answer is 409).
pub closed_until_due :
    (env : Externals) (r : StageRequest) (now user_id : ℕ) (role : String) (db : Db)
    (t : DeviceTransfer) {start later : Db}
    → stage_verified_transfer env true r now db ≡ (ok t, start)
    → (calls : Reach env true start later) → CompletedBefore t.not_before calls
    → (find_transfer t.id later ≡ some t)
      × (pending_transfer true t.device_id later ≡ some t)
      × (active_transfer_access_allowed true t.device_id user_id role later ≡ false)
      × (require_active_transfer_access true t.device_id user_id role later
          ≡ err (http_exception 409 "Device transfer pending"))
unfolding active_transfer_access_allowed require_active_transfer_access pending_transfer
closed_until_due env r now user_id role db t {start} {later} h calls early =
    let s = stage_verified_transfer-Staged env true r now db start t h in
    let w = Reach-Waits t calls early (Staged-Waits-new env r now db start t s) in
    (w.listed, w.waiting, rw w.waiting refl, rw w.waiting refl)

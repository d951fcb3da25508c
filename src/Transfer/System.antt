-- ===== src/Transfer/System.antt =====
-- The operations on transfers as steps on one database: app/device_transfer_store.py and
-- app/device_transfer_finalizer.py.
pub mod Challenges
pub mod Waiting
use smart_monitor_back_end.Base.{
  ℕ, ◌≤◌, ◌≡◌, sym, ap, subst, Bool, not, String, Option, [], arith, keep, ◌==◌, nat_eq, string_eq,
  Bool-cases, inl, inr, eqb_iff, length,
}
use smart_monitor_back_end.Base.Http.{Result, ok}
use smart_monitor_back_end.Base.Rows.{
  keep-none, length-keep-update_where, length-keep-keep, keep-keep_implied,
}
use smart_monitor_back_end.Database.{Db, Device, DeviceTransfer, pending_of, owner_of, of_device}
use smart_monitor_back_end.Transfer.Stage.{
  Externals, StageRequest, IssuedResetChallenge, issue_reset_challenge, stage_verified_transfer,
}
use smart_monitor_back_end.Transfer.Stage.Staged.{Staged, staged}
use smart_monitor_back_end.Transfer.Stage.Spent.{stage_verified_transfer_outcomes}
use smart_monitor_back_end.Transfer.Stage.Challenges.{issue_reset_challenge-keeps}
use smart_monitor_back_end.Transfer.Finalize.{Verifier, complete_due_transfer, complete_row}
use smart_monitor_back_end.Transfer.Finalize.Switch.{switched}
use smart_monitor_back_end.Transfer.Finalize.Outcomes.{complete_due_transfer_outcomes}

-- At most one pending transfer, and at most one owner, of each device.
pub record Consistent (db : Db) : Type 0 where
  pub one_pending : (k : ℕ) → length (keep (pending_of k) db.transfers) ≤ 1
  pub one_owner : (k : ℕ) → length (keep (owner_of k) db.memberships) ≤ 1

Staged-Consistent :
    (env : Externals) (r : StageRequest) (now : ℕ) (db db' : Db) (t : DeviceTransfer)
    → Consistent db
    → Staged env r now db t db'
    → Consistent db'
Staged-Consistent env r now db db' t v s = record {
  one_pending =
      λ k. subst (λ d. length (keep (pending_of k) d.transfers) ≤ 1) (sym s.rows) (pending' k);
  one_owner =
      λ k. subst (λ d. length (keep (owner_of k) d.memberships) ≤ 1) (sym s.rows) (v.one_owner k);
}
  where
    pending' :
        (k : ℕ) → length (keep (pending_of k) (staged r now s.device s.owner db).transfers) ≤ 1
    pending' k = elim (Bool-cases (s.device.id == k)) [
      | inl e ↦
          let none' : keep (pending_of k) db.transfers ≡ [] =
            subst (λ i. keep (pending_of i) db.transfers ≡ []) ((eqb_iff s.device.id k).0 e)
              (keep-none (pending_of s.device.id) db.transfers s.none_pending) in
          rw (e, none') (omega arith)
      | inr e ↦ rw e (v.one_pending k)
    ]

switched-Consistent :
    (t : DeviceTransfer) (d : Device) (now : ℕ) (db db' : Db)
    → Consistent db
    → db'.memberships ≡ (switched t d now db).memberships
    → db'.transfers ≡ (switched t d now db).transfers
    → Consistent db'
switched-Consistent t d now db db' v m ts = record {
  one_pending = λ k.
      subst (λ l. length (keep (pending_of k) l) ≤ 1) (sym ts)
        (omega (
          arith,
          v.one_pending k,
          length-keep-update_where (pending_of k) (λ x. x.id == t.id) (complete_row now)
              db.transfers (λ x e. ground arith),
        ));
  one_owner = λ k. subst (λ l. length (keep (owner_of k) l) ≤ 1) (sym m) (owners k);
}
  where
    owners : (k : ℕ) → length (keep (owner_of k) (switched t d now db).memberships) ≤ 1
    owners k = elim (Bool-cases (d.id == k)) [
      | inl e ↦
          let gone : keep (owner_of k) (keep (λ m. not (of_device d.id m)) db.memberships) ≡ [] =
            subst (λ i. keep (owner_of i) (keep (λ m. not (of_device d.id m)) db.memberships) ≡ [])
              ((eqb_iff d.id k).0 e)
              (keep-keep_implied (owner_of d.id) (of_device d.id) db.memberships
                (λ m h. ground arith)) in
          rw (e, gone) (omega arith)
      | inr e ↦ rw e (
          omega (
            arith,
            v.one_owner k,
            length-keep-keep (owner_of k) (λ m. not (of_device d.id m)) db.memberships,
          ))
    ]

issued-Consistent :
    (env : Externals) (enabled : Bool) (uid : String) (requested_by : Option ℕ) (now : ℕ)
    (id hex : String) (db db' : Db) (c : IssuedResetChallenge)
    → Consistent db
    → issue_reset_challenge env enabled uid requested_by now id hex db ≡ ok (c, db')
    → Consistent db'
issued-Consistent env enabled uid requested_by now id hex db db' c v h =
    let (m, ts) = issue_reset_challenge-keeps env enabled uid requested_by now id hex db db' c h in
    record {
      one_pending = λ k. subst (λ l. length (keep (pending_of k) l) ≤ 1) (sym ts) (v.one_pending k);
      one_owner = λ k. subst (λ l. length (keep (owner_of k) l) ≤ 1) (sym m) (v.one_owner k);
    }

-- One call on the transfer tables: a challenge that is issued, and any staging or completion, with
-- whatever outcome.
pub data Step (env : Externals) (enabled : Bool) : Db → Db → Type 0 where
  issues :
      (uid : String) (requested_by : Option ℕ) (now : ℕ) (id hex : String) {db db' : Db}
      (c : IssuedResetChallenge)
      → issue_reset_challenge env enabled uid requested_by now id hex db ≡ ok (c, db')
      → Step env enabled db db'
  stages :
      (r : StageRequest) (now : ℕ) {db db' : Db} (res : Result DeviceTransfer)
      → stage_verified_transfer env enabled r now db ≡ (res, db')
      → Step env enabled db db'
  completes :
      (verifier : Option Verifier) (id now : ℕ) {db db' : Db} (res : Result DeviceTransfer)
      → complete_due_transfer env enabled verifier id now db ≡ (res, db')
      → Step env enabled db db'

pub data Reach (env : Externals) (enabled : Bool) (start : Db) : Db → Type 0 where
  here : Reach env enabled start start
  next :
      {db db' : Db}
      → Reach env enabled start db
      → Step env enabled db db'
      → Reach env enabled start db'

Step-Consistent :
    {env : Externals} {enabled : Bool} {db db' : Db}
    → Step env enabled db db'
    → Consistent db
    → Consistent db'
Step-Consistent {env} {enabled} {db} {db'} (issues uid requested_by now id hex c h) v =
    issued-Consistent env enabled uid requested_by now id hex db db' c v h
Step-Consistent {env} {enabled} {db} {db'} (stages r now res h) v =
    elim (stage_verified_transfer_outcomes env enabled r now db db' res h) [
      | inl same ↦ subst Consistent (sym same) v
      | inr (t, s) ↦ Staged-Consistent env r now db db' t v s
    ]
Step-Consistent {env} {enabled} {db} {db'} (completes verifier id now res h) v =
    elim (complete_due_transfer_outcomes env enabled verifier id now db db' res h) [
      | inl same ↦ subst Consistent (sym same) v
      | inr s ↦
          switched-Consistent s.transfer s.device now db db' v (ap (λ x. x.memberships) s.rows)
            (ap (λ x. x.transfers) s.rows)
    ]

-- From a consistent database, any sequence of issued challenges, stagings and completions, of any
-- accounts and devices, at any times and whether the stagings and completions succeed or fail,
-- leads only to databases with at most one pending transfer and at most one owner for each device.
pub Reach-Consistent :
    {env : Externals} {enabled : Bool} {start db : Db}
    → Reach env enabled start db
    → Consistent start
    → Consistent db
Reach-Consistent here v = v
Reach-Consistent (next r s) v = Step-Consistent s (Reach-Consistent r v)

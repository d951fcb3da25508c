-- ===== src/Database.antt =====
-- app/models.py: the tables that the ownership transfer reads and writes, with the constraints that
-- the database checks. Instants are microseconds since the epoch (columns with a time zone, so that
-- comparing instants is comparing numbers); the columns `created_at` that no code reads are left out.
mod Rows
pub use Rows.*
use smart_monitor_back_end.Base.{
  ℕ, suc, ◌+◌, Bool, true, false, ◌&&◌, ◌||◌, not, String, Option, none, some, List, [], ◌∷◌, ◌++◌,
  any, keep, first, length, ◌==◌, nat_eq, string_eq, if◌then◌else◌, update_where,
}
use native.Mathlib.Omega.{arith}
use mathlib.Core.Path.{◌≡◌, ap, sym}
use mathlib.Core.Logic.{◌⊎◌, inl, inr}
use smart_monitor_back_end.Base.Http.{Result, ok, err, integrity_error}

pub record Db : Type 0 where
  pub users : List User
  pub devices : List Device
  pub memberships : List DeviceMembership
  pub channels : List DeviceChannel
  pub transfers : List DeviceTransfer
  pub challenges : List DeviceResetChallenge
  pub notices : List DeviceTransferNotice
  pub checks : List IdentityCheck
  pub alarm_configurations : List AlarmConfiguration
  pub local_history_records : List LocalHistoryRecord
  pub power_measurements : List PowerMeasurement
  pub next_device_id : ℕ
  pub next_channel_id : ℕ
  pub next_transfer_id : ℕ
  pub next_notice_id : ℕ

abbrev pub is_pending : TransferState → Bool
is_pending pending = true
is_pending completed = false
is_pending cancelled = false

abbrev pub is_completed : TransferState → Bool
is_completed pending = false
is_completed completed = true
is_completed cancelled = false

-- select(DeviceTransfer).where(device_id == …, state == "pending")
abbrev pub pending_of : ℕ → DeviceTransfer → Bool
pending_of device_id t = t.device_id == device_id && is_pending t.state

abbrev pub completed_of : ℕ → DeviceTransfer → Bool
completed_of device_id t = t.device_id == device_id && is_completed t.state

abbrev pub owner_of : ℕ → DeviceMembership → Bool
owner_of device_id m = m.device_id == device_id && m.role == "owner"

abbrev pub of_device : ℕ → DeviceMembership → Bool
of_device device_id m = m.device_id == device_id

abbrev pub find_user : ℕ → Db → Option User
find_user id db = first (λ u. u.id == id) db.users

abbrev pub find_device : ℕ → Db → Option Device
find_device id db = first (λ d. d.id == id) db.devices

abbrev pub find_device_by_uid : String → Db → Option Device
find_device_by_uid uid db = first (λ d. d.device_uid == uid) db.devices

abbrev pub find_transfer : ℕ → Db → Option DeviceTransfer
find_transfer id db = first (λ t. t.id == id) db.transfers

abbrev pub find_check : ℕ → Db → Option IdentityCheck
find_check id db = first (λ c. c.transfer_id == id) db.checks

-- The partial unique index on pending transfers, and the unique constraints on
-- (device_id, reset_generation) and challenge_id.
abbrev pub transfer_conflict : DeviceTransfer → DeviceTransfer → Bool
transfer_conflict new old =
    (old.device_id == new.device_id
      && (is_pending old.state && is_pending new.state
          || old.reset_generation == new.reset_generation))
    || old.challenge_id == new.challenge_id

unfoldable pub insert_transfer : DeviceTransfer → Db → Result Db
insert_transfer t db =
    if any (transfer_conflict t) db.transfers
    then err integrity_error
    else ok (record db { transfers = t ∷ db.transfers; next_transfer_id = suc db.next_transfer_id })

-- uq_transfer_notice_phase
abbrev pub notice_conflict : DeviceTransferNotice → DeviceTransferNotice → Bool
notice_conflict new old =
    old.transfer_id == new.transfer_id
    && old.user_id == new.user_id
    && same_phase old.phase new.phase

unfoldable pub insert_notice : DeviceTransferNotice → Db → Result Db
insert_notice n db =
    if any (notice_conflict n) db.notices
    then err integrity_error
    else ok (record db { notices = n ∷ db.notices; next_notice_id = suc db.next_notice_id })

-- The primary key, and the partial unique index "one owner per device".
abbrev pub membership_conflict : DeviceMembership → DeviceMembership → Bool
membership_conflict new old =
    old.device_id == new.device_id
    && (old.user_id == new.user_id || old.role == "owner" && new.role == "owner")

unfoldable pub insert_membership : DeviceMembership → Db → Result Db
insert_membership m db =
    if any (membership_conflict m) db.memberships
    then err integrity_error
    else ok (record db { memberships = m ∷ db.memberships })

-- A unit of work: `db.rollback()` on every error, `db.commit()` at the end.
abbrev pub transact {ℓ} : {A : Type ℓ} → Db → Result (A × Db) → Result A × Db
transact db (ok (a, db')) = (ok a, db')
transact db (err e) = (err e, db)

module _ {ℓ} {A : Type ℓ} where
  pub transact-ok :
      (db : Db) (r : Result (A × Db)) {a : A} {db' : Db}
      → transact db r ≡ (ok a, db')
      → r ≡ ok (a, db')
  transact-ok db (ok (b, db'')) h = ground arith
  transact-ok db (err e) h = absurd (ground arith)

  -- A unit of work keeps what it wrote, or leaves the database as it was.
  pub transact_cases :
      (db : Db) (r : Result (A × Db)) (res : Result A) (db' : Db)
      → transact db r ≡ (res, db')
      → (db' ≡ db) ⊎ ((a : A) × (r ≡ ok (a, db')))
  transact_cases db (ok (b, db'')) res db' h = inr (b, ap (λ d. ok (b, d)) (ap (λ p. p.1) h))
  transact_cases db (err e) res db' h = inl (sym (ap (λ p. p.1) h))

-- ===== src/Transfer/Scenario.antt =====
-- A concrete database, a transfer in it from the challenge to the completion, and what the code
-- computes there.
use smart_monitor_back_end.Base.{
  ℕ, ◌≤◌, ◌≡◌, refl, true, String, Option, none, some, List, [], ◌∷◌, arith, keep, length,
  Bool-cases, inl, inr, subst, eqb_iff, ◌==◌, nat_eq,
}
use smart_monitor_back_end.Base.Http.{ok, err, transfer_rejected}
use smart_monitor_back_end.Database.{
  owner_of, Db, User, Device, DeviceTransfer, DeviceResetChallenge, pending, find_transfer,
}
use smart_monitor_back_end.Transfer.Archive.{chain, completed_ownership_epochs, former_owner_window}
use smart_monitor_back_end.Transfer.System.{Consistent}
use smart_monitor_back_end.Transfer.Stage.{
  IssuedResetChallenge, issue_reset_challenge, Externals, StageRequest, stage_verified_transfer,
  last_generation, proof_valid,
}
use smart_monitor_back_end.Transfer.Finalize.{Verifier, complete_due_transfer, complete_row}
use smart_monitor_back_end.Transfer.Guard.{
  pending_transfer, latest_of, latest_completed_transfer, epoch_start, epoch_end, bounded_period,
  bounded_history_period,
}
use smart_monitor_back_end.Transfer.Ownership.{
  OwnerEpoch, resolve_owner_epoch, require_measurement_in_epoch,
}

abbrev pub zeros : List ℕ
zeros =
    0 ∷ 0 ∷ 0 ∷ 0 ∷ 0 ∷ 0 ∷ 0 ∷ 0 ∷ 0 ∷ 0 ∷ 0 ∷ 0 ∷ 0 ∷ 0 ∷ 0 ∷ 0 ∷ 0 ∷ 0 ∷ 0 ∷ 0 ∷ 0 ∷ 0 ∷ 0 ∷ 0
    ∷ 0 ∷ 0 ∷ 0 ∷ 0 ∷ 0 ∷ 0 ∷ 0 ∷ 0 ∷ []

abbrev pub zeros_hex : String
zeros_hex = "0000000000000000000000000000000000000000000000000000000000000000"

abbrev pub env : Externals
env = record {
  sha256 = λ bs. bs;
  hmac_sha256 = λ key message. zeros;
  paris = λ t. record { year = 2026; month = 9; day = 11; hour = 8; minute = 5 };
}

abbrev pub alice : User
alice = record { id = 1; email = "alice@example.org"; is_active = true; email_verified = true }

abbrev pub bob : User
bob = record { id = 2; email = "bob@example.org"; is_active = true; email_verified = true }

abbrev pub meter : Device
meter = record {
  id = 7;
  device_uid = "SM-0123456789AB";
  mqtt_device_id = some "meter-7";
  name = some "Cuisine";
  is_active = true;
  created_at = 0;
}

abbrev pub challenge : DeviceResetChallenge
challenge = record {
  id = "c1";
  device_id = 7;
  requested_by_user_id = some 2;
  challenge_digest = zeros_hex;
  created_at = 0;
  expires_at = 120000000;
  consumed_at = none;
}

abbrev pub db : Db
db = record {
  users = alice ∷ bob ∷ [];
  devices = meter ∷ [];
  memberships =
      record { user_id = 1; device_id = 7; role = "owner" }
      ∷ record { user_id = 3; device_id = 7; role = "member" }
      ∷ record { user_id = 1; device_id = 8; role = "owner" }
      ∷ [];
  channels =
      record {
        id = 5;
        device_id = 7;
        channel_key = "power_1";
        name = some "Four";
        is_enabled = true;
      }
      ∷ [];
  transfers = [];
  challenges = challenge ∷ [];
  notices = [];
  checks =
      record {
        transfer_id = 1;
        device_uid = "SM-0123456789AB";
        mqtt_device_id = "meter-7";
        broker_reference = "receipt-1";
        verified_at = 60000000;
      }
      ∷ [];
  alarm_configurations = [];
  local_history_records = [];
  power_measurements = [];
  next_device_id = 8;
  next_channel_id = 6;
  next_transfer_id = 1;
  next_notice_id = 1;
}

abbrev pub request : StageRequest
request = record {
  device_uid = "SM-0123456789AB";
  next_owner_user_id = 2;
  reset_generation = 4;
  challenge_id = "c1";
  challenge_hex = zeros_hex;
  tag_hex = zeros_hex;
  factory_key = zeros;
}

abbrev pub transfer : DeviceTransfer
transfer = record {
  id = 1;
  device_id = 7;
  previous_owner_user_id = 1;
  next_owner_user_id = 2;
  challenge_id = "c1";
  reset_generation = 4;
  state = pending;
  cause = "physical_factory_reset_reassociation";
  requested_at = 1000;
  not_before = 60001000;
  effective_at = none;
}

unfoldable pub staged_db : Db
staged_db = (stage_verified_transfer env true request 1000 db).1

pub staging : stage_verified_transfer env true request 1000 db ≡ (ok transfer, staged_db)
unfolding staged_db stage_verified_transfer proof_valid last_generation
staging = refl

abbrev pub broker : Option Verifier
broker = some (λ uid mqtt reference. true)

pub completed_db : Db
completed_db = (complete_due_transfer env true broker 1 60001000 staged_db).1

pub staged_found : find_transfer 1 staged_db ≡ some transfer
unfolding staged_db stage_verified_transfer proof_valid last_generation
staged_found = refl

pub completing :
    complete_due_transfer env true broker 1 60001000 staged_db
    ≡ (ok (complete_row 60001000 transfer), completed_db)
unfolding completed_db complete_due_transfer staged_db stage_verified_transfer proof_valid
    last_generation
completing = refl

-- One microsecond too early.
pub completing_early :
    complete_due_transfer env true broker 1 60000999 staged_db
    ≡ (err (transfer_rejected "transfer delay not elapsed"), staged_db)
unfolding complete_due_transfer staged_db stage_verified_transfer proof_valid last_generation
completing_early = refl

pub same_challenges : completed_db.challenges ≡ staged_db.challenges
unfolding completed_db complete_due_transfer staged_db stage_verified_transfer proof_valid
    last_generation
same_challenges = refl

pub staged_pending : pending_transfer true 7 staged_db ≡ some transfer
unfolding pending_transfer staged_db stage_verified_transfer proof_valid last_generation
staged_pending = refl

pub staged_period : bounded_history_period true 7 1 "owner" 10 5000 staged_db ≡ ok (10, 1000)
unfolding bounded_history_period bounded_period epoch_start epoch_end latest_completed_transfer
    latest_of pending_transfer staged_db stage_verified_transfer proof_valid last_generation
staged_period = refl

abbrev pub epoch : OwnerEpoch
epoch = record {
  device_id = 7;
  owner_user_id = 2;
  epoch_transfer_id = some 1;
  effective_at = some 60001000;
}

pub completed_epoch : resolve_owner_epoch 5 completed_db ≡ ok epoch
unfolding resolve_owner_epoch latest_of completed_db complete_due_transfer staged_db
    stage_verified_transfer proof_valid last_generation
completed_epoch = refl

pub measured_in_epoch : require_measurement_in_epoch epoch 60001001 ≡ ok tt
unfolding require_measurement_in_epoch
measured_in_epoch = refl

abbrev pub issued : IssuedResetChallenge
issued = record { id = "c2"; challenge_hex = zeros_hex; expires_at = 120000500 }

abbrev pub fresh_db : Db
fresh_db = record db { challenges = [] }

pub issued_db : Db
issued_db = record fresh_db {
  challenges =
      record {
        id = "c2";
        device_id = 7;
        requested_by_user_id = some 2;
        challenge_digest = zeros_hex;
        created_at = 500;
        expires_at = 120000500;
        consumed_at = none;
      }
      ∷ [];
}

pub issuing :
    issue_reset_challenge env true "SM-0123456789AB" (some 2) 500 "c2" zeros_hex fresh_db
    ≡ ok (issued, issued_db)
unfolding issue_reset_challenge issued_db
issuing = refl

abbrev pub request_again : StageRequest
request_again = record request { challenge_id = "c2" }

abbrev pub transfer_again : DeviceTransfer
transfer_again = record transfer { challenge_id = "c2" }

pub staged_again_db : Db
staged_again_db = (stage_verified_transfer env true request_again 1000 issued_db).1

pub staging_again :
    stage_verified_transfer env true request_again 1000 issued_db
    ≡ (ok transfer_again, staged_again_db)
unfolding staged_again_db issued_db stage_verified_transfer proof_valid last_generation
staging_again = refl

pub db_owners : (k : ℕ) → length (keep (owner_of k) db.memberships) ≤ 1
db_owners k = elim (Bool-cases (7 == k)) [
  | inl e ↦
      subst (λ i. length (keep (owner_of i) db.memberships) ≤ 1) ((eqb_iff 7 k).0 e) (omega arith)
  | inr e ↦ elim (Bool-cases (8 == k)) [
    | inl e' ↦ rw (e, e') (omega arith)
    | inr e' ↦ rw (e, e') (omega arith)
  ]
]

pub db-Consistent : Consistent db
db-Consistent = record { one_pending = λ k. omega arith; one_owner = db_owners }

pub read_by_former_owner : former_owner_window 7 1 10 5000 completed_db ≡ ok (10, 1000, none)
unfolding former_owner_window completed_ownership_epochs chain completed_db complete_due_transfer
    staged_db stage_verified_transfer proof_valid last_generation
read_by_former_owner = refl

-- ===== src/Database/Rows.antt =====
-- app/models.py: the rows.
use smart_monitor_back_end.Base.{ℕ, Bool, true, false, String, Option, List}
use smart_monitor_back_end.Base.Json.{Fields, Number}

pub record User : Type 0 where
  pub id : ℕ
  pub email : String
  pub is_active : Bool
  pub email_verified : Bool

pub record Device : Type 0 where
  pub id : ℕ
  pub device_uid : String
  pub mqtt_device_id : Option String
  pub name : Option String
  pub is_active : Bool
  pub created_at : ℕ

-- `role` is "owner" or "member"
pub record DeviceMembership : Type 0 where
  pub user_id : ℕ
  pub device_id : ℕ
  pub role : String

pub record DeviceChannel : Type 0 where
  pub id : ℕ
  pub device_id : ℕ
  pub channel_key : String
  pub name : Option String
  pub is_enabled : Bool

-- ck_transfer_state
pub data TransferState : Type 0 where
  pending completed cancelled : TransferState

pub record DeviceTransfer : Type 0 where
  pub id : ℕ
  pub device_id : ℕ
  pub previous_owner_user_id : ℕ
  pub next_owner_user_id : ℕ
  pub challenge_id : String
  pub reset_generation : ℕ
  pub state : TransferState
  pub cause : String
  pub requested_at : ℕ
  pub not_before : ℕ
  pub effective_at : Option ℕ

pub record DeviceResetChallenge : Type 0 where
  pub id : String
  pub device_id : ℕ
  pub requested_by_user_id : Option ℕ
  pub challenge_digest : String
  pub created_at : ℕ
  pub expires_at : ℕ
  pub consumed_at : Option ℕ

-- ck_transfer_notice_phase
pub data Phase : Type 0 where
  phase_pending phase_completed : Phase

abbrev pub same_phase : Phase → Phase → Bool
same_phase phase_pending phase_pending = true
same_phase phase_completed phase_completed = true
same_phase phase_pending phase_completed = false
same_phase phase_completed phase_pending = false

pub record DeviceTransferNotice : Type 0 where
  pub id : ℕ
  pub transfer_id : ℕ
  pub user_id : ℕ
  pub phase : Phase
  pub body : String
  pub created_at : ℕ
  pub read_at : Option ℕ

-- DeviceTransferMqttIdentityCheck
pub record IdentityCheck : Type 0 where
  pub transfer_id : ℕ
  pub device_uid : String
  pub mqtt_device_id : String
  pub broker_reference : String
  pub verified_at : ℕ

-- DeviceAlarmConfiguration; its rules are a JSON value that the transfer only deletes
pub record AlarmConfiguration : Type 0 where
  pub device_id : ℕ
  pub owner_user_id : ℕ

-- the record that the device exported, as JSON
pub record LocalHistoryRecord : Type 0 where
  pub device_id : ℕ
  pub sequence : ℕ
  pub captured_at : ℕ
  pub exported : Fields

-- the six electrical columns by name
pub record PowerMeasurement : Type 0 where
  pub channel_id : ℕ
  pub measured_at : ℕ
  pub electrical : List (String × Option Number)

-- ===== src/Transfer/Stage.antt =====
-- app/device_transfer_store.py: the one-use reset challenge, and the staging of a verified transfer.
-- SHA-256, HMAC-SHA256 and the time zone are parameters; `secrets.token_hex` and `uuid4` are inputs
-- of the call, and so is the time. `SM015_TRANSFER_STAGING_ENABLED` is the argument `enabled`.
pub mod Challenges
pub mod Staged
pub mod Spent
use smart_monitor_back_end.Base.{
  ℕ, ◌+◌, ◌≡◌, Bool, true, false, ◌&&◌, ◌||◌, not, String, Option, none, some, List, [], ◌∷◌, leb,
  ltb, max, if◌then◌else◌, is_some, is_none, first, update_where, ◌==◌, nat_eq, string_eq, any,
  option_eq,
}
use smart_monitor_back_end.Base.Http.{
  Error, Result, ok, err, value_error, transfer_rejected, integrity_error, raise_if, reject_if,
  or_reject, on_integrity, ◌>>=◌, ◌>>◌,
}
use smart_monitor_back_end.Base.Text.{codes}
use smart_monitor_back_end.Database.{
  Db, Device, DeviceMembership, DeviceTransfer, DeviceResetChallenge, DeviceTransferNotice, User,
  pending, phase_pending, pending_of, owner_of, find_user, find_device_by_uid, insert_transfer,
  insert_notice, transact,
}
use smart_monitor_back_end.Transfer.Notice.{
  LocalTime, transfer_delay, transfer_cause, pending_transfer_notice, notice_label,
}
use smart_monitor_back_end.Base.Hex.{from_hex, hexdigest}
use smart_monitor_back_end.Transfer.Proof.{verify_reset_proof}

-- timedelta(minutes=2), in microseconds
abbrev pub challenge_lifetime : ℕ
challenge_lifetime = 120000000

-- What the code takes from outside of the repository.
pub record Externals : Type 0 where
  pub sha256 : List ℕ → List ℕ
  pub hmac_sha256 : List ℕ → List ℕ → List ℕ
  pub paris : ℕ → LocalTime

-- consumed_at is None and expires_at > now
abbrev pub active_challenge : ℕ → ℕ → DeviceResetChallenge → Bool
active_challenge device_id now c =
    c.device_id == device_id && (is_none c.consumed_at && ltb now c.expires_at)

pub record IssuedResetChallenge : Type 0 where
  pub id : String
  pub challenge_hex : String
  pub expires_at : ℕ

-- the primary key and `uq_reset_challenge_digest`
abbrev pub challenge_conflict : DeviceResetChallenge → DeviceResetChallenge → Bool
challenge_conflict new old = old.id == new.id || old.challenge_digest == new.challenge_digest

unfoldable pub insert_challenge : DeviceResetChallenge → Db → Result Db
insert_challenge c db =
    if any (challenge_conflict c) db.challenges
    then err integrity_error
    else ok (record db { challenges = c ∷ db.challenges })

-- sha256(bytes.fromhex(text)).hexdigest(), with None for the ValueError of a text that is not hex
unfoldable pub digest_of : Externals → String → Option String
unfolding from_hex hexdigest
digest_of env text = elim (from_hex (codes text)) [
  | none ↦ none
  | some bs ↦ some (hexdigest (env.sha256 bs))
]

abbrev pub text_or_error : Option String → Result String
text_or_error none = err (value_error "non-hexadecimal number found in fromhex() arg")
text_or_error (some s) = ok s

-- `id` is str(uuid4()) and `challenge_hex` is secrets.token_hex(32).upper()
unfoldable pub issue_reset_challenge :
    Externals
    → Bool
    → String
    → Option ℕ
    → ℕ
    → String
    → String
    → Db
    → Result (IssuedResetChallenge × Db)
unfolding insert_challenge digest_of
issue_reset_challenge env enabled device_uid requested_by now id challenge_hex db = do
  reject_if (not enabled) "ownership transfer is disabled"
  device ← or_reject (find_device_by_uid device_uid db) "device not registered"
  reject_if (is_some (first (pending_of device.id) db.transfers)) "transfer already pending"
  reject_if (is_some (first (active_challenge device.id now) db.challenges))
      "reset challenge already active"
  digest ← text_or_error (digest_of env challenge_hex)
  db' ←
      insert_challenge
        (record {
          id = id;
          device_id = device.id;
          requested_by_user_id = requested_by;
          challenge_digest = digest;
          created_at = now;
          expires_at = now + challenge_lifetime;
          consumed_at = none;
        })
        db
  ok (record { id = id; challenge_hex = challenge_hex; expires_at = now + challenge_lifetime }, db')

pub record StageRequest : Type 0 where
  pub device_uid : String
  pub next_owner_user_id : ℕ
  pub reset_generation : ℕ
  pub challenge_id : String
  pub challenge_hex : String
  pub tag_hex : String
  pub factory_key : List ℕ

-- func.max(DeviceTransfer.reset_generation) of the device, or 0
unfoldable pub last_generation : ℕ → List DeviceTransfer → ℕ
last_generation device_id [] = 0
last_generation device_id (t ∷ ts) =
    let rest = last_generation device_id ts in
    if t.device_id == device_id then max t.reset_generation rest else rest

abbrev pub holds : Result Bool → Bool
holds (ok b) = b
holds (err e) = false

abbrev pub same_digest : String → Option String → Bool
same_digest expected none = false
same_digest expected (some digest) = expected == digest

-- digest_matches and verify_reset_proof(…), where a ValueError of either counts as invalid
unfoldable pub proof_valid : Externals → DeviceResetChallenge → StageRequest → Bool
unfolding digest_of verify_reset_proof
proof_valid env challenge r =
    same_digest challenge.challenge_digest (digest_of env r.challenge_hex)
    && holds (
        verify_reset_proof env.hmac_sha256 r.factory_key r.device_uid r.reset_generation
          r.challenge_hex r.tag_hex)

abbrev pub belongs_to_other : Option ℕ → ℕ → Bool
belongs_to_other none user_id = false
belongs_to_other (some id) user_id = not (id == user_id)

-- the row of the new transfer
abbrev pub staged_transfer : StageRequest → ℕ → Device → DeviceMembership → Db → DeviceTransfer
staged_transfer r now device owner db = record {
  id = db.next_transfer_id;
  device_id = device.id;
  previous_owner_user_id = owner.user_id;
  next_owner_user_id = r.next_owner_user_id;
  challenge_id = r.challenge_id;
  reset_generation = r.reset_generation;
  state = pending;
  cause = transfer_cause;
  requested_at = now;
  not_before = now + transfer_delay;
  effective_at = none;
}

abbrev pub consume : ℕ → DeviceResetChallenge → DeviceResetChallenge
consume now c = record c { consumed_at = some now }

-- The tests on the accounts and the device's earlier transfers.
unfoldable pub check_parties :
    StageRequest → Device → DeviceMembership → User → Db → Result (Unit {0})
check_parties r device owner next_owner db = do
  reject_if
      (owner.user_id == r.next_owner_user_id
        || (not next_owner.is_active || not next_owner.email_verified))
      "new owner not eligible"
  reject_if (is_some (first (pending_of device.id) db.transfers)) "transfer already pending"
  reject_if (leb r.reset_generation (last_generation device.id db.transfers))
      "reset generation already used"

-- The tests on the challenge and the physical proof.
unfoldable pub check_challenge :
    Externals → StageRequest → ℕ → DeviceResetChallenge → Result (Unit {0})
check_challenge env r now challenge = do
  reject_if (is_some challenge.consumed_at || leb challenge.expires_at now)
      "reset challenge expired or used"
  reject_if (belongs_to_other challenge.requested_by_user_id r.next_owner_user_id)
      "reset challenge belongs to another account"
  reject_if (not (proof_valid env challenge r)) "physical reset proof invalid"

-- the row of the old owner's notice of the transfer
abbrev pub pending_notice : ℕ → ℕ → ℕ → String → Db → DeviceTransferNotice
pending_notice transfer_id user_id now body db = record {
  id = db.next_notice_id;
  transfer_id = transfer_id;
  user_id = user_id;
  phase = phase_pending;
  body = body;
  created_at = now;
  read_at = none;
}

-- The rows that a verified request writes.
unfoldable pub write_staged :
    Externals → StageRequest → ℕ → Device → DeviceMembership → Db → Result (DeviceTransfer × Db)
unfolding insert_transfer insert_notice notice_label pending_transfer_notice
write_staged env r now device owner db = do
  let transfer = staged_transfer r now device owner db
  db' ← insert_transfer transfer (record db {
    challenges = update_where (λ c. c.id == r.challenge_id) (consume now) db.challenges;
  })
  body ←
      pending_transfer_notice env.paris (notice_label device.name device.device_uid)
        (now + transfer_delay)
  db'' ← insert_notice (pending_notice transfer.id owner.user_id now body db') db'
  ok (transfer, db'')

unfoldable pub stage_body : Externals → StageRequest → ℕ → Db → Result (DeviceTransfer × Db)
unfolding check_parties check_challenge write_staged
stage_body env r now db = do
  device ← or_reject (find_device_by_uid r.device_uid db) "device not registered"
  owner ← or_reject (first (owner_of device.id) db.memberships) "owner account missing"
  next_owner ← or_reject (find_user r.next_owner_user_id db) "owner account missing"
  check_parties r device owner next_owner db
  challenge ←
      or_reject (first (λ c. c.id == r.challenge_id && c.device_id == device.id) db.challenges)
        "reset challenge expired or used"
  check_challenge env r now challenge
  write_staged env r now device owner db

unfoldable pub stage_verified_transfer :
    Externals → Bool → StageRequest → ℕ → Db → Result DeviceTransfer × Db
unfolding stage_body
stage_verified_transfer env enabled r now db = transact db (do
  reject_if (not enabled) "ownership transfer is disabled"
  on_integrity "conflicting transfer request" (stage_body env r now db))

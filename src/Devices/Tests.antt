-- ===== src/Devices/Tests.antt =====
-- The theorems on devices, at a device that is claimed and shared.
use smart_monitor_back_end.Base.{
  ℕ, ◌≡◌, refl, String, true, none, some, List, [], ◌∷◌, string_eq, pair_eq,
}
use smart_monitor_back_end.Base.Dict
use smart_monitor_back_end.Base.Http.{Result, ok}
use smart_monitor_back_end.Database.{Db, Device}
use smart_monitor_back_end.Authorization.{require_device_action}
use smart_monitor_back_end.Transfer.Guard.{require_active_transfer_access, latest_of}
use smart_monitor_back_end.ClaimProofStore
use smart_monitor_back_end.ClaimProofStore.{ClaimProofStore}
use smart_monitor_back_end.Devices.{DeviceClaimRequest, Stores, claim_device}
use smart_monitor_back_end.Devices.Members.{add_device_member}
use smart_monitor_back_end.Devices.Members.Limit.{adds, handle, Allowed, handle-Allowed}

abbrev sha : List ℕ → List ℕ
sha bs = bs

abbrev payload : DeviceClaimRequest
payload = record { device_uid = "SM-0123456789AB"; nonce = "00112233445566778899AABBCCDDEEFF" }

abbrev digest : String
digest = "3030313132323333343435353636373738383939414142424343444445454646"

abbrev proofs : ClaimProofStore
proofs = record {
  ttl = 100;
  proofs =
      Dict.insert "SM-0123456789AB" (ClaimProofStore.new_proof digest "meter-7" 100) Dict.empty;
  consumed_proofs = Dict.empty;
}

abbrev db : Db
db = record {
  users =
      record { id = 1; email = "alice@example.org"; is_active = true; email_verified = true }
      ∷ record { id = 2; email = "bob@example.org"; is_active = true; email_verified = true }
      ∷ [];
  devices = [];
  memberships = [];
  channels = [];
  transfers = [];
  challenges = [];
  notices = [];
  checks = [];
  alarm_configurations = [];
  local_history_records = [];
  power_measurements = [];
  next_device_id = 7;
  next_channel_id = 1;
  next_transfer_id = 1;
  next_notice_id = 1;
}

abbrev before : Stores
before = record { proofs = proofs; db = db }

claimed : Result Device × Stores
claimed = claim_device sha true payload 1 10 "r1" 5 20 before

abbrev meter : Device
meter = record {
  id = 7;
  device_uid = "SM-0123456789AB";
  mqtt_device_id = some "meter-7";
  name = none;
  is_active = true;
  created_at = 5;
}

claimed_by_alice : claimed.0 ≡ ok meter
unfolding claimed claim_device ClaimProofStore.reserve ClaimProofStore.commit
claimed_by_alice = refl

shared : Db
shared = handle true (adds 7 "Bob@Example.org" 1) claimed.1.db

bob_reads :
    shared.memberships
    ≡ record { user_id = 2; device_id = 7; role = "member" }
      ∷ record { user_id = 1; device_id = 7; role = "owner" }
      ∷ []
unfolding shared handle add_device_member claimed claim_device ClaimProofStore.reserve
    ClaimProofStore.commit require_device_action require_active_transfer_access latest_of
bob_reads = refl

sharing : handle true (adds 7 "Bob@Example.org" 1) claimed.1.db ≡ shared
unfolding shared
sharing = refl

handle-Allowed_example : Allowed 7 1 claimed.1.db shared
handle-Allowed_example =
    handle-Allowed true (adds 7 "Bob@Example.org" 1) claimed.1.db shared sharing

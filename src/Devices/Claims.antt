-- ===== src/Devices/Claims.antt =====
-- app/devices.py: a claim, from the reservation of the proof to its commit.
use smart_monitor_back_end.Base.{
  ℕ, ◌≡◌, ◌⊎◌, String, true, Option, some, nat_eq, string_eq, option_eq,
}
use smart_monitor_back_end.Base.Http.{Error, Result, ok, err, runtime_error}
use smart_monitor_back_end.Database.{Device}
use smart_monitor_back_end.ClaimProofStore
use smart_monitor_back_end.ClaimProofStore.{ClaimProofStore}
use smart_monitor_back_end.Devices.{DeviceClaimRequest, Stores}
use smart_monitor_back_end.Devices.Associated.{Claimed}

abbrev pub proof_lost : Error
proof_lost = runtime_error "Claim proof reservation was lost after database commit"

-- A claim that succeeds had a proof reserved, has consumed it, and leaves the device claimed. One
-- that fails leaves the database as it was, but for a proof that is lost after the commit.
abbrev pub Outcome :
    DeviceClaimRequest
    → ℕ
    → ℕ
    → ℕ
    → Option (String × String) × ClaimProofStore
    → Stores
    → Result Device
    → Stores
    → Type 0
Outcome payload user_id now commit_time reserved s (ok d) s' =
    (id : String) × (mqtt : String) × (reserved.0 ≡ some (id, mqtt))
    × Claimed payload.device_uid mqtt user_id now s.db d s'.db
    × (ClaimProofStore.commit payload.device_uid id commit_time reserved.1 ≡ (true, s'.proofs))
Outcome payload user_id now commit_time reserved s (err e) s' =
    (s'.db ≡ s.db)
    ⊎ ((e ≡ proof_lost)
        × (id : String) × (mqtt : String) × (reserved.0 ≡ some (id, mqtt))
        × (d : Device) × Claimed payload.device_uid mqtt user_id now s.db d s'.db)

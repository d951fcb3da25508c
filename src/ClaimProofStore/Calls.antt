-- ===== src/ClaimProofStore/Calls.antt =====
-- app/claim_proof_store.py: histories of calls.
use smart_monitor_back_end.Base.{ℕ, ◌<◌, String, List, [], ◌∷◌}
use smart_monitor_back_end.ClaimProofStore.{ClaimProofStore, register, reserve, release, commit}

-- A call of each method, with its arguments, its time and the next reservation id.
pub data Call : Type 0 where
  registers : String → String → String → ℕ → Call
  reserves : String → String → ℕ → String → Call
  releases : String → String → Call
  commits : String → String → ℕ → Call

-- the calls that read the clock read it before `limit`
abbrev pub Before : ℕ → Call → Type 0
Before limit (registers device_uid digest mqtt_device_id now) = now < limit
Before limit (reserves device_uid nonce now id) = now < limit
Before limit (releases device_uid id) = Unit
Before limit (commits device_uid id now) = now < limit

module _ (sha256 : List ℕ → List ℕ) where
  abbrev pub apply : Call → ClaimProofStore → ClaimProofStore
  apply (registers device_uid digest mqtt_device_id now) s =
      (register device_uid digest mqtt_device_id now s).1
  apply (reserves device_uid nonce now id) s = (reserve sha256 device_uid nonce now id s).1
  apply (releases device_uid id) s = release device_uid id s
  apply (commits device_uid id now) s = (commit device_uid id now s).1

  abbrev pub run : List Call → ClaimProofStore → ClaimProofStore
  run [] s = s
  run (c ∷ cs) s = run cs (apply c s)

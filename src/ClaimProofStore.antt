-- ===== src/ClaimProofStore.antt =====
-- app/claim_proof_store.py: the life of a proof that a device is claimed with. The clock, in
-- nanoseconds, and the next reservation id are inputs of the call; SHA-256 is a parameter. The lock
-- makes each method one step.
pub mod Calls
pub mod Consumed
pub mod Refused
pub mod Final
pub mod Reserved
pub mod Exclusive
pub mod Holder
mod Tests
use smart_monitor_back_end.Base.{
  ℕ, ◌+◌, String, Bool, true, false, not, ◌&&◌, ◌||◌, Option, none, some, List, leb, ltb, eqb,
  is_some, if◌then◌else◌, length, all, ◌==◌, string_eq, pair_eq, option_eq,
}
use smart_monitor_back_end.Base.Dict
use smart_monitor_back_end.Base.Dict.{Dict}
use smart_monitor_back_end.Base.Hex.{is_upper_hex, hexdigest}
use smart_monitor_back_end.Base.Http.{Result, ok, value_error, raise_if, ◌>>=◌, ◌>>◌}
use smart_monitor_back_end.Base.Text.{codes, lower}

pub record Proof : Type 0 where
  pub proof_sha256 : String
  pub mqtt_device_id : String
  pub expires_at : ℕ
  pub reservation_id : Option String
  pub reservation_expires_at : ℕ

-- `_ttl_seconds`, `_proofs` by device, `_consumed_proofs` by device and digest
pub record ClaimProofStore : Type 0 where
  pub ttl : ℕ
  pub proofs : Dict String Proof
  pub consumed_proofs : Dict (String × String) ℕ

abbrev pub claim_proof_ttl : ℕ
claim_proof_ttl = 120000000000

unfoldable pub init : ℕ → Result ClaimProofStore
init ttl = do
  raise_if (leb ttl 0) (value_error "ttl_seconds must be positive")
  ok (record { ttl = ttl; proofs = Dict.empty; consumed_proofs = Dict.empty })

abbrev pub is_fresh : ℕ → Proof → Bool
is_fresh now p = not (leb p.expires_at now)

abbrev pub is_after : ℕ → ℕ → Bool
is_after now expires_at = not (leb expires_at now)

unfoldable pub prune : ℕ → ClaimProofStore → ClaimProofStore
prune now s = record s {
  proofs = Dict.retain (is_fresh now) s.proofs;
  consumed_proofs = Dict.retain (is_after now) s.consumed_proofs;
}

abbrev pub reserved_same : Option Proof → String → Bool
reserved_same none digest = false
reserved_same (some p) digest = is_some p.reservation_id && p.proof_sha256 == digest

-- the two refusals of `register`
abbrev pub refuses : String → String → ClaimProofStore → Bool
refuses device_uid digest s =
    is_some (Dict.get s.consumed_proofs (device_uid, digest))
    || reserved_same (Dict.get s.proofs device_uid) digest

abbrev pub new_proof : String → String → ℕ → Proof
new_proof digest mqtt_device_id expires_at = record {
  proof_sha256 = digest;
  mqtt_device_id = mqtt_device_id;
  expires_at = expires_at;
  reservation_id = none;
  reservation_expires_at = 0;
}

abbrev pub put_proof : String → Proof → ClaimProofStore → ClaimProofStore
put_proof device_uid p s = record s { proofs = Dict.insert device_uid p s.proofs }

-- `register` behind the pruning
unfoldable pub register_pruned :
    String → String → String → ℕ → ClaimProofStore → Bool × ClaimProofStore
register_pruned device_uid digest mqtt_device_id now s =
    if refuses device_uid digest s
    then (false, s)
    else (true, put_proof device_uid (new_proof digest mqtt_device_id (now + s.ttl)) s)

unfoldable pub register : String → String → String → ℕ → ClaimProofStore → Bool × ClaimProofStore
unfolding register_pruned prune lower
register device_uid proof_sha256 mqtt_device_id now s =
    register_pruned device_uid (lower proof_sha256) mqtt_device_id now (prune now s)

-- 32 characters of 0123456789ABCDEF
unfoldable pub nonce_valid : String → Bool
nonce_valid nonce = eqb (length (codes nonce)) 32 && all is_upper_hex (codes nonce)

-- a reservation that still holds
abbrev pub is_reserved : ℕ → Proof → Bool
is_reserved now p = is_some p.reservation_id && ltb now p.reservation_expires_at

abbrev pub reserve_row : String → Proof → Proof
reserve_row id p = record p { reservation_id = some id; reservation_expires_at = p.expires_at }

-- `reserve` with the device's proof looked up
unfoldable pub reserve_proof :
    Option Proof
    → String
    → String
    → ℕ
    → String
    → ClaimProofStore
    → Option (String × String) × ClaimProofStore
reserve_proof none device_uid digest now id s = (none, s)
reserve_proof (some p) device_uid digest now id s =
    if not (digest == p.proof_sha256) || is_reserved now p
    then (none, s)
    else (some (id, p.mqtt_device_id), put_proof device_uid (reserve_row id p) s)

abbrev pub release_row : Proof → Proof
release_row p = record p { reservation_id = none; reservation_expires_at = 0 }

unfoldable pub release_proof : Option Proof → String → String → ClaimProofStore → ClaimProofStore
release_proof none device_uid reservation_id s = s
release_proof (some p) device_uid reservation_id s =
    if p.reservation_id == some reservation_id then put_proof device_uid (release_row p) s else s

unfoldable pub release : String → String → ClaimProofStore → ClaimProofStore
unfolding release_proof
release device_uid reservation_id s =
    release_proof (Dict.get s.proofs device_uid) device_uid reservation_id s

-- the device's proof goes, and its digest is consumed
abbrev pub consume_proof : String → String → ℕ → ClaimProofStore → ClaimProofStore
consume_proof device_uid digest expires_at s = record s {
  proofs = Dict.erase device_uid s.proofs;
  consumed_proofs = Dict.insert (device_uid, digest) expires_at s.consumed_proofs;
}

unfoldable pub commit_proof :
    Option Proof → String → String → ℕ → ClaimProofStore → Bool × ClaimProofStore
commit_proof none device_uid reservation_id now s = (false, s)
commit_proof (some p) device_uid reservation_id now s =
    if p.reservation_id == some reservation_id
    then (true, consume_proof device_uid p.proof_sha256 (now + s.ttl) s)
    else (false, s)

unfoldable pub commit : String → String → ℕ → ClaimProofStore → Bool × ClaimProofStore
unfolding commit_proof prune
commit device_uid reservation_id now s =
    let pruned = prune now s in
    commit_proof (Dict.get pruned.proofs device_uid) device_uid reservation_id now pruned

module _ (sha256 : List ℕ → List ℕ) where
  -- hashlib.sha256(nonce.encode("ascii")).hexdigest()
  unfoldable pub nonce_digest : String → String
  unfolding hexdigest
  nonce_digest nonce = hexdigest (sha256 (codes nonce))

  unfoldable pub reserve :
      String → String → ℕ → String → ClaimProofStore → Option (String × String) × ClaimProofStore
  unfolding nonce_valid nonce_digest reserve_proof prune
  reserve device_uid nonce now id s =
      let pruned = prune now s in
      let result =
        reserve_proof (Dict.get pruned.proofs device_uid) device_uid (nonce_digest nonce) now id
          pruned in
      if nonce_valid nonce then result else (none, s)

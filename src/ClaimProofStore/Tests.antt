-- ===== src/ClaimProofStore/Tests.antt =====
-- One claim from the registration of a proof to its commit, with another device's calls between.
use smart_monitor_back_end.Base.{
  ℕ, ◌≡◌, refl, true, false, String, none, some, List, [], ◌∷◌, arith,
}
use smart_monitor_back_end.Base.Dict
use smart_monitor_back_end.Base.Text.{lower}
use smart_monitor_back_end.ClaimProofStore.{
  ClaimProofStore, Proof, new_proof, register, reserve, commit, claim_proof_ttl, nonce_digest,
  nonce_valid,
}
use smart_monitor_back_end.ClaimProofStore.Calls.{Call, registers, reserves, run}
use smart_monitor_back_end.ClaimProofStore.Final.{commit_final}
use smart_monitor_back_end.ClaimProofStore.Holder.{commit-reserve}
use smart_monitor_back_end.ClaimProofStore.Exclusive.{reservation_exclusive}

abbrev sha256 : List ℕ → List ℕ
sha256 bs = bs

abbrev nonce : String
nonce = "00000000000000000000000000000000"

abbrev digest : String
digest = "3030303030303030303030303030303030303030303030303030303030303030"

abbrev fresh : ClaimProofStore
fresh = record { ttl = claim_proof_ttl; proofs = Dict.empty; consumed_proofs = Dict.empty }

abbrev proof : Proof
proof = new_proof digest "meter-7" 120000000005

registered : ClaimProofStore
registered = (register "SM-7" digest "meter-7" 5 fresh).1

registered_proof : registered.proofs "SM-7" ≡ some proof
unfolding registered register lower
registered_proof = refl

reserved : ClaimProofStore
reserved = (reserve sha256 "SM-7" nonce 6 "r1" registered).1

reserving : reserve sha256 "SM-7" nonce 6 "r1" registered ≡ (some ("r1", "meter-7"), reserved)
unfolding reserved reserve registered register lower nonce_valid nonce_digest
reserving = refl

abbrev reserved_row : Proof
reserved_row = record proof { reservation_id = some "r1"; reservation_expires_at = 120000000005 }

reserved_proof : reserved.proofs "SM-7" ≡ some reserved_row
unfolding reserved reserve registered register lower nonce_valid nonce_digest
reserved_proof = refl

committed : ClaimProofStore
committed = (commit "SM-7" "r1" 7 reserved).1

committing : commit "SM-7" "r1" 7 reserved ≡ (true, committed)
unfolding committed commit reserved reserve registered register lower nonce_valid nonce_digest
committing = refl

reserved_ttl : reserved.ttl ≡ claim_proof_ttl
unfolding reserved reserve registered register lower nonce_valid nonce_digest
reserved_ttl = refl

lower_digest : lower digest ≡ digest
unfolding lower
lower_digest = refl

digest_of_nonce : nonce_digest sha256 nonce ≡ digest
unfolding nonce_digest
digest_of_nonce = refl

abbrev between : List Call
between = registers "SM-8" digest "meter-8" 10 ∷ reserves "SM-7" nonce 11 "r2" ∷ []

reservation_exclusive_example :
    (reserve sha256 "SM-7" nonce 20 "r3" (run sha256 between reserved)).0 ≡ none
reservation_exclusive_example =
    reservation_exclusive sha256 "SM-7" nonce 6 "r1" registered reserved ("r1", "meter-7") between
      nonce 20 "r3" reserving (refl, (tt, tt))

commit-reserve_example :
    (◌≡◌ {A = String × String} ("r1", "meter-7") ("r1", "meter-7"))
    × ((commit "SM-7" "r1" 70 (run sha256 between reserved)).0 ≡ true)
commit-reserve_example =
    commit-reserve sha256 proof "SM-7" nonce 6 70 "r1" registered reserved ("r1", "meter-7") between
      registered_proof reserving (refl, (tt, tt)) (omega arith, (omega arith, tt)) (omega arith)

commit_final_example :
    ((register "SM-7" digest "meter-7" 30 (run sha256 between committed)).0 ≡ false)
    × ((reserve sha256 "SM-7" nonce 30 "r4" (run sha256 between committed)).0 ≡ none)
commit_final_example =
    commit_final sha256 reserved_row "SM-7" "r1" 7 reserved committed between digest "meter-7" nonce
      "r4" 30 reserved_proof committing
      (omega (arith, reserved_ttl), (omega (arith, reserved_ttl), tt)) (omega (arith, reserved_ttl))
      lower_digest digest_of_nonce

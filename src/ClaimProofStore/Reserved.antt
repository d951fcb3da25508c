-- ===== src/ClaimProofStore/Reserved.antt =====
-- app/claim_proof_store.py: the invariant of a reserved proof, through each method.
use smart_monitor_back_end.Base.{
  ℕ, ◌≡◌, refl, String, Bool, true, false, not, ◌||◌, Option, none, some, List, [], ◌∷◌, All,
  Bool-cases, inl, inr, is_some, ◌==◌, string_eq, pair_eq, option_eq,
}
use smart_monitor_back_end.Base.Dict
use smart_monitor_back_end.Base.Text.{lower}
use smart_monitor_back_end.ClaimProofStore.{
  ClaimProofStore, Proof, prune, refuses, register, register_pruned, reserve, reserve_proof,
  is_reserved, release, release_proof, commit, commit_proof, nonce_digest, nonce_valid, is_fresh,
}
use smart_monitor_back_end.ClaimProofStore.Calls.{
  Call, registers, reserves, releases, commits, apply, run,
}

-- the calls that leave a reservation of the device `d` alone: those for other devices, and any reserve
abbrev pub Spares : String → Call → Type 0
Spares d (registers e digest mqtt_device_id now) = (e == d) ≡ false
Spares d (reserves e nonce now id) = Unit
Spares d (releases e id) = (e == d) ≡ false
Spares d (commits e id now) = (e == d) ≡ false

-- no proof, or one that is reserved for as long as it lives
abbrev pub IsBusy : Option Proof → Type 0
IsBusy none = Unit
IsBusy (some p) = (is_some p.reservation_id ≡ true) × (p.reservation_expires_at ≡ p.expires_at)

IsBusy-keep_if : (q : Proof → Bool) (o : Option Proof) → IsBusy o → IsBusy (Dict.keep_if q o)
IsBusy-keep_if q none v = v
IsBusy-keep_if q (some p) v = elim (Bool-cases (q p)) [ inl e ↦ rw e v | inr e ↦ rw e tt ]

prune-IsBusy :
    (d : String) (now : ℕ) (s : ClaimProofStore)
    → IsBusy (s.proofs d)
    → IsBusy ((prune now s).proofs d)
unfolding prune
prune-IsBusy d now s v = IsBusy-keep_if (is_fresh now) (s.proofs d) v

register_pruned-IsBusy :
    (d e digest mqtt : String) (now : ℕ) (s : ClaimProofStore)
    → (e == d) ≡ false
    → IsBusy (s.proofs d)
    → IsBusy ((register_pruned e digest mqtt now s).1.proofs d)
unfolding register_pruned
register_pruned-IsBusy d e digest mqtt now s other v = elim (Bool-cases (refuses e digest s)) [
  | inl yes' ↦ rw yes' v
  | inr no' ↦ rw (no', other) v
]

release_proof-IsBusy :
    (o : Option Proof) (d e id : String) (s : ClaimProofStore)
    → (e == d) ≡ false
    → IsBusy (s.proofs d)
    → IsBusy ((release_proof o e id s).proofs d)
unfolding release_proof
release_proof-IsBusy none d e id s other v = v
release_proof-IsBusy (some p) d e id s other v = elim (Bool-cases (p.reservation_id == some id)) [
  | inl yes' ↦ rw (yes', other) v
  | inr no' ↦ rw no' v
]

commit_proof-IsBusy :
    (o : Option Proof) (d e id : String) (now : ℕ) (s : ClaimProofStore)
    → (e == d) ≡ false
    → IsBusy (s.proofs d)
    → IsBusy ((commit_proof o e id now s).1.proofs d)
unfolding commit_proof
commit_proof-IsBusy none d e id now s other v = v
commit_proof-IsBusy (some p) d e id now s other v =
    elim (Bool-cases (p.reservation_id == some id)) [
      | inl yes' ↦ rw (yes', other) v
      | inr no' ↦ rw no' v
    ]

-- A proof is reserved for its whole life, by whoever reserves it.
reserve_proof-IsBusy :
    (o : Option Proof) (d e digest : String) (now : ℕ) (id : String) (s : ClaimProofStore)
    → IsBusy (s.proofs d)
    → IsBusy ((reserve_proof o e digest now id s).1.proofs d)
unfolding reserve_proof
reserve_proof-IsBusy none d e digest now id s v = v
reserve_proof-IsBusy (some p) d e digest now id s v =
    elim (Bool-cases (not (digest == p.proof_sha256) || is_reserved now p)) [
      | inl yes' ↦ rw yes' v
      | inr no' ↦ elim (Bool-cases (e == d)) [
        | inl same ↦ rw (no', same) (refl, refl)
        | inr other ↦ rw (no', other) v
      ]
    ]

reserve-IsBusy :
    (sha256 : List ℕ → List ℕ) (d e nonce : String) (now : ℕ) (id : String) (s : ClaimProofStore)
    → IsBusy (s.proofs d)
    → IsBusy ((reserve sha256 e nonce now id s).1.proofs d)
unfolding reserve
reserve-IsBusy sha256 d e nonce now id s v = elim (Bool-cases (nonce_valid nonce)) [
  | inl yes' ↦ rw yes' (
      reserve_proof-IsBusy ((prune now s).proofs e) d e (nonce_digest sha256 nonce) now id
        (prune now s) (prune-IsBusy d now s v))
  | inr no' ↦ rw no' v
]

apply-IsBusy :
    (sha256 : List ℕ → List ℕ) (d : String) (c : Call) (s : ClaimProofStore)
    → Spares d c
    → IsBusy (s.proofs d)
    → IsBusy ((apply sha256 c s).proofs d)
unfolding register release commit
apply-IsBusy sha256 d (registers e digest mqtt now) s other v =
    register_pruned-IsBusy d e (lower digest) mqtt now (prune now s) other (prune-IsBusy d now s v)
apply-IsBusy sha256 d (reserves e nonce now id) s other v =
    reserve-IsBusy sha256 d e nonce now id s v
apply-IsBusy sha256 d (releases e id) s other v = release_proof-IsBusy (s.proofs e) d e id s other v
apply-IsBusy sha256 d (commits e id now) s other v =
    commit_proof-IsBusy ((prune now s).proofs e) d e id now (prune now s) other
      (prune-IsBusy d now s v)

pub run-IsBusy :
    (sha256 : List ℕ → List ℕ) (d : String) (cs : List Call) (s : ClaimProofStore)
    → All (Spares d) cs
    → IsBusy (s.proofs d)
    → IsBusy ((run sha256 cs s).proofs d)
run-IsBusy sha256 d [] s spare v = v
run-IsBusy sha256 d (c ∷ cs) s spare v =
    run-IsBusy sha256 d cs (apply sha256 c s) spare.1 (apply-IsBusy sha256 d c s spare.0 v)

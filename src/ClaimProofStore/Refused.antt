-- ===== src/ClaimProofStore/Refused.antt =====
-- app/claim_proof_store.py: `register` and `reserve` on a consumed digest.
use smart_monitor_back_end.Base.{
  ℕ, ◌<◌, ◌≡◌, ◌≢◌, refl, sym, ◌∙◌, ap, String, false, Option, none, some, List, Bool-cases, inl,
  inr, ◌==◌, string_eq, pair_eq, option_eq, beq_self,
}
use smart_monitor_back_end.Base.Text.{lower}
use smart_monitor_back_end.ClaimProofStore.{
  ClaimProofStore, Proof, prune, register, register_pruned, reserve, reserve_proof, nonce_digest,
  nonce_valid,
}
use smart_monitor_back_end.ClaimProofStore.Consumed.{held, IsDead, prune-IsDead, refuses-IsDead}

module _ (d g : String) (limit : ℕ) where
  pub register-refused :
      (digest mqtt : String) (now : ℕ) (s : ClaimProofStore)
      → now < limit
      → lower digest ≡ g
      → IsDead d g limit s
      → (register d digest mqtt now s).0 ≡ false
  unfolding register register_pruned
  register-refused digest mqtt now s early eq v =
      rw
        (refuses-IsDead d g limit d (lower digest) (prune now s)
          (prune-IsDead d g limit now s early v) (beq_self d) eq)
        refl

  reserve_proof-refused :
      (o : Option Proof) (digest : String) (now : ℕ) (id : String) (s : ClaimProofStore)
      → digest ≡ g
      → held o ≢ some g
      → (reserve_proof o d digest now id s).0 ≡ none
  unfolding reserve_proof
  reserve_proof-refused none digest now id s eq v = refl
  reserve_proof-refused (some p) digest now id s eq v =
      elim (Bool-cases (digest == p.proof_sha256)) [
        | inl same ↦
            absurd (v (ap some (sym ((string_eq.beq_iff digest p.proof_sha256).0 same) ∙ eq)))
        | inr differs ↦ rw differs refl
      ]

  pub reserve-refused :
      (sha256 : List ℕ → List ℕ) (nonce : String) (now : ℕ) (id : String) (s : ClaimProofStore)
      → now < limit
      → nonce_digest sha256 nonce ≡ g
      → IsDead d g limit s
      → (reserve sha256 d nonce now id s).0 ≡ none
  unfolding reserve
  reserve-refused sha256 nonce now id s early eq v = elim (Bool-cases (nonce_valid nonce)) [
    | inl yes' ↦ rw yes' (
        reserve_proof-refused ((prune now s).proofs d) (nonce_digest sha256 nonce) now id
          (prune now s) eq (prune-IsDead d g limit now s early v).gone)
    | inr no' ↦ rw no' refl
  ]

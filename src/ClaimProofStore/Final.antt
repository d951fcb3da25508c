-- ===== src/ClaimProofStore/Final.antt =====
-- app/claim_proof_store.py: the commit of a claim, and the calls after it.
use smart_monitor_back_end.Base.{
  ℕ, ◌+◌, ◌<◌, ◌≡◌, ◌≢◌, refl, sym, ◌∙◌, ap, subst, String, Bool, true, false, Option, none, some,
  List, arith, All, Bool-cases, inl, inr, ◌==◌, string_eq, pair_eq, option_eq, beq_self,
}
use smart_monitor_back_end.Base.Dict
use smart_monitor_back_end.Base.Text.{lower}
use smart_monitor_back_end.ClaimProofStore.{
  ClaimProofStore, Proof, prune, register, reserve, commit, commit_proof, consume_proof,
  nonce_digest, is_fresh,
}
use smart_monitor_back_end.ClaimProofStore.Calls.{Call, Before, run}
use smart_monitor_back_end.ClaimProofStore.Consumed.{IsDead, run-IsDead}
use smart_monitor_back_end.ClaimProofStore.Refused.{register-refused, reserve-refused}

commit_proof_held :
    (p : Proof) (d id : String) (now : ℕ) (s : ClaimProofStore)
    → (p.reservation_id == some id) ≡ true
    → commit_proof (some p) d id now s ≡ (true, consume_proof d p.proof_sha256 (now + s.ttl) s)
unfolding commit_proof
commit_proof_held p d id now s held' = rw held' refl

commit_proof_free :
    (p : Proof) (d id : String) (now : ℕ) (s : ClaimProofStore)
    → (p.reservation_id == some id) ≡ false
    → commit_proof (some p) d id now s ≡ (false, s)
unfolding commit_proof
commit_proof_free p d id now s free = rw free refl

commit_proof-consumes :
    (p : Proof) (d id : String) (now : ℕ) (s s' : ClaimProofStore)
    → commit_proof (some p) d id now s ≡ (true, s')
    → s' ≡ consume_proof d p.proof_sha256 (now + s.ttl) s
commit_proof-consumes p d id now s s' h = elim (Bool-cases (p.reservation_id == some id)) [
  | inl yes' ↦
      ap (λ (r : Bool × ClaimProofStore). r.1) (sym h ∙ commit_proof_held p d id now s yes')
  | inr no' ↦ absurd (
      ground (
        arith,
        ap (λ (r : Bool × ClaimProofStore). r.0) (sym h ∙ commit_proof_free p d id now s no'),
      ))
]

commit_proof-none :
    (d id : String) (now : ℕ) (s s' : ClaimProofStore) → commit_proof none d id now s ≢ (true, s')
unfolding commit_proof
commit_proof-none d id now s s' h = ground (arith, h)

prune-proofs :
    (now : ℕ) (s : ClaimProofStore) (d : String)
    → (prune now s).proofs d ≡ Dict.keep_if (is_fresh now) (s.proofs d)
unfolding prune
prune-proofs now s d = refl

prune-ttl : (now : ℕ) (s : ClaimProofStore) → (prune now s).ttl ≡ s.ttl
unfolding prune
prune-ttl now s = refl

commit_pruned :
    (p : Proof) (o : Option Proof) (d id : String) (now : ℕ) (s s' : ClaimProofStore)
    → o ≡ Dict.keep_if (is_fresh now) (some p)
    → commit_proof o d id now s ≡ (true, s')
    → s' ≡ consume_proof d p.proof_sha256 (now + s.ttl) s
commit_pruned p o d id now s s' eq h = elim (Bool-cases (is_fresh now p)) [
  | inl fresh ↦
      commit_proof-consumes p d id now s s'
        (subst (λ x. commit_proof x d id now s ≡ (true, s')) (eq ∙ rw fresh refl) h)
  | inr stale ↦ absurd (
      commit_proof-none d id now s s'
        (subst (λ x. commit_proof x d id now s ≡ (true, s')) (eq ∙ rw stale refl) h))
]

commit-consumes :
    (p : Proof) (d id : String) (now : ℕ) (s s' : ClaimProofStore)
    → s.proofs d ≡ some p
    → commit d id now s ≡ (true, s')
    → s' ≡ consume_proof d p.proof_sha256 (now + s.ttl) (prune now s)
unfolding commit
commit-consumes p d id now s s' found h =
    subst (λ t. s' ≡ consume_proof d p.proof_sha256 (now + t) (prune now s)) (prune-ttl now s)
      (commit_pruned p ((prune now s).proofs d) d id now (prune now s) s'
        (prune-proofs now s d ∙ ap (Dict.keep_if (is_fresh now)) found) h)

consumed-IsDead :
    (d g : String) (limit : ℕ) (s : ClaimProofStore) → IsDead d g limit (consume_proof d g limit s)
consumed-IsDead d g limit s = record {
  until = limit;
  spent = rw (beq_self d, beq_self g) refl;
  lasts = omega arith;
  gone = rw (beq_self d) (λ h. cc h);
}

-- Once a claim with a proof is committed, that proof is worth nothing for the time to live from then
-- on, whatever calls are made meanwhile for any device: the device cannot register its digest again
-- (in either case of letters), and no nonce with that digest reserves it.
pub commit_final :
    (sha256 : List ℕ → List ℕ) (p : Proof) (d id : String) (now : ℕ) (s s' : ClaimProofStore)
    (cs : List Call) (digest mqtt_device_id nonce other : String) (later : ℕ)
    → s.proofs d ≡ some p
    → commit d id now s ≡ (true, s')
    → All (Before (now + s.ttl)) cs
    → later < now + s.ttl
    → lower digest ≡ p.proof_sha256
    → nonce_digest sha256 nonce ≡ p.proof_sha256
    → ((register d digest mqtt_device_id later (run sha256 cs s')).0 ≡ false)
      × ((reserve sha256 d nonce later other (run sha256 cs s')).0 ≡ none)
commit_final sha256 p d id now s s' cs digest mqtt_device_id nonce other later found h early soon
      same same' =
    let g = p.proof_sha256 in
    let limit = now + s.ttl in
    let start : IsDead d p.proof_sha256 (now + s.ttl) s' =
      subst (IsDead d p.proof_sha256 (now + s.ttl)) (sym (commit-consumes p d id now s s' found h))
        (consumed-IsDead d p.proof_sha256 (now + s.ttl) (prune now s)) in
    let dead = run-IsDead d g limit sha256 cs s' early start in
    (
      register-refused d g limit digest mqtt_device_id later (run sha256 cs s') soon same dead,
      reserve-refused d g limit sha256 nonce later other (run sha256 cs s') soon same' dead,
    )

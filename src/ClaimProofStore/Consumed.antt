-- ===== src/ClaimProofStore/Consumed.antt =====
-- app/claim_proof_store.py: the invariant of a consumed digest, through each method.
use smart_monitor_back_end.Base.{
  ℕ, ◌+◌, ◌≤◌, ◌<◌, ◌≡◌, ◌≢◌, refl, sym, ◌∙◌, ap, subst, String, Bool, true, false, not, ◌&&◌, ◌||◌,
  Option, none, some, List, [], ◌∷◌, arith, All, Bool-cases, inl, inr, gt→leb_false, ◌==◌,
  string_eq, pair_eq, option_eq,
}
use smart_monitor_back_end.Base.Dict
use smart_monitor_back_end.Base.Text.{lower}
use smart_monitor_back_end.ClaimProofStore.{
  ClaimProofStore, Proof, prune, refuses, new_proof, put_proof, register, register_pruned, reserve,
  reserve_proof, reserve_row, is_reserved, release, release_proof, release_row, commit,
  commit_proof, consume_proof, nonce_digest, nonce_valid, is_fresh,
}
use smart_monitor_back_end.ClaimProofStore.Calls.{
  Call, registers, reserves, releases, commits, Before, apply, run,
}

abbrev pub held : Option Proof → Option String
held none = none
held (some p) = some p.proof_sha256

-- The digest `g` of the device `d` is consumed until `limit` at least, and no proof carries it.
pub record IsDead (d g : String) (limit : ℕ) (s : ClaimProofStore) : Type 0 where
  pub until : ℕ
  pub spent : s.consumed_proofs (d, g) ≡ some until
  pub lasts : limit ≤ until
  pub gone : held (s.proofs d) ≢ some g

held-keep_if :
    (q : Proof → Bool) (o : Option Proof) (g : String)
    → held o ≢ some g
    → held (Dict.keep_if q o) ≢ some g
held-keep_if q none g h = h
held-keep_if q (some p) g h = elim (Bool-cases (q p)) [ inl e ↦ rw e h | inr e ↦ rw e (λ k. cc k) ]

module _ (d g : String) (limit : ℕ) where
  pub prune-IsDead :
      (now : ℕ) (s : ClaimProofStore)
      → now < limit
      → IsDead d g limit s
      → IsDead d g limit (prune now s)
  unfolding prune
  prune-IsDead now s early v = record {
    until = v.until;
    spent = rw (v.spent, gt→leb_false v.until now (omega (arith, v.lasts))) refl;
    lasts = v.lasts;
    gone = held-keep_if (is_fresh now) (s.proofs d) g v.gone;
  }

  put_proof-IsDead :
      (e : String) (p : Proof) (s : ClaimProofStore)
      → ((e == d) ≡ true → p.proof_sha256 ≢ g)
      → IsDead d g limit s
      → IsDead d g limit (put_proof e p s)
  put_proof-IsDead e p s other v = record {
    until = v.until;
    spent = v.spent;
    lasts = v.lasts;
    gone = elim (Bool-cases (e == d)) [
      | inl same ↦ rw same (λ h. other same (ground (arith, h)))
      | inr differs ↦ rw differs v.gone
    ];
  }

  -- A consumed digest is refused.
  pub refuses-IsDead :
      (e digest : String) (s : ClaimProofStore)
      → IsDead d g limit s
      → (e == d) ≡ true
      → digest ≡ g
      → refuses e digest s ≡ true
  refuses-IsDead e digest s v same eq =
      let there : s.consumed_proofs (e, digest) ≡ some v.until =
        subst (λ k. s.consumed_proofs (k, digest) ≡ some v.until)
          (sym ((string_eq.beq_iff e d).0 same))
          (subst (λ x. s.consumed_proofs (d, x) ≡ some v.until) (sym eq) v.spent) in
      rw there refl

  -- A proof that is there carries another digest.
  carries_other :
      (e : String) (p : Proof) (s : ClaimProofStore)
      → IsDead d g limit s
      → s.proofs e ≡ some p
      → (e == d) ≡ true
      → p.proof_sha256 ≢ g
  carries_other e p s v found same eq = v.gone (
      ap held (subst (λ k. s.proofs k ≡ some p) ((string_eq.beq_iff e d).0 same) found)
      ∙ ap some eq)

  register_pruned-IsDead :
      (e digest mqtt : String) (now : ℕ) (s : ClaimProofStore)
      → IsDead d g limit s
      → IsDead d g limit (register_pruned e digest mqtt now s).1
  unfolding register_pruned
  register_pruned-IsDead e digest mqtt now s v = elim (Bool-cases (refuses e digest s)) [
    | inl yes' ↦ rw yes' v
    | inr no' ↦ rw no' (
        put_proof-IsDead e (new_proof digest mqtt (now + s.ttl)) s
          (λ same eq. absurd (ground (arith, no', refuses-IsDead e digest s v same eq))) v)
  ]

  reserve_proof-IsDead :
      (o : Option Proof) (e digest : String) (now : ℕ) (id : String) (s : ClaimProofStore)
      → s.proofs e ≡ o
      → IsDead d g limit s
      → IsDead d g limit (reserve_proof o e digest now id s).1
  unfolding reserve_proof
  reserve_proof-IsDead none e digest now id s found v = v
  reserve_proof-IsDead (some p) e digest now id s found v =
      elim (Bool-cases (not (digest == p.proof_sha256) || is_reserved now p)) [
        | inl yes' ↦ rw yes' v
        | inr no' ↦ rw no' (put_proof-IsDead e (reserve_row id p) s (carries_other e p s v found) v)
      ]

  release_proof-IsDead :
      (o : Option Proof) (e id : String) (s : ClaimProofStore)
      → s.proofs e ≡ o
      → IsDead d g limit s
      → IsDead d g limit (release_proof o e id s)
  unfolding release_proof
  release_proof-IsDead none e id s found v = v
  release_proof-IsDead (some p) e id s found v = elim (Bool-cases (p.reservation_id == some id)) [
    | inl yes' ↦ rw yes' (put_proof-IsDead e (release_row p) s (carries_other e p s v found) v)
    | inr no' ↦ rw no' v
  ]

  -- A claim consumes another pair of device and digest.
  other_pair :
      (e : String) (p : Proof) (s : ClaimProofStore)
      → IsDead d g limit s
      → s.proofs e ≡ some p
      → (e == d && p.proof_sha256 == g) ≡ false
  other_pair e p s v found = elim (Bool-cases (e == d && p.proof_sha256 == g)) [
    | inl both ↦ absurd (
        carries_other e p s v found (ground (arith, both))
          ((string_eq.beq_iff p.proof_sha256 g).0 (ground (arith, both))))
    | inr differs ↦ differs
  ]

  consume_proof-IsDead :
      (e : String) (p : Proof) (expires_at : ℕ) (s : ClaimProofStore)
      → s.proofs e ≡ some p
      → IsDead d g limit s
      → IsDead d g limit (consume_proof e p.proof_sha256 expires_at s)
  consume_proof-IsDead e p expires_at s found v = record {
    until = v.until;
    spent = rw (other_pair e p s v found) v.spent;
    lasts = v.lasts;
    gone = elim (Bool-cases (e == d)) [
      | inl same ↦ rw same (λ h. cc h)
      | inr differs ↦ rw differs v.gone
    ];
  }

  commit_proof-IsDead :
      (o : Option Proof) (e id : String) (now : ℕ) (s : ClaimProofStore)
      → s.proofs e ≡ o
      → IsDead d g limit s
      → IsDead d g limit (commit_proof o e id now s).1
  unfolding commit_proof
  commit_proof-IsDead none e id now s found v = v
  commit_proof-IsDead (some p) e id now s found v =
      elim (Bool-cases (p.reservation_id == some id)) [
        | inl yes' ↦ rw yes' (consume_proof-IsDead e p (now + s.ttl) s found v)
        | inr no' ↦ rw no' v
      ]

  reserve-IsDead :
      (sha256 : List ℕ → List ℕ) (e nonce : String) (now : ℕ) (id : String) (s : ClaimProofStore)
      → now < limit
      → IsDead d g limit s
      → IsDead d g limit (reserve sha256 e nonce now id s).1
  unfolding reserve
  reserve-IsDead sha256 e nonce now id s early v = elim (Bool-cases (nonce_valid nonce)) [
    | inl yes' ↦ rw yes' (
        reserve_proof-IsDead ((prune now s).proofs e) e (nonce_digest sha256 nonce) now id
          (prune now s) refl (prune-IsDead now s early v))
    | inr no' ↦ rw no' v
  ]

  apply-IsDead :
      (sha256 : List ℕ → List ℕ) (c : Call) (s : ClaimProofStore)
      → Before limit c
      → IsDead d g limit s
      → IsDead d g limit (apply sha256 c s)
  unfolding register release commit
  apply-IsDead sha256 (registers e digest mqtt now) s early v =
      register_pruned-IsDead e (lower digest) mqtt now (prune now s) (prune-IsDead now s early v)
  apply-IsDead sha256 (reserves e nonce now id) s early v =
      reserve-IsDead sha256 e nonce now id s early v
  apply-IsDead sha256 (releases e id) s early v = release_proof-IsDead (s.proofs e) e id s refl v
  apply-IsDead sha256 (commits e id now) s early v =
      commit_proof-IsDead ((prune now s).proofs e) e id now (prune now s) refl
        (prune-IsDead now s early v)

  pub run-IsDead :
      (sha256 : List ℕ → List ℕ) (cs : List Call) (s : ClaimProofStore)
      → All (Before limit) cs
      → IsDead d g limit s
      → IsDead d g limit (run sha256 cs s)
  run-IsDead sha256 [] s early v = v
  run-IsDead sha256 (c ∷ cs) s early v =
      run-IsDead sha256 cs (apply sha256 c s) early.1 (apply-IsDead sha256 c s early.0 v)

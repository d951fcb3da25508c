-- ===== src/ClaimProofStore/Exclusive.antt =====
-- app/claim_proof_store.py: a reservation, and those that come after it.
use smart_monitor_back_end.Base.{
  ℕ, ◌≡◌, ◌≢◌, refl, sym, ◌∙◌, ap, subst, String, true, false, not, ◌||◌, Option, none, some, List,
  arith, All, Bool-cases, inl, inr, leb, leb→gt, lt→ltb, ◌==◌, string_eq, pair_eq, option_eq,
  beq_self,
}
use smart_monitor_back_end.Base.Dict
use smart_monitor_back_end.ClaimProofStore.{
  ClaimProofStore, Proof, prune, put_proof, reserve, reserve_proof, reserve_row, is_reserved,
  nonce_digest, nonce_valid, is_fresh,
}
use smart_monitor_back_end.ClaimProofStore.Calls.{Call, run}
use smart_monitor_back_end.ClaimProofStore.Reserved.{Spares, IsBusy, run-IsBusy}

reserve_proof_busy :
    (o : Option Proof) (d digest : String) (now : ℕ) (id : String) (s : ClaimProofStore)
    → IsBusy o
    → (reserve_proof (Dict.keep_if (is_fresh now) o) d digest now id s).0 ≡ none
unfolding reserve_proof
reserve_proof_busy none d digest now id s v = refl
reserve_proof_busy (some p) d digest now id s v = elim (Bool-cases (leb p.expires_at now)) [
  | inl stale ↦ rw stale refl
  | inr fresh ↦ elim (Bool-cases (digest == p.proof_sha256)) [
    | inl same ↦
        rw (fresh, same, v.0, v.1, lt→ltb now p.expires_at (leb→gt p.expires_at now fresh)) refl
    | inr differs ↦ rw (fresh, differs) refl
  ]
]

reserve_busy :
    (sha256 : List ℕ → List ℕ) (d nonce : String) (now : ℕ) (id : String) (s : ClaimProofStore)
    → IsBusy (s.proofs d)
    → (reserve sha256 d nonce now id s).0 ≡ none
unfolding reserve prune
reserve_busy sha256 d nonce now id s v = elim (Bool-cases (nonce_valid nonce)) [
  | inl yes' ↦
      rw yes' (reserve_proof_busy (s.proofs d) d (nonce_digest sha256 nonce) now id (prune now s) v)
  | inr no' ↦ rw no' refl
]

abbrev Reservation : Type 0
Reservation = Option (String × String) × ClaimProofStore

module _ (p : Proof) (d digest : String) (now : ℕ) (id : String) (s : ClaimProofStore) where
  reserve_proof_free :
      (not (digest == p.proof_sha256) || is_reserved now p) ≡ false
      → reserve_proof (some p) d digest now id s
        ≡ (some (id, p.mqtt_device_id), put_proof d (reserve_row id p) s)
  unfolding reserve_proof
  reserve_proof_free h = rw h refl

  reserve_proof_taken :
      (not (digest == p.proof_sha256) || is_reserved now p) ≡ true
      → reserve_proof (some p) d digest now id s ≡ (none, s)
  unfolding reserve_proof
  reserve_proof_taken h = rw h refl

  reserved_row :
      (s' : ClaimProofStore) (r : String × String)
      → reserve_proof (some p) d digest now id s ≡ (some r, s')
      → (s' ≡ put_proof d (reserve_row id p) s) × (r ≡ (id, p.mqtt_device_id))
  reserved_row s' r h = elim (Bool-cases (not (digest == p.proof_sha256) || is_reserved now p)) [
    | inl taken ↦
        absurd (ground (arith, ap (λ (x : Reservation). x.0) (sym h ∙ reserve_proof_taken taken)))
    | inr free ↦ (
      ap (λ (x : Reservation). x.1) (sym h ∙ reserve_proof_free free),
      ground (arith, ap (λ (x : Reservation). x.0) (sym h ∙ reserve_proof_free free)),
    )
  ]

reserve_proof-none :
    (d digest : String) (now : ℕ) (id : String) (s s' : ClaimProofStore) (r : String × String)
    → reserve_proof none d digest now id s ≢ (some r, s')
unfolding reserve_proof
reserve_proof-none d digest now id s s' r h = ground (arith, h)

reserved :
    (o : Option Proof) (d digest : String) (now : ℕ) (id : String) (s s' : ClaimProofStore)
    (r : String × String)
    → reserve_proof o d digest now id s ≡ (some r, s')
    → (p : Proof) × (o ≡ some p)
      × (s' ≡ put_proof d (reserve_row id p) s)
      × (r ≡ (id, p.mqtt_device_id))
reserved none d digest now id s s' r h = absurd (reserve_proof-none d digest now id s s' r h)
reserved (some p) d digest now id s s' r h =
    let (rows, answer) = reserved_row p d digest now id s s' r h in (p, refl, rows, answer)

reserve_invalid :
    (sha256 : List ℕ → List ℕ) (d nonce : String) (now : ℕ) (id : String) (s : ClaimProofStore)
    → nonce_valid nonce ≡ false
    → reserve sha256 d nonce now id s ≡ (none, s)
unfolding reserve
reserve_invalid sha256 d nonce now id s no' = rw no' refl

-- What a successful reservation finds and writes.
pub reserve-reserved :
    (sha256 : List ℕ → List ℕ) (d nonce : String) (now : ℕ) (id : String) (s s' : ClaimProofStore)
    (r : String × String)
    → reserve sha256 d nonce now id s ≡ (some r, s')
    → (p : Proof) × ((prune now s).proofs d ≡ some p)
      × (s' ≡ put_proof d (reserve_row id p) (prune now s))
      × (r ≡ (id, p.mqtt_device_id))
unfolding reserve
reserve-reserved sha256 d nonce now id s s' r h = elim (Bool-cases (nonce_valid nonce)) [
  | inl yes' ↦
      reserved ((prune now s).proofs d) d (nonce_digest sha256 nonce) now id (prune now s) s' r
        (sym (rw yes' refl) ∙ h)
  | inr no' ↦ absurd (
      ground (
        arith,
        ap (λ (x : Reservation). x.0) (sym h ∙ reserve_invalid sha256 d nonce now id s no'),
      ))
]

-- Once a proof of a device is reserved, no other call reserves one for that device, at any time and
-- with any nonce, whatever is called meanwhile, short of a registration, a release or a commit for it.
pub reservation_exclusive :
    (sha256 : List ℕ → List ℕ) (d nonce : String) (now : ℕ) (id : String) (s s' : ClaimProofStore)
    (r : String × String) (cs : List Call) (nonce' : String) (later : ℕ) (id' : String)
    → reserve sha256 d nonce now id s ≡ (some r, s')
    → All (Spares d) cs
    → (reserve sha256 d nonce' later id' (run sha256 cs s')).0 ≡ none
reservation_exclusive sha256 d nonce now id s s' r cs nonce' later id' h spare =
    let (p, found, rows, answer) = reserve-reserved sha256 d nonce now id s s' r h in
    let start : IsBusy (s'.proofs d) =
      subst (λ t. IsBusy (t.proofs d)) (sym rows) (rw (beq_self d) (refl, refl)) in
    reserve_busy sha256 d nonce' later id' (run sha256 cs s')
      (run-IsBusy sha256 d cs s' spare start)

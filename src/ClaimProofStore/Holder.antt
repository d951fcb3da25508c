-- ===== src/ClaimProofStore/Holder.antt =====
-- app/claim_proof_store.py: the holder of a reservation commits it.
use smart_monitor_back_end.Base.{
  [], ◌∷◌, is_some, ℕ, ◌<◌, ◌≡◌, refl, sym, ◌∙◌, ap, subst, String, Bool, true, false, not, ◌||◌,
  Option, none, some, List, arith, All, Bool-cases, inl, inr, gt→leb_false, lt→ltb, ◌==◌, string_eq,
  pair_eq, option_eq, beq_self,
}
use smart_monitor_back_end.Base.Dict
use smart_monitor_back_end.ClaimProofStore.{
  register, register_pruned, refuses, release, release_proof, ClaimProofStore, Proof, prune,
  reserve, reserve_proof, reserve_row, is_reserved, commit, commit_proof, nonce_digest, nonce_valid,
  is_fresh,
}
use smart_monitor_back_end.ClaimProofStore.Calls.{
  Call, registers, reserves, releases, commits, Before, apply, run,
}
use smart_monitor_back_end.ClaimProofStore.Reserved.{Spares}
use smart_monitor_back_end.Base.Text.{lower}
use smart_monitor_back_end.ClaimProofStore.Exclusive.{reserve-reserved}

kept_proof : (q : Proof → Bool) (p p' : Proof) → Dict.keep_if q (some p) ≡ some p' → p ≡ p'
kept_proof q p p' h = elim (Bool-cases (q p)) [
  | inl e ↦ ground (arith, h, e)
  | inr e ↦ absurd (ground (arith, h, e))
]

commit_found :
    (o : Option Proof) (p : Proof) (d id : String) (now : ℕ) (s : ClaimProofStore)
    → o ≡ some p
    → (p.reservation_id == some id) ≡ true
    → (commit_proof o d id now s).0 ≡ true
unfolding commit_proof
commit_found o p d id now s found holder = rw (found, holder) refl

prune-found :
    (p : Proof) (d : String) (now : ℕ) (s : ClaimProofStore)
    → s.proofs d ≡ some p
    → now < p.expires_at
    → (prune now s).proofs d ≡ some p
unfolding prune
prune-found p d now s found soon = rw (found, gt→leb_false p.expires_at now soon) refl

commit_fresh :
    (p : Proof) (d id : String) (now : ℕ) (s : ClaimProofStore)
    → s.proofs d ≡ some p
    → now < p.expires_at
    → p.reservation_id ≡ some id
    → (commit d id now s).0 ≡ true
unfolding commit
commit_fresh p d id now s found soon holder =
    commit_found ((prune now s).proofs d) p d id now (prune now s)
      (prune-found p d now s found soon) ((option_eq.beq_iff p.reservation_id (some id)).1 holder)

-- A row that is reserved for as long as it lives.
abbrev Held : String → Proof → ClaimProofStore → Type 0
Held d p s = s.proofs d ≡ some p

module _ (p : Proof) (d : String) (taken : is_some p.reservation_id ≡ true)
    (whole : p.reservation_expires_at ≡ p.expires_at) where
  register_pruned-Held :
      (e digest mqtt : String) (now : ℕ) (s : ClaimProofStore)
      → (e == d) ≡ false
      → Held d p s
      → Held d p (register_pruned e digest mqtt now s).1
  unfolding register_pruned
  register_pruned-Held e digest mqtt now s other v = elim (Bool-cases (refuses e digest s)) [
    | inl yes' ↦ rw yes' v
    | inr no' ↦ rw (no', other) v
  ]

  release_proof-Held :
      (o : Option Proof) (e id : String) (s : ClaimProofStore)
      → (e == d) ≡ false
      → Held d p s
      → Held d p (release_proof o e id s)
  unfolding release_proof
  release_proof-Held none e id s other v = v
  release_proof-Held (some q) e id s other v = elim (Bool-cases (q.reservation_id == some id)) [
    | inl yes' ↦ rw (yes', other) v
    | inr no' ↦ rw no' v
  ]

  commit_proof-Held :
      (o : Option Proof) (e id : String) (now : ℕ) (s : ClaimProofStore)
      → (e == d) ≡ false
      → Held d p s
      → Held d p (commit_proof o e id now s).1
  unfolding commit_proof
  commit_proof-Held none e id now s other v = v
  commit_proof-Held (some q) e id now s other v = elim (Bool-cases (q.reservation_id == some id)) [
    | inl yes' ↦ rw (yes', other) v
    | inr no' ↦ rw no' v
  ]

  reserve_proof-Held :
      (o : Option Proof) (e digest : String) (now : ℕ) (id : String) (s : ClaimProofStore)
      → ((e == d) ≡ true → o ≡ some p)
      → now < p.expires_at
      → Held d p s
      → Held d p (reserve_proof o e digest now id s).1
  unfolding reserve_proof
  reserve_proof-Held none e digest now id s own soon v = v
  reserve_proof-Held (some q) e digest now id s own soon v =
      elim (Bool-cases (not (digest == q.proof_sha256) || is_reserved now q)) [
        | inl yes' ↦ rw yes' v
        | inr no' ↦ elim (Bool-cases (e == d)) [
          | inl same ↦ absurd (busy (ground (arith, own same)) no')
          | inr other ↦ rw (no', other) v
        ]
      ]
    where
      busy : q ≡ p → (not (digest == q.proof_sha256) || is_reserved now q) ≡ false → ⊥
      busy same free =
          let reserved' : is_reserved now p ≡ true =
            rw (taken, whole, lt→ltb now p.expires_at soon) in
          let reserved : is_reserved now q ≡ true =
            subst (λ x. is_reserved now x ≡ true) (sym same) reserved' in
          ground (arith, free, reserved)

  reserve-Held :
      (sha256 : List ℕ → List ℕ) (e nonce : String) (now : ℕ) (id : String) (s : ClaimProofStore)
      → now < p.expires_at
      → Held d p s
      → Held d p (reserve sha256 e nonce now id s).1
  unfolding reserve
  reserve-Held sha256 e nonce now id s soon v = elim (Bool-cases (nonce_valid nonce)) [
    | inl yes' ↦ rw yes' (
        reserve_proof-Held ((prune now s).proofs e) e (nonce_digest sha256 nonce) now id
          (prune now s)
          (λ same.
            subst (λ x. (prune now s).proofs x ≡ some p) (sym ((string_eq.beq_iff e d).0 same))
              (prune-found p d now s v soon))
          soon (prune-found p d now s v soon))
    | inr no' ↦ rw no' v
  ]

  -- A call before the proof expires, which is none of registration, release or commit for the device.
  apply-Held :
      (sha256 : List ℕ → List ℕ) (c : Call) (s : ClaimProofStore)
      → Spares d c
      → Before p.expires_at c
      → Held d p s
      → Held d p (apply sha256 c s)
  unfolding register release commit
  apply-Held sha256 (registers e digest mqtt now) s other soon v =
      register_pruned-Held e (lower digest) mqtt now (prune now s) other
        (prune-found p d now s v soon)
  apply-Held sha256 (releases e id) s other soon v = release_proof-Held (s.proofs e) e id s other v
  apply-Held sha256 (commits e id now) s other soon v =
      commit_proof-Held ((prune now s).proofs e) e id now (prune now s) other
        (prune-found p d now s v soon)
  apply-Held sha256 (reserves e nonce now id) s other soon v =
      reserve-Held sha256 e nonce now id s soon v

  run-Held :
      (sha256 : List ℕ → List ℕ) (cs : List Call) (s : ClaimProofStore)
      → All (Spares d) cs
      → All (Before p.expires_at) cs
      → Held d p s
      → Held d p (run sha256 cs s)
  run-Held sha256 [] s spare soon v = v
  run-Held sha256 (c ∷ cs) s spare soon v =
      run-Held sha256 cs (apply sha256 c s) spare.1 soon.1 (apply-Held sha256 c s spare.0 soon.0 v)

-- A reservation answers with its own id and the MQTT id that the proof was registered with, and that
-- reservation commits the claim at any time before the proof expires, whatever is called meanwhile (at
-- times before the expiry too), short of a registration, a release or a commit for the device.
pub commit-reserve :
    (sha256 : List ℕ → List ℕ) (p : Proof) (d nonce : String) (now later : ℕ) (id : String)
    (s s' : ClaimProofStore) (r : String × String) (cs : List Call)
    → s.proofs d ≡ some p
    → reserve sha256 d nonce now id s ≡ (some r, s')
    → All (Spares d) cs
    → All (Before p.expires_at) cs
    → later < p.expires_at
    → (r ≡ (id, p.mqtt_device_id)) × ((commit d r.0 later (run sha256 cs s')).0 ≡ true)
commit-reserve sha256 p d nonce now later id s s' r cs there h spare before soon =
    let (p', found, rows, answer) = reserve-reserved sha256 d nonce now id s s' r h in
    let same : p ≡ p' = kept_proof (is_fresh now) p p' (sym (pruned there) ∙ found) in
    let row : s'.proofs d ≡ some (reserve_row id p) =
      subst (λ t. t.proofs d ≡ some (reserve_row id p)) (sym rows)
        (rw (beq_self d) (ap (λ x. some (reserve_row id x)) (sym same))) in
    let held : (run sha256 cs s').proofs d ≡ some (reserve_row id p) =
      run-Held (reserve_row id p) d refl refl sha256 cs s' spare before row in
    let answer' : r ≡ (id, p.mqtt_device_id) =
      answer ∙ ap (λ x. (id, x.mqtt_device_id)) (sym same) in
    (
      answer',
      subst (λ x. (commit d x.0 later (run sha256 cs s')).0 ≡ true) (sym answer')
          (commit_fresh (reserve_row id p) d id later (run sha256 cs s') held soon refl),
    )
  where
    pruned : s.proofs d ≡ some p → (prune now s).proofs d ≡ Dict.keep_if (is_fresh now) (some p)
    pruned e = unfold prune in rw e refl

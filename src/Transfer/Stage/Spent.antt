-- ===== src/Transfer/Stage/Spent.antt =====
-- app/device_transfer_store.py: a staging, and its challenge afterwards.
use smart_monitor_back_end.Base.{
  ℕ, ◌≡◌, ◌≢◌, ◌⊎◌, sym, ◌∙◌, ap, subst, Bool, true, false, ◌&&◌, String, none, some, List, arith,
  first, ◌==◌, nat_eq, string_eq, inl, inr, update_where,
}
use smart_monitor_back_end.Base.Http.{Result, ok, on_integrity, on_integrity-ok}
use smart_monitor_back_end.Base.Rows.{first-holds, first-of_updated}
use smart_monitor_back_end.Database.{
  Db, DeviceTransfer, DeviceResetChallenge, transact-ok, transact_cases,
}
use smart_monitor_back_end.Transfer.Stage.{
  Externals, StageRequest, consume, stage_body, stage_verified_transfer,
}
use smart_monitor_back_end.Transfer.Stage.Staged.{Staged, stage_body-Staged}

-- A staging succeeds only in the circumstances that `Staged` lists: an active and verified account other
-- than the owner's, no transfer pending, a generation above every earlier one of the device, an unused
-- and unexpired challenge of the device that was requested by this account or by nobody, and a valid
-- proof of the reset. Its writes are exactly the pending transfer, the consumed challenge and one
-- notice of the transfer to the old owner; nothing else in the database changes.
pub stage_verified_transfer-Staged :
    (env : Externals) (enabled : Bool) (r : StageRequest) (now : ℕ) (db db' : Db)
    (t : DeviceTransfer)
    → stage_verified_transfer env enabled r now db ≡ (ok t, db')
    → Staged env r now db t db'
unfolding stage_verified_transfer
stage_verified_transfer-Staged env true r now db db' t h =
    stage_body-Staged env r now db db' t (
      on_integrity-ok "conflicting transfer request" (stage_body env r now db) (transact-ok db _ h))
stage_verified_transfer-Staged env false r now db db' t h = cc

consumed_or_other :
    (id : String) (device_id now : ℕ) (cs : List DeviceResetChallenge) (c : DeviceResetChallenge)
    → first
        (λ c. c.id == id && c.device_id == device_id)
        (update_where (λ c. c.id == id) (consume now) cs)
      ≡ some c
    → c.consumed_at ≢ none
consumed_or_other id device_id now cs c h unused =
    elim (first-of_updated named (λ c. c.id == id) (consume now) cs c h) [
      | inl (x, e) ↦ cc (ap (λ c. c.consumed_at) e)
      | inr other ↦
          ground (arith, first-holds named (update_where (λ c. c.id == id) (consume now) cs) c h)
    ]
  where
    named : DeviceResetChallenge → Bool
    named c = c.id == id && c.device_id == device_id

-- Once a staging has succeeded, no request that names its challenge is ever staged again, from any
-- account, for any device, at any time and in any database that still holds these challenges.
pub challenge_spent :
    (env : Externals) (enabled : Bool) (r r' : StageRequest) (now later : ℕ)
    (db db' other other' : Db) (t t' : DeviceTransfer)
    → stage_verified_transfer env enabled r now db ≡ (ok t, db')
    → other.challenges ≡ db'.challenges
    → r'.challenge_id ≡ r.challenge_id
    → stage_verified_transfer env enabled r' later other ≢ (ok t', other')
challenge_spent env enabled r r' now later db db' other other' t t' h same id h' =
    let first' = stage_verified_transfer-Staged env enabled r now db db' t h in
    let again = stage_verified_transfer-Staged env enabled r' later other other' t' h' in
    let challenges : other.challenges
        ≡ update_where (λ c. c.id == r.challenge_id) (consume now) db.challenges =
      same ∙ ap (λ d. d.challenges) first'.rows in
    consumed_or_other r.challenge_id again.device.id now db.challenges again.challenge
      (subst
        (λ cs.
          first (λ c. c.id == r.challenge_id && c.device_id == again.device.id) cs
          ≡ some again.challenge)
        challenges
        (subst
          (λ i.
            first (λ c. c.id == i && c.device_id == again.device.id) other.challenges
            ≡ some again.challenge)
          id again.challenge_found))
      again.unused

-- What a call can have done, however it ended.
pub stage_verified_transfer_outcomes :
    (env : Externals) (enabled : Bool) (r : StageRequest) (now : ℕ) (db db' : Db)
    (res : Result DeviceTransfer)
    → stage_verified_transfer env enabled r now db ≡ (res, db')
    → (db' ≡ db) ⊎ ((t : DeviceTransfer) × Staged env r now db t db')
unfolding stage_verified_transfer
stage_verified_transfer_outcomes env true r now db db' res h =
    elim (transact_cases db (on_integrity "conflicting transfer request" (stage_body env r now db))
      res db' h) [
        | inl same ↦ inl same
        | inr (t, e) ↦ inr (
          t,
          stage_body-Staged env r now db db' t
              (on_integrity-ok "conflicting transfer request" (stage_body env r now db) e),
        )
      ]
stage_verified_transfer_outcomes env false r now db db' res h = inl (sym (ap (λ p. p.1) h))

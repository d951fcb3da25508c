-- ===== src/Transfer/System/Challenges.antt =====
-- The reset challenges of app/device_transfer_store.py over a history of calls.
use smart_monitor_back_end.Base.{
  ℕ, ◌≤◌, ◌≡◌, refl, sym, ap, subst, Bool, String, Option, none, List, [], ◌∷◌, arith, keep, first,
  ◌==◌, nat_eq, string_eq, Bool-cases, inl, inr, eqb_iff, length,
}
use smart_monitor_back_end.Base.Rows.{keep-none, length-keep-update_where}
use smart_monitor_back_end.Database.{Db, DeviceTransfer, DeviceResetChallenge}
use smart_monitor_back_end.Transfer.Stage.{
  Externals, IssuedResetChallenge, StageRequest, active_challenge, consume,
}
use smart_monitor_back_end.Transfer.Stage.Staged.{Staged}
use smart_monitor_back_end.Transfer.Stage.Spent.{stage_verified_transfer_outcomes}
use smart_monitor_back_end.Transfer.Stage.Challenges.{
  challenge_row, Issued, issue_reset_challenge-Issued,
}
use smart_monitor_back_end.Transfer.Finalize.Outcomes.{complete_due_transfer_outcomes}
use smart_monitor_back_end.Transfer.System.{Step, Reach, issues, stages, completes, here, next}

-- At most one challenge of each device is neither consumed nor expired at the time `t`.
pub record OneChallenge (t : ℕ) (db : Db) : Type 0 where
  pub one_active : (k : ℕ) → length (keep (active_challenge k t) db.challenges) ≤ 1

-- No challenge of a history is issued after `t`.
abbrev pub StepBy :
    (t : ℕ) {env : Externals} {enabled : Bool} {db db' : Db} → Step env enabled db db' → Type 0
StepBy t (issues uid requested_by now id hex c h) = now ≤ t
StepBy t (stages r now res h) = Unit
StepBy t (completes verifier id now res h) = Unit

abbrev pub IssuedBy :
    (t : ℕ) {env : Externals} {enabled : Bool} {start db : Db} → Reach env enabled start db → Type 0
IssuedBy t here = Unit
IssuedBy t (next r s) = IssuedBy t r × StepBy t s

-- A device without a running challenge has none later either.
none_later :
    (k now t : ℕ) (cs : List DeviceResetChallenge)
    → now ≤ t
    → first (active_challenge k now) cs ≡ none
    → first (active_challenge k t) cs ≡ none
none_later k now t [] le h = refl
none_later k now t (c ∷ cs) le h = ground (arith, le, h, none_later k now t cs le)

Issued-OneChallenge :
    (uid : String) (requested_by : Option ℕ) (now t : ℕ) (id hex : String) (db db' : Db)
    (c : IssuedResetChallenge)
    → now ≤ t
    → Issued uid requested_by now id hex db c db'
    → OneChallenge t db
    → OneChallenge t db'
Issued-OneChallenge uid requested_by now t id hex db db' c le i v = record {
  one_active = λ k.
      subst (λ d. length (keep (active_challenge k t) d.challenges) ≤ 1) (sym i.rows) (count k);
}
  where
    count :
        (k : ℕ)
        → length (
            keep
              (active_challenge k t)
              (challenge_row id i.device.id requested_by now i.digest ∷ db.challenges))
          ≤ 1
    count k = elim (Bool-cases (i.device.id == k)) [
      | inl e ↦
          let none' : keep (active_challenge k t) db.challenges ≡ [] =
            subst (λ j. keep (active_challenge j t) db.challenges ≡ [])
              ((eqb_iff i.device.id k).0 e)
              (keep-none (active_challenge i.device.id t) db.challenges
                (none_later i.device.id now t db.challenges le i.none_active)) in
          ground (arith, e, none')
      | inr e ↦ rw e (v.one_active k)
    ]

Staged-OneChallenge :
    (env : Externals) (r : StageRequest) (now t : ℕ) (db db' : Db) (x : DeviceTransfer)
    → Staged env r now db x db'
    → OneChallenge t db
    → OneChallenge t db'
Staged-OneChallenge env r now t db db' x s v = record {
  one_active = λ k.
      subst (λ d. length (keep (active_challenge k t) d.challenges) ≤ 1) (sym s.rows)
        (omega (
          arith,
          v.one_active k,
          length-keep-update_where (active_challenge k t) (λ c. c.id == r.challenge_id)
              (consume now) db.challenges (λ c e. ground arith),
        ));
}

Step-OneChallenge :
    (t : ℕ) {env : Externals} {enabled : Bool} {db db' : Db} (s : Step env enabled db db')
    → StepBy t s
    → OneChallenge t db
    → OneChallenge t db'
Step-OneChallenge t {env} {enabled} {db} {db'} (issues uid requested_by now id hex c h) le v =
    Issued-OneChallenge uid requested_by now t id hex db db' c le
      (issue_reset_challenge-Issued env enabled uid requested_by now id hex db db' c h) v
Step-OneChallenge t {env} {enabled} {db} {db'} (stages r now res h) le v =
    elim (stage_verified_transfer_outcomes env enabled r now db db' res h) [
      | inl same ↦ subst (OneChallenge t) (sym same) v
      | inr (x, s) ↦ Staged-OneChallenge env r now t db db' x s v
    ]
Step-OneChallenge t {env} {enabled} {db} {db'} (completes verifier id now res h) le v =
    elim (complete_due_transfer_outcomes env enabled verifier id now db db' res h) [
      | inl same ↦ subst (OneChallenge t) (sym same) v
      | inr s ↦ record {
        one_active = λ k.
            subst (λ cs. length (keep (active_challenge k t) cs) ≤ 1)
              (sym (ap (λ (y : Db). y.challenges) s.rows)) (v.one_active k);
      }
    ]

-- From a database with at most one running challenge for each device, any sequence of issued
-- challenges, stagings and completions, of any accounts and devices, in any order of their times and
-- whether the stagings and completions succeed or fail, leads only to databases with at most one
-- running challenge for each device, at any time by which all its challenges are issued.
pub Reach-OneChallenge :
    (t : ℕ) {env : Externals} {enabled : Bool} {start db : Db} (r : Reach env enabled start db)
    → IssuedBy t r
    → OneChallenge t start
    → OneChallenge t db
Reach-OneChallenge t here by v = v
Reach-OneChallenge t (next r s) by v = Step-OneChallenge t s by.1 (Reach-OneChallenge t r by.0 v)

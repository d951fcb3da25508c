-- ===== src/Transfer/Stage/Challenges.antt =====
-- app/device_transfer_store.py: `issue_reset_challenge`.
use smart_monitor_back_end.Base.{
  ℕ, ◌+◌, ◌≡◌, sym, ◌∙◌, ap, Bool, not, String, Option, none, some, ◌∷◌, arith, first, is_some,
  nat_eq, string_eq,
}
use smart_monitor_back_end.Base.Http.{ok, reject_if, or_reject, >>=-eq-ok, or_reject-ok}
use smart_monitor_back_end.Database.{
  Db, Device, DeviceResetChallenge, pending_of, find_device_by_uid,
}
use smart_monitor_back_end.Transfer.Stage.{
  Externals, IssuedResetChallenge, challenge_lifetime, active_challenge, insert_challenge,
  digest_of, text_or_error, issue_reset_challenge,
}

insert_challenge-shape :
    (c : DeviceResetChallenge) (db db' : Db)
    → insert_challenge c db ≡ ok db'
    → db' ≡ record db { challenges = c ∷ db.challenges }
unfolding insert_challenge
insert_challenge-shape c db db' h = ground arith

-- The row of the challenge, once its device and digest are known.
abbrev pub challenge_row : String → ℕ → Option ℕ → ℕ → String → DeviceResetChallenge
challenge_row id device_id requested_by now digest = record {
  id = id;
  device_id = device_id;
  requested_by_user_id = requested_by;
  challenge_digest = digest;
  created_at = now;
  expires_at = now + challenge_lifetime;
  consumed_at = none;
}

-- What issuing a challenge tells.
pub record Issued (uid : String) (requested_by : Option ℕ) (now : ℕ) (id hex : String) (db : Db)
    (c : IssuedResetChallenge) (db' : Db) : Type 0 where
  pub device : Device
  pub digest : String
  pub device_found : find_device_by_uid uid db ≡ some device
  pub none_pending : first (pending_of device.id) db.transfers ≡ none
  pub none_active : first (active_challenge device.id now) db.challenges ≡ none
  pub answer : c ≡ record { id = id; challenge_hex = hex; expires_at = now + challenge_lifetime }
  pub rows : db' ≡ record db {
    challenges = challenge_row id device.id requested_by now digest ∷ db.challenges;
  }

pub issue_reset_challenge-Issued :
    (env : Externals) (enabled : Bool) (uid : String) (requested_by : Option ℕ) (now : ℕ)
    (id hex : String) (db db' : Db) (c : IssuedResetChallenge)
    → issue_reset_challenge env enabled uid requested_by now id hex db ≡ ok (c, db')
    → Issued uid requested_by now id hex db c db'
unfolding issue_reset_challenge
issue_reset_challenge-Issued env enabled uid requested_by now id hex db db' c h =
    let (_, e0, h0) = >>=-eq-ok (reject_if (not enabled) "ownership transfer is disabled") _ h in
    let (device, e1, h1) =
      >>=-eq-ok (or_reject (find_device_by_uid uid db) "device not registered") _ h0 in
    let (_, e2, h2) =
      >>=-eq-ok
        (reject_if (is_some (first (pending_of device.id) db.transfers)) "transfer already pending")
        _ h1 in
    let (_, e3, h3) =
      >>=-eq-ok
        (reject_if (is_some (first (active_challenge device.id now) db.challenges))
          "reset challenge already active")
        _ h2 in
    let (digest, e4, h4) = >>=-eq-ok (text_or_error (digest_of env hex)) _ h3 in
    let (db1, e5, h5) =
      >>=-eq-ok (insert_challenge (challenge_row id device.id requested_by now digest) db) _ h4 in
    let same : db1 ≡ db' = cc h5 in
    record {
      device = device;
      digest = digest;
      device_found = or_reject-ok _ "device not registered" e1;
      none_pending = ground (arith, e2);
      none_active = ground (arith, e3);
      answer = cc h5;
      rows =
          sym same
          ∙ insert_challenge-shape (challenge_row id device.id requested_by now digest) db db1 e5;
    }

pub issue_reset_challenge-keeps :
    (env : Externals) (enabled : Bool) (uid : String) (requested_by : Option ℕ) (now : ℕ)
    (id hex : String) (db db' : Db) (c : IssuedResetChallenge)
    → issue_reset_challenge env enabled uid requested_by now id hex db ≡ ok (c, db')
    → (db'.memberships ≡ db.memberships) × (db'.transfers ≡ db.transfers)
issue_reset_challenge-keeps env enabled uid requested_by now id hex db db' c h =
    let i = issue_reset_challenge-Issued env enabled uid requested_by now id hex db db' c h in
    (ap (λ d. d.memberships) i.rows, ap (λ d. d.transfers) i.rows)

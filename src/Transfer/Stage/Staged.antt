-- ===== src/Transfer/Stage/Staged.antt =====
-- app/device_transfer_store.py: the tests and the writes of a staging.
use smart_monitor_back_end.Base.{
  ℕ, suc, ◌+◌, ◌<◌, ◌≡◌, ◌≢◌, sym, ◌∙◌, ap, true, false, ◌&&◌, String, Option, eqb_iff, none, some,
  List, [], ◌∷◌, arith, first, update_where, ◌==◌, nat_eq, string_eq, All,
}
use smart_monitor_back_end.Base.Http.{ok, or_reject, >>=-eq-ok, or_reject-ok}
use smart_monitor_back_end.Database.{
  Db, Device, DeviceMembership, DeviceTransfer, DeviceResetChallenge, DeviceTransferNotice, User,
  find_user, find_device_by_uid, pending_of, owner_of, insert_transfer, insert_notice,
}
use smart_monitor_back_end.Transfer.Notice.{transfer_delay, pending_transfer_notice, notice_label}
use smart_monitor_back_end.Transfer.Stage.{
  Externals, StageRequest, last_generation, proof_valid, staged_transfer, consume, pending_notice,
  belongs_to_other, check_parties, check_challenge, write_staged, stage_body,
}

insert_transfer-shape :
    (t : DeviceTransfer) (db db' : Db)
    → insert_transfer t db ≡ ok db'
    → db' ≡ record db { transfers = t ∷ db.transfers; next_transfer_id = suc db.next_transfer_id }
unfolding insert_transfer
insert_transfer-shape t db db' h = ground arith

-- `db` with one more notice.
abbrev pub noticed : DeviceTransferNotice → Db → Db
noticed n db = record db { notices = n ∷ db.notices; next_notice_id = suc db.next_notice_id }

insert_notice-shape :
    (n : DeviceTransferNotice) (db db' : Db) → insert_notice n db ≡ ok db' → db' ≡ noticed n db
unfolding insert_notice
insert_notice-shape n db db' h = ground arith

-- The rows behind a staging, but for the notices.
abbrev pub staged : StageRequest → ℕ → Device → DeviceMembership → Db → Db
staged r now device owner db = record db {
  transfers = staged_transfer r now device owner db ∷ db.transfers;
  challenges = update_where (λ c. c.id == r.challenge_id) (consume now) db.challenges;
  next_transfer_id = suc db.next_transfer_id;
}

write_staged-shape :
    (env : Externals) (r : StageRequest) (now : ℕ) (device : Device) (owner : DeviceMembership)
    (db db' : Db) (t : DeviceTransfer)
    → write_staged env r now device owner db ≡ ok (t, db')
    → (t ≡ staged_transfer r now device owner db)
      × (body : String) × (pending_transfer_notice env.paris
            (notice_label device.name device.device_uid)
            (now + transfer_delay)
          ≡ ok body)
      × (db'
          ≡ noticed (pending_notice t.id owner.user_id now body db) (staged r now device owner db))
unfolding write_staged
write_staged-shape env r now device owner db db' t h =
    let (db1, e1, h1) =
      >>=-eq-ok
        (insert_transfer (staged_transfer r now device owner db) (record db {
          challenges = update_where (λ c. c.id == r.challenge_id) (consume now) db.challenges;
        }))
        _ h in
    let (body, e2, h2) =
      >>=-eq-ok
        (pending_transfer_notice env.paris (notice_label device.name device.device_uid)
          (now + transfer_delay))
        _ h1 in
    let (db2, e3, h3) =
      >>=-eq-ok (insert_notice (pending_notice db.next_transfer_id owner.user_id now body db1) db1)
        _ h2 in
    let same : db2 ≡ db' = cc h3 in
    let row : t ≡ staged_transfer r now device owner db = cc h3 in
    (
      row,
      body,
      e2,
      sym same
          ∙ insert_notice-shape (pending_notice db.next_transfer_id owner.user_id now body db1) db1
              db2 e3
          ∙ ap (λ x. noticed (pending_notice db.next_transfer_id owner.user_id now body x) x)
              (insert_transfer-shape _ _ db1 e1)
          ∙ ap
              (λ (x : DeviceTransfer).
                noticed (pending_notice x.id owner.user_id now body db)
                  (staged r now device owner db))
              (sym row),
    )

last_generation-bound :
    (device_id : ℕ) (ts : List DeviceTransfer) (g : ℕ)
    → last_generation device_id ts < g
    → All (λ t. t.device_id ≡ device_id → t.reset_generation < g) ts
unfolding last_generation
last_generation-bound device_id [] g h = tt
last_generation-bound device_id (t ∷ ts) g h =
    ((λ same. ground arith), last_generation-bound device_id ts g (ground arith))

-- What a successful staging tells of the request `r`, the row `t` and the two databases.
pub record Staged (env : Externals) (r : StageRequest) (now : ℕ) (db : Db) (t : DeviceTransfer)
    (db' : Db) : Type 0 where
  pub device : Device
  pub owner : DeviceMembership
  pub next_owner : User
  pub challenge : DeviceResetChallenge
  pub device_found : find_device_by_uid r.device_uid db ≡ some device
  pub owner_found : first (owner_of device.id) db.memberships ≡ some owner
  pub next_owner_found : find_user r.next_owner_user_id db ≡ some next_owner
  pub challenge_found :
      first (λ c. c.id == r.challenge_id && c.device_id == device.id) db.challenges ≡ some challenge
  pub other_account : owner.user_id ≢ r.next_owner_user_id
  pub active : next_owner.is_active ≡ true
  pub verified : next_owner.email_verified ≡ true
  pub none_pending : first (pending_of device.id) db.transfers ≡ none
  pub newer :
      All
        (λ old. old.device_id ≡ device.id → old.reset_generation < r.reset_generation)
        db.transfers
  pub unused : challenge.consumed_at ≡ none
  pub not_expired : now < challenge.expires_at
  pub proved : proof_valid env challenge r ≡ true
  pub own_challenge :
      (id : ℕ) → challenge.requested_by_user_id ≡ some id → id ≡ r.next_owner_user_id
  pub row : t ≡ staged_transfer r now device owner db
  pub body : String
  pub wording :
      pending_transfer_notice env.paris
        (notice_label device.name device.device_uid)
        (now + transfer_delay)
      ≡ ok body
  pub rows :
      db' ≡ noticed (pending_notice t.id owner.user_id now body db) (staged r now device owner db)

check_parties-ok :
    (r : StageRequest) (device : Device) (owner : DeviceMembership) (next_owner : User) (db : Db)
    → check_parties r device owner next_owner db ≡ ok tt
    → (owner.user_id ≢ r.next_owner_user_id)
      × (next_owner.is_active ≡ true)
      × (next_owner.email_verified ≡ true)
      × (first (pending_of device.id) db.transfers ≡ none)
      × (last_generation device.id db.transfers < r.reset_generation)
unfolding check_parties
check_parties-ok r device owner next_owner db h = ground arith

check_challenge-ok :
    (env : Externals) (r : StageRequest) (now : ℕ) (c : DeviceResetChallenge)
    → check_challenge env r now c ≡ ok tt
    → (c.consumed_at ≡ none)
      × (now < c.expires_at)
      × (belongs_to_other c.requested_by_user_id r.next_owner_user_id ≡ false)
      × (proof_valid env c r ≡ true)
unfolding check_challenge
check_challenge-ok env r now c h = ground arith

belongs-own :
    (o : Option ℕ) (user_id id : ℕ)
    → belongs_to_other o user_id ≡ false
    → o ≡ some id
    → id ≡ user_id
belongs-own none user_id id h e = cc
belongs-own (some x) user_id id h e = ground (arith, h, e, eqb_iff x user_id)

pub stage_body-Staged :
    (env : Externals) (r : StageRequest) (now : ℕ) (db db' : Db) (t : DeviceTransfer)
    → stage_body env r now db ≡ ok (t, db')
    → Staged env r now db t db'
unfolding stage_body
stage_body-Staged env r now db db' t h =
    let (device, e1, h1) =
      >>=-eq-ok (or_reject (find_device_by_uid r.device_uid db) "device not registered") _ h in
    let (owner, e2, h2) =
      >>=-eq-ok (or_reject (first (owner_of device.id) db.memberships) "owner account missing") _
        h1 in
    let (next_owner, e3, h3) =
      >>=-eq-ok (or_reject (find_user r.next_owner_user_id db) "owner account missing") _ h2 in
    let (_, e4, h4) = >>=-eq-ok (check_parties r device owner next_owner db) _ h3 in
    let (challenge, e5, h5) =
      >>=-eq-ok
        (or_reject (first (λ c. c.id == r.challenge_id && c.device_id == device.id) db.challenges)
          "reset challenge expired or used")
        _ h4 in
    let (_, e6, h6) = >>=-eq-ok (check_challenge env r now challenge) _ h5 in
    let (p1, p2, p3, p4, p5) = check_parties-ok r device owner next_owner db e4 in
    let (c1, c2, c3, c4) = check_challenge-ok env r now challenge e6 in
    let (row, body, wording, rows) = write_staged-shape env r now device owner db db' t h6 in
    record {
      device = device;
      owner = owner;
      next_owner = next_owner;
      challenge = challenge;
      device_found = or_reject-ok _ "device not registered" e1;
      owner_found = or_reject-ok _ "owner account missing" e2;
      next_owner_found = or_reject-ok _ "owner account missing" e3;
      challenge_found = or_reject-ok _ "reset challenge expired or used" e5;
      other_account = p1;
      active = p2;
      verified = p3;
      none_pending = p4;
      newer = last_generation-bound device.id db.transfers r.reset_generation p5;
      unused = c1;
      not_expired = c2;
      proved = c4;
      own_challenge =
          λ id e. belongs-own challenge.requested_by_user_id r.next_owner_user_id id c3 e;
      row = row;
      body = body;
      wording = wording;
      rows = rows;
    }

-- ===== src/Transfer/Inbox.antt =====
-- app/device_transfer_inbox.py: a user marks a notice of theirs as read. `id` is the primary key, so
-- the update of the returned row is the update of the rows that the query selects.
mod Tests
use smart_monitor_back_end.Base.{
  ◌≢◌, subst, ℕ, ◌≡◌, refl, ap, sym, ◌∙◌, Bool, true, false, ◌&&◌, Option, none, some, List, arith,
  keep, first, update_where, ◌⊎◌, if◌then◌else◌, ◌==◌, nat_eq, Bool-cases, inl, inr, eqb_iff, eqb,
}
use smart_monitor_back_end.Base.Rows.{first-update_where, keep-update_where_disjoint, first-holds}
use smart_monitor_back_end.Database.{Db, DeviceTransferNotice}

abbrev pub selects : ℕ → ℕ → DeviceTransferNotice → Bool
selects user_id notice_id n = n.id == notice_id && n.user_id == user_id

abbrev pub read_row : ℕ → DeviceTransferNotice → DeviceTransferNotice
read_row now n = record n { read_at = some now }

-- `if notice.read_at is None`, on the time that the row was read at
abbrev pub mark_row :
    ℕ → ℕ → ℕ → Db → DeviceTransferNotice → Option ℕ → Option DeviceTransferNotice × Db
mark_row user_id notice_id now db notice (some t) = (some notice, db)
mark_row user_id notice_id now db notice none = (
  some (read_row now notice),
  record db { notices = update_where (selects user_id notice_id) (read_row now) db.notices },
)

abbrev pub mark_found :
    ℕ → ℕ → ℕ → Db → Option DeviceTransferNotice → Option DeviceTransferNotice × Db
mark_found user_id notice_id now db none = (none, db)
mark_found user_id notice_id now db (some notice) =
    mark_row user_id notice_id now db notice notice.read_at

unfoldable pub mark_notice_read : ℕ → ℕ → ℕ → Db → Option DeviceTransferNotice × Db
mark_notice_read user_id notice_id now db =
    mark_found user_id notice_id now db (first (selects user_id notice_id) db.notices)

-- The notices of one account.
abbrev pub notices_of : ℕ → Db → List DeviceTransferNotice
notices_of user_id db = keep (λ n. n.user_id == user_id) db.notices

untouched :
    (user_id notice_id now other : ℕ) (notices : List DeviceTransferNotice)
    → (other == user_id) ≡ false
    → keep
        (λ n. n.user_id == other)
        (update_where (selects user_id notice_id) (read_row now) notices)
      ≡ keep (λ n. n.user_id == other) notices
untouched user_id notice_id now other notices h =
    keep-update_where_disjoint (λ n. n.user_id == other) (selects user_id notice_id) (read_row now)
      notices (λ n s. ground (arith, h, s)) (λ n s. ground (arith, h, s))

-- What a marking leaves: the notices of others, and a query that finds the row, read.
marked :
    (user_id notice_id now other : ℕ) (db : Db) (notice : DeviceTransferNotice) (read_at : Option ℕ)
    → (other == user_id) ≡ false
    → notice.read_at ≡ read_at
    → first (selects user_id notice_id) db.notices ≡ some notice
    → (n : DeviceTransferNotice) × (t : ℕ) × ((mark_row user_id notice_id now db notice read_at).0
        ≡ some n)
      × (n.read_at ≡ some t)
      × (selects user_id notice_id n ≡ true)
      × (first
            (selects user_id notice_id)
            (mark_row user_id notice_id now db notice read_at).1.notices
          ≡ some n)
      × (notices_of other (mark_row user_id notice_id now db notice read_at).1
          ≡ notices_of other db)
marked user_id notice_id now other db notice (some t) h r f =
    (notice, t, refl, r, first-holds (selects user_id notice_id) db.notices notice f, f, refl)
marked user_id notice_id now other db notice none h r f =
    let own : selects user_id notice_id notice ≡ true =
      first-holds (selects user_id notice_id) db.notices notice f in
    (
      read_row now notice,
      now,
      refl,
      refl,
      own,
      first-update_where (selects user_id notice_id) (selects user_id notice_id) (read_row now)
            db.notices notice (λ n. refl) f
          ∙ rw own refl,
      untouched user_id notice_id now other db.notices h,
    )

-- What a marking with this result promises of a second one, at the time `later`.
abbrev pub Marked : ℕ → ℕ → ℕ → Db → Db → Option DeviceTransferNotice → Type 0
Marked user_id notice_id later db db' none = db' ≡ db
Marked user_id notice_id later db db' (some n) =
    (n.user_id ≡ user_id)
    × (n.id ≡ notice_id)
    × (n.read_at ≢ none)
    × (mark_notice_read user_id notice_id later db' ≡ (some n, db'))

again :
    (user_id notice_id later : ℕ) (db' : Db) (n : DeviceTransferNotice) (t : ℕ)
    → n.read_at ≡ some t
    → first (selects user_id notice_id) db'.notices ≡ some n
    → mark_notice_read user_id notice_id later db' ≡ (some n, db')
unfolding mark_notice_read
again user_id notice_id later db' n t r f = rw (f, r) refl

found-Marked :
    (user_id notice_id now later other : ℕ) (db : Db) (found : Option DeviceTransferNotice)
    → (other == user_id) ≡ false
    → first (selects user_id notice_id) db.notices ≡ found
    → (notices_of other (mark_found user_id notice_id now db found).1 ≡ notices_of other db)
      × Marked user_id notice_id later db
          (mark_found user_id notice_id now db found).1
          (mark_found user_id notice_id now db found).0
found-Marked user_id notice_id now later other db none h f = (refl, refl)
found-Marked user_id notice_id now later other db (some notice) h f =
    let (n, t, returned, r, own, found, others) =
      marked user_id notice_id now other db notice notice.read_at h refl f in
    (
      others,
      subst
          (Marked user_id notice_id later db (mark_found user_id notice_id now db (some notice)).1)
          (sym returned)
          (
            ground (arith, own),
            ground (arith, own),
            λ unread. cc,
            again user_id notice_id later (mark_found user_id notice_id now db (some notice)).1 n t
                r found,
          ),
    )

-- Marking a notice read leaves the notices of every other account as they are. If it returns a row,
-- that is the user's notice of the given id with a reading time, and marking it again at any time
-- returns the same row and leaves the database as it is; if it returns none, for an unknown id
-- or for a notice of another account, the database is as it was.
pub mark_notice_read-Marked :
    (user_id notice_id now later other : ℕ) (db db' : Db) (result : Option DeviceTransferNotice)
    → (other == user_id) ≡ false
    → mark_notice_read user_id notice_id now db ≡ (result, db')
    → (notices_of other db' ≡ notices_of other db) × Marked user_id notice_id later db db' result
unfolding mark_notice_read
mark_notice_read-Marked user_id notice_id now later other db db' result h e =
    subst
      (λ r.
        (notices_of other r.1 ≡ notices_of other db) × Marked user_id notice_id later db r.1 r.0)
      e
      (found-Marked user_id notice_id now later other db
        (first (selects user_id notice_id) db.notices) h refl)

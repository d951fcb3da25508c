-- ===== src/Devices/Members/Limit.antt =====
-- app/devices.py: who may change the members of a device, and how many there are.
use smart_monitor_back_end.Base.{
  ℕ, suc, ◌≡◌, ◌≤◌, ◌⊎◌, inl, inr, refl, ap, subst, String, Bool, true, false, not, Bool-cases,
  Option, none, some, List, [], ◌∷◌, arith, any, first, keep, leb, length, is_some, ◌==◌, nat_eq,
  string_eq, eqb_iff, eq_iff,
}
use smart_monitor_back_end.Base.Rows.{length-keep-keep}
use smart_monitor_back_end.Base.Http.{
  Error, Result, ok, err, http_exception, raise_if, >>=-eq-ok, ok_injective,
}
use smart_monitor_back_end.Base.Text.{lower}
use smart_monitor_back_end.Database.{
  Db, Device, DeviceMembership, owner_of, find_device, insert_membership, membership_conflict,
  transact,
}
use smart_monitor_back_end.Authorization.{manage_members, require_device_action}
use smart_monitor_back_end.Devices.{membership_of}
use smart_monitor_back_end.Devices.Claimed.{OneOwner}
use smart_monitor_back_end.Devices.Members.{
  device_member_limit, or_404, require_owner, member_of, DeviceMemberPublic, available,
  add_member_body, add_device_member, removed, remove_member_body, remove_device_member,
}

-- The account has an owner's row for the device.
abbrev pub IsOwner : ℕ → ℕ → Db → Type 0
IsOwner device_id user_id db =
    (m : DeviceMembership) × (first (membership_of device_id user_id) db.memberships ≡ some m)
    × (m.role ≡ "owner")

require_device_action-owner :
    (role : String) {t : Unit {0}}
    → require_device_action role manage_members ≡ ok t
    → role ≡ "owner"
unfolding require_device_action
require_device_action-owner role h = ground (arith, h, eq_iff role "owner")

or_404-ok {ℓ} :
    {A : Type ℓ} (o : Option A) (detail : String) {a : A} → or_404 o detail ≡ ok a → o ≡ some a
or_404-ok none detail h = cc
or_404-ok (some b) detail h = cc

require_owner-IsOwner :
    (enabled : Bool) (d u : ℕ) (db : Db) (device : Device)
    → require_owner enabled d u db ≡ ok device
    → IsOwner d u db
unfolding require_owner
require_owner-IsOwner enabled d u db device h =
    let (_, _, h1) = >>=-eq-ok (or_404 (find_device d db) "Device not found") _ h in
    let (m, e2, h2) =
      >>=-eq-ok (or_404 (first (membership_of d u) db.memberships) "Device not found") _ h1 in
    let (_, e3, h3) = >>=-eq-ok (require_device_action m.role manage_members) _ h2 in
    (
      m,
      or_404-ok (first (membership_of d u) db.memberships) _ e2,
      require_device_action-owner m.role e3,
    )

-- At most ten members, one row per account and one owner, of each device.
pub record Bounded (memberships : List DeviceMembership) : Type 0 where
  pub rows : OneOwner memberships
  pub limit : (k : ℕ) → length (keep (member_of k) memberships) ≤ device_member_limit

abbrev member_row : ℕ → ℕ → DeviceMembership
member_row d u = record { user_id = u; device_id = d; role = "member" }

module _ (d u : ℕ) where
  no_row :
      (k w : ℕ) (ms : List DeviceMembership)
      → membership_of k w (member_row d u) ≡ true
      → any (membership_conflict (member_row d u)) ms ≡ false
      → length (keep (membership_of k w) ms) ≡ 0
  no_row k w [] e h = refl
  no_row k w (m ∷ ms) e h = ground (arith, e, h, no_row k w ms)

  added-Bounded :
      (ms : List DeviceMembership)
      → any (membership_conflict (member_row d u)) ms ≡ false
      → leb device_member_limit (length (keep (member_of d) ms)) ≡ false
      → Bounded ms
      → Bounded (member_row d u ∷ ms)
  added-Bounded ms h room v = record {
    rows = record {
      one_row = λ k w. elim (Bool-cases (membership_of k w (member_row d u))) [
        | inl e ↦ rw e (omega (arith, no_row k w ms e h))
        | inr e ↦ rw e (v.rows.one_row k w)
      ];
      one_owner = λ k. elim (Bool-cases (owner_of k (member_row d u))) [
        | inl e ↦ absurd (ground (arith, e))
        | inr e ↦ rw e (v.rows.one_owner k)
      ];
    };
    limit = λ k. elim (Bool-cases (d == k)) [
      | inl e ↦ rw e (
          subst (λ i. suc (length (keep (member_of i) ms)) ≤ device_member_limit)
            ((eqb_iff d k).0 e) (ground (arith, room)))
      | inr e ↦ rw e (v.limit k)
    ];
  }

kept-Bounded :
    (p : DeviceMembership → Bool) (ms : List DeviceMembership) → Bounded ms → Bounded (keep p ms)
kept-Bounded p ms v = record {
  rows = record {
    one_row = λ k w. omega (arith, v.rows.one_row k w, length-keep-keep (membership_of k w) p ms);
    one_owner = λ k. omega (arith, v.rows.one_owner k, length-keep-keep (owner_of k) p ms);
  };
  limit = λ k. omega (arith, v.limit k, length-keep-keep (member_of k) p ms);
}

-- What a change of the members may do: nothing, or, asked by the owner of the device, what keeps the
-- bounds and no row of another device.
abbrev pub Allowed : ℕ → ℕ → Db → Db → Type 0
Allowed device_id user_id db db' =
    (db' ≡ db)
    ⊎ (IsOwner device_id user_id db
        × (Bounded db.memberships → Bounded db'.memberships)
        × ((k : ℕ)
            → (k == device_id) ≡ false
            → keep (λ m. m.device_id == k) db'.memberships
              ≡ keep (λ m. m.device_id == k) db.memberships))

added_elsewhere :
    (d u k : ℕ) (ms : List DeviceMembership)
    → (k == d) ≡ false
    → keep (λ m. m.device_id == k) (member_row d u ∷ ms) ≡ keep (λ m. m.device_id == k) ms
added_elsewhere d u k ms h = ground (arith, h)

removed_elsewhere :
    (d u k : ℕ) (ms : List DeviceMembership)
    → (k == d) ≡ false
    → keep (λ m. m.device_id == k) (keep (λ m. not (removed d u m)) ms)
      ≡ keep (λ m. m.device_id == k) ms
removed_elsewhere d u k [] h = refl
removed_elsewhere d u k (m ∷ ms) h = ground (arith, h, removed_elsewhere d u k ms)

add_member_body-Allowed :
    (enabled : Bool) (d : ℕ) (email : String) (u : ℕ) (db db' : Db) (m : DeviceMemberPublic)
    → add_member_body enabled d email u db ≡ ok (m, db')
    → Allowed d u db db'
unfolding add_member_body
add_member_body-Allowed enabled d email u db db' m h =
    let (device, e1, h1) = >>=-eq-ok (require_owner enabled d u db) _ h in
    let (member, _, h2) =
      >>=-eq-ok (available (first (λ u'. u'.email == lower email) db.users)) _ h1 in
    let (_, _, h3) =
      >>=-eq-ok
        (raise_if (is_some (first (membership_of d member.id) db.memberships))
          (http_exception 409 "User already has access"))
        _ h2 in
    let (_, e4, h4) =
      >>=-eq-ok
        (raise_if (leb device_member_limit (length (keep (member_of d) db.memberships)))
          (http_exception 409 "Member limit reached"))
        _ h3 in
    let (db2, e5, h5) = >>=-eq-ok (insert_membership (member_row d member.id) db) _ h4 in
    let same : db2 ≡ db' = ap (λ (r : DeviceMemberPublic × Db). r.1) (ok_injective _ (m, db') h5) in
    subst (Allowed d u db) same (
      inserted member.id (require_owner-IsOwner enabled d u db device e1)
        (raised (leb device_member_limit (length (keep (member_of d) db.memberships)))
          (http_exception 409 "Member limit reached") e4)
        db2 e5)
  where
    raised : (b : Bool) (e : Error) {t : Unit {0}} → raise_if b e ≡ ok t → b ≡ false
    raised true e k = cc
    raised false e k = refl

    inserted :
        (w : ℕ)
        → IsOwner d u db
        → leb device_member_limit (length (keep (member_of d) db.memberships)) ≡ false
        → (db2 : Db) → insert_membership (member_row d w) db ≡ ok db2
        → Allowed d u db db2
    inserted w owner room db2 k =
        elim (Bool-cases (any (membership_conflict (member_row d w)) db.memberships)) [
          | inl taken ↦ absurd (ground (arith, taken, k))
          | inr free ↦ subst (Allowed d u db) (ok_injective _ db2 (rw free at k)) (
              inr (
                owner,
                (λ v. added-Bounded d w db.memberships free room v),
                (λ i e. added_elsewhere d w i db.memberships e),
              ))
        ]

remove_member_body-Allowed :
    (enabled : Bool) (d w u : ℕ) (db db' : Db) {t : Unit {0}}
    → remove_member_body enabled d w u db ≡ ok (t, db')
    → Allowed d u db db'
unfolding remove_member_body
remove_member_body-Allowed enabled d w u db db' {t} h =
    let (device, e1, h1) = >>=-eq-ok (require_owner enabled d u db) _ h in
    let (_, _, h2) =
      >>=-eq-ok (or_404 (first (removed d w) db.memberships) "Member not found") _ h1 in
    subst (Allowed d u db) (ap (λ (r : Unit {0} × Db). r.1) (ok_injective _ (t, db') h2)) (
      inr (
        require_owner-IsOwner enabled d u db device e1,
        (λ v. kept-Bounded (λ m. not (removed d w m)) db.memberships v),
        (λ i e. removed_elsewhere d w i db.memberships e),
      ))

-- The two requests, with the device, the address or the account of the member, and the current user.
pub data Request : Type 0 where
  adds : ℕ → String → ℕ → Request
  removes : ℕ → ℕ → ℕ → Request

abbrev pub device_of : Request → ℕ
device_of (adds d email u) = d
device_of (removes d w u) = d

abbrev pub user_of : Request → ℕ
user_of (adds d email u) = u
user_of (removes d w u) = u

unfoldable pub handle : Bool → Request → Db → Db
handle enabled (adds d email u) db = (add_device_member enabled d email u db).1
handle enabled (removes d w u) db = (remove_device_member enabled d w u db).1

-- A request to add or remove a member leaves the database as it was, or the current user is the
-- owner of the device and the memberships of all other devices stay; if no device had more than ten
-- members, two owners or two rows of an account before, none has after.
pub handle-Allowed :
    (enabled : Bool) (r : Request) (db db' : Db)
    → handle enabled r db ≡ db'
    → Allowed (device_of r) (user_of r) db db'
unfolding handle add_device_member remove_device_member
handle-Allowed enabled (adds d email u) db db' h =
    subst (Allowed d u db) h (go (add_member_body enabled d email u db) refl)
  where
    go :
        (r : Result (DeviceMemberPublic × Db))
        → add_member_body enabled d email u db ≡ r
        → Allowed d u db (transact db r).1
    go (err e) k = inl refl
    go (ok (m, db2)) k = add_member_body-Allowed enabled d email u db db2 m k
handle-Allowed enabled (removes d w u) db db' h =
    subst (Allowed d u db) h (go (remove_member_body enabled d w u db) refl)
  where
    go :
        (r : Result (Unit {0} × Db))
        → remove_member_body enabled d w u db ≡ r
        → Allowed d u db (transact db r).1
    go (err e) k = inl refl
    go (ok (t, db2)) k = remove_member_body-Allowed enabled d w u db db2 k

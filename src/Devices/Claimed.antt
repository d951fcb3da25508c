-- ===== src/Devices/Claimed.antt =====
-- app/devices.py: what a claim that succeeds leaves, and the memberships after any claim.
use smart_monitor_back_end.Base.{
  ℕ, ◌≡◌, ◌≤◌, inl, inr, refl, subst, Bool, true, false, not, Bool-cases, Option, none, some, List,
  [], ◌∷◌, arith, any, first, keep, length, update_where, ◌==◌, nat_eq, string_eq, option_eq,
  eqb_iff,
}
use smart_monitor_back_end.Base.Http.{ok, ok_injective}
use smart_monitor_back_end.Database.{
  Db, DeviceMembership, owner_of, insert_membership, membership_conflict,
}
use smart_monitor_back_end.Devices.{check_owner, membership_of, make_owner, other_owner, promote}

-- The primary key of the memberships, and the index "one owner per device".
pub record OneOwner (memberships : List DeviceMembership) : Type 0 where
  pub one_row : (k u : ℕ) → length (keep (membership_of k u) memberships) ≤ 1
  pub one_owner : (k : ℕ) → length (keep (owner_of k) memberships) ≤ 1

abbrev others : ℕ → ℕ → List DeviceMembership → List DeviceMembership
others k u ms = keep (λ m. not (membership_of k u m)) ms

-- What the association makes of the memberships: the account is the owner of the device, and no
-- other membership changes.
pub record Owns (device_id user_id : ℕ) (before after : List DeviceMembership) : Type 0 where
  pub owner :
      (m : DeviceMembership) × (first (owner_of device_id) after ≡ some m) × (m.user_id ≡ user_id)
  pub elsewhere : others device_id user_id after ≡ others device_id user_id before
  pub sound : OneOwner before → OneOwner after

abbrev new_owner : ℕ → ℕ → DeviceMembership
new_owner device_id user_id = record { user_id = user_id; device_id = device_id; role = "owner" }

module _ (d u : ℕ) where
  no_owner_of :
      (ms : List DeviceMembership)
      → any (membership_conflict (new_owner d u)) ms ≡ false
      → length (keep (owner_of d) ms) ≡ 0
  no_owner_of [] h = refl
  no_owner_of (m ∷ ms) h = ground (arith, h, no_owner_of ms)

  no_row_of :
      (k w : ℕ) (ms : List DeviceMembership)
      → membership_of k w (new_owner d u) ≡ true
      → any (membership_conflict (new_owner d u)) ms ≡ false
      → length (keep (membership_of k w) ms) ≡ 0
  no_row_of k w [] e h = refl
  no_row_of k w (m ∷ ms) e h = ground (arith, e, h, no_row_of k w ms)

  inserted-OneOwner :
      (ms : List DeviceMembership)
      → any (membership_conflict (new_owner d u)) ms ≡ false
      → OneOwner ms
      → OneOwner (new_owner d u ∷ ms)
  inserted-OneOwner ms h v = record {
    one_row = λ k w. elim (Bool-cases (membership_of k w (new_owner d u))) [
      | inl e ↦ rw e (omega (arith, no_row_of k w ms e h))
      | inr e ↦ rw e (v.one_row k w)
    ];
    one_owner = λ k. elim (Bool-cases (d == k)) [
      | inl e ↦ rw e (
          omega (
            arith,
            subst (λ i. length (keep (owner_of i) ms) ≡ 0) ((eqb_iff d k).0 e) (no_owner_of ms h),
          ))
      | inr e ↦ rw e (v.one_owner k)
    ];
  }

  -- The row of the account is promoted.
  abbrev promoted : List DeviceMembership → List DeviceMembership
  promoted ms = update_where (membership_of d u) make_owner ms

  promoted-row :
      (k w : ℕ) (ms : List DeviceMembership)
      → length (keep (membership_of k w) (promoted ms)) ≡ length (keep (membership_of k w) ms)
  promoted-row k w [] = refl
  promoted-row k w (m ∷ ms) = ground (arith, promoted-row k w ms)

  promoted-other_owner :
      (k : ℕ) (ms : List DeviceMembership)
      → (d == k) ≡ false
      → length (keep (owner_of k) (promoted ms)) ≡ length (keep (owner_of k) ms)
  promoted-other_owner k [] h = refl
  promoted-other_owner k (m ∷ ms) h = ground (arith, h, promoted-other_owner k ms)

  promoted-owner :
      (ms : List DeviceMembership)
      → any (other_owner d u) ms ≡ false
      → length (keep (owner_of d) (promoted ms)) ≤ length (keep (membership_of d u) ms)
  promoted-owner [] h = omega arith
  promoted-owner (m ∷ ms) h = ground (arith, h, promoted-owner ms)

  promoted-first :
      (ms : List DeviceMembership) (x : DeviceMembership)
      → any (other_owner d u) ms ≡ false
      → first (membership_of d u) ms ≡ some x
      → (m : DeviceMembership) × (first (owner_of d) (promoted ms) ≡ some m) × (m.user_id ≡ u)
  promoted-first [] x h f = cc
  promoted-first (m ∷ ms) x h f = elim (Bool-cases (membership_of d u m)) [
    | inl e ↦ rw e (make_owner m, ground (arith, e), ground (arith, e))
    | inr e ↦
        let (o, found, same) = promoted-first ms x (ground (arith, h)) (ground (arith, e, f)) in
        (o, ground (arith, e, h, found), same)
  ]

  promoted-others : (ms : List DeviceMembership) → others d u (promoted ms) ≡ others d u ms
  promoted-others [] = refl
  promoted-others (m ∷ ms) = ground (arith, promoted-others ms)

  others_of_new : (ms : List DeviceMembership) → others d u (new_owner d u ∷ ms) ≡ others d u ms
  others_of_new ms = ground (arith, eqb_iff d d, eqb_iff u u)

  first_of_new :
      (ms : List DeviceMembership) → first (owner_of d) (new_owner d u ∷ ms) ≡ some (new_owner d u)
  first_of_new ms = ground (arith, eqb_iff d d)

  promoted-OneOwner :
      (ms : List DeviceMembership)
      → any (other_owner d u) ms ≡ false
      → OneOwner ms
      → OneOwner (promoted ms)
  promoted-OneOwner ms h v = record {
    one_row = λ k w. omega (arith, promoted-row k w ms, v.one_row k w);
    one_owner = λ k. elim (Bool-cases (d == k)) [
      | inl e ↦
          subst (λ i. length (keep (owner_of i) (promoted ms)) ≤ 1) ((eqb_iff d k).0 e)
            (omega (arith, promoted-owner ms h, v.one_row d u))
      | inr e ↦ omega (arith, promoted-other_owner k ms e, v.one_owner k)
    ];
  }

  -- The first owner of the device is the account, or there is none.
  abbrev pub MayOwn : Option DeviceMembership → Type 0
  MayOwn none = Unit {0}
  MayOwn (some m) = m.user_id ≡ u

  pub check_owner-MayOwn :
      (enabled : Bool) (o : Option DeviceMembership) (db : Db) {t : Unit {0}}
      → check_owner enabled d u o db ≡ ok t
      → MayOwn o
  unfolding check_owner
  check_owner-MayOwn enabled none db h = tt
  check_owner-MayOwn enabled (some m) db h = elim (Bool-cases (m.user_id == u)) [
    | inl e ↦ (eqb_iff m.user_id u).0 e
    | inr e ↦ absurd (ground (arith, e, h))
  ]

  owner_stays :
      (ms : List DeviceMembership) (x : DeviceMembership)
      → first (membership_of d u) ms ≡ some x
      → (x.role == "owner") ≡ true
      → (o : Option DeviceMembership) → first (owner_of d) ms ≡ o
      → MayOwn o
      → (m : DeviceMembership) × (first (owner_of d) ms ≡ some m) × (m.user_id ≡ u)
  owner_stays ms x f r (some m) e own = (m, e, own)
  owner_stays ms x f r none e own = absurd (nobody ms f e)
    where
      nobody :
          (ms : List DeviceMembership)
          → first (membership_of d u) ms ≡ some x
          → first (owner_of d) ms ≡ none
          → ⊥
      nobody [] f e = absurd (ground (arith, f))
      nobody (m ∷ ms) f e = ground (arith, f, e, r, nobody ms)

-- A promotion that succeeds makes the account the owner, if nobody else may be.
pub promote-Owns :
    (d u : ℕ) (o : Option DeviceMembership) (db db' : Db)
    → MayOwn d u (first (owner_of d) db.memberships)
    → first (membership_of d u) db.memberships ≡ o
    → promote d u o db ≡ ok db'
    → Owns d u db.memberships db'.memberships × (db' ≡ record db { memberships = db'.memberships })
unfolding promote insert_membership
promote-Owns d u none db db' may f h =
    elim (Bool-cases (any (membership_conflict (new_owner d u)) db.memberships)) [
      | inl taken ↦ absurd (ground (arith, taken, h))
      | inr free ↦
          subst
            (λ (x : Db).
              Owns d u db.memberships x.memberships
              × (x ≡ record db { memberships = x.memberships }))
            (ok_injective _ db' (rw free at h))
            (
              record {
                owner = (new_owner d u, first_of_new d u db.memberships, refl);
                elsewhere = others_of_new d u db.memberships;
                sound = inserted-OneOwner d u db.memberships free;
              },
              refl,
            )
    ]
promote-Owns d u (some x) db db' may f h = elim (Bool-cases (x.role == "owner")) [
  | inl owner ↦
      subst
        (λ (y : Db).
          Owns d u db.memberships y.memberships × (y ≡ record db { memberships = y.memberships }))
        (ok_injective db db' (rw owner at h))
        (
          record {
            owner =
                owner_stays d u db.memberships x f owner (first (owner_of d) db.memberships) refl
                  may;
            elsewhere = refl;
            sound = λ v. v;
          },
          refl,
        )
  | inr member ↦ elim (Bool-cases (any (other_owner d u) db.memberships)) [
    | inl taken ↦ absurd (ground (arith, member, taken, h))
    | inr free ↦
        subst
          (λ (y : Db).
            Owns d u db.memberships y.memberships × (y ≡ record db { memberships = y.memberships }))
          (ok_injective _ db' (rw (member, free) at h))
          (
            record {
              owner = promoted-first d u db.memberships x free f;
              elsewhere = promoted-others d u db.memberships;
              sound = promoted-OneOwner d u db.memberships free;
            },
            refl,
          )
  ]
]

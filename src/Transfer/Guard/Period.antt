-- ===== src/Transfer/Guard/Period.antt =====
-- app/device_transfer_guard.py: the readable history of a device.
use smart_monitor_back_end.Base.{
  ℕ, ◌≤◌, ◌<◌, ◌≡◌, refl, sym, ◌∙◌, ap, subst, true, String, Option, none, some, List, arith,
  Option-cases, inl, inr, eq_iff, max, nat_eq, string_eq,
}
use smart_monitor_back_end.Base.Http.{ok, >>=-eq-ok}
use smart_monitor_back_end.Database.{Db, DeviceTransfer}
use smart_monitor_back_end.Transfer.Guard.{
  latest_of, pending_transfer, latest_completed_transfer, epoch_start, epoch_end, bounded_period,
  bounded_history_period,
}
use smart_monitor_back_end.Transfer.Guard.Latest.{
  AllEffectiveBy, AllEffectiveBy-mono, latest_of-bound, latest_of-none,
}

-- `end` is no later than the request of a pending transfer
abbrev pub BeforeRequest : ℕ → Option DeviceTransfer → Type 0
BeforeRequest end none = Unit
BeforeRequest end (some t) = end ≤ t.requested_at

-- The account reads as the owner who holds the latest epoch.
abbrev pub HoldsEpoch : ℕ → String → Option DeviceTransfer → Type 0
HoldsEpoch user_id role none = Unit
HoldsEpoch user_id role (some t) = (role ≡ "owner") × (t.next_owner_user_id ≡ user_id)

epoch_start-some :
    (user_id : ℕ) (role : String) (from start : ℕ) (t : DeviceTransfer)
    → epoch_start user_id role from (some t) ≡ ok start
    → (at : ℕ) × (t.effective_at ≡ some at)
      × (start ≡ max from at)
      × (role ≡ "owner")
      × (t.next_owner_user_id ≡ user_id)
unfolding epoch_start
epoch_start-some user_id role from start t h = elim (Option-cases t.effective_at) [
  | inl e ↦ absurd (ground (arith, e, h))
  | inr (at, e) ↦
      (at, e, ground (arith, e, h), ground (arith, h, eq_iff role "owner"), ground (arith, h))
]

epoch_start-ok :
    (device_id user_id : ℕ) (role : String) (from start : ℕ) (ts : List DeviceTransfer)
    (latest : Option DeviceTransfer)
    → latest_of device_id ts ≡ latest
    → epoch_start user_id role from latest ≡ ok start
    → (from ≤ start) × AllEffectiveBy device_id start ts × HoldsEpoch user_id role latest
epoch_start-ok device_id user_id role from start ts none e h =
    (unfold epoch_start in ground arith, latest_of-none device_id start ts e, tt)
epoch_start-ok device_id user_id role from start ts (some t) e h =
    let (at, e', s, owner, holder) = epoch_start-some user_id role from start t h in
    (
      omega (arith, s),
      AllEffectiveBy-mono device_id at start ts (omega (arith, s))
          (latest_of-bound device_id at ts t e e'),
      (owner, holder),
    )

epoch_end-bounds :
    (to : ℕ) (pending : Option DeviceTransfer)
    → (epoch_end to pending ≤ to) × BeforeRequest (epoch_end to pending) pending
unfolding epoch_end
epoch_end-bounds to none = (omega arith, tt)
epoch_end-bounds to (some t) = (omega arith, omega arith)

bounded_period-ok :
    (user_id : ℕ) (role : String) (from to start end : ℕ) (latest pending : Option DeviceTransfer)
    → bounded_period user_id role from to latest pending ≡ ok (start, end)
    → (epoch_start user_id role from latest ≡ ok start)
      × (end ≡ epoch_end to pending)
      × (start < end)
unfolding bounded_period
bounded_period-ok user_id role from to start end latest pending h =
    let (s, e1, h1) = >>=-eq-ok (epoch_start user_id role from latest) _ h in
    let same : s ≡ start = ground (arith, h1) in
    (e1 ∙ ap ok same, ground (arith, h1), ground (arith, h1))

-- With transfer staging enabled, a readable period is a nonempty part of the requested one. It
-- begins no earlier than every completed transfer of the device took effect, it ends no later than
-- the request of a pending transfer, and after a transfer only the new owner of the latest one
-- reads it.
pub bounded_history_period-ok :
    (device_id user_id : ℕ) (role : String) (period_from period_to start end : ℕ) (db : Db)
    → bounded_history_period true device_id user_id role period_from period_to db ≡ ok (start, end)
    → (period_from ≤ start)
      × (start < end)
      × (end ≤ period_to)
      × AllEffectiveBy device_id start db.transfers
      × BeforeRequest end (pending_transfer true device_id db)
      × HoldsEpoch user_id role (latest_completed_transfer true device_id db)
bounded_history_period-ok device_id user_id role period_from period_to start end db h =
    let pending = pending_transfer true device_id db in
    let (s, e2, e3) =
      bounded_period-ok user_id role period_from period_to start end
        (latest_completed_transfer true device_id db) pending
        (unfold bounded_history_period in h) in
    let (low, epochs, holder) =
      epoch_start-ok device_id user_id role period_from start db.transfers
        (latest_completed_transfer true device_id db) (unfold latest_completed_transfer in refl)
        s in
    let bounds = epoch_end-bounds period_to pending in
    (
      low,
      e3,
      omega (arith, bounds.0, e2),
      epochs,
      subst (λ x. BeforeRequest x pending) (sym e2) bounds.1,
      holder,
    )

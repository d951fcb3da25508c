-- ===== src/Transfer/Archive/Window.antt =====
-- app/device_transfer_archive.py: the period that a former owner reads.
use smart_monitor_back_end.Base.{
  ℕ, max, min, ◌≡◌, ◌≤◌, ◌<◌, ◌⊎◌, refl, subst, Bool, true, false, ◌&&◌, Option, none, List, [],
  ◌∷◌, arith, All, inl, inr, ltb, if◌then◌else◌, ◌==◌, nat_eq, keep,
}
use smart_monitor_back_end.Base.Http.{ok, >>=-eq-ok, ok_injective}
use smart_monitor_back_end.Database.{Db, Device, find_device, completed_of, DeviceTransfer}
use smart_monitor_back_end.Transfer.Archive.{
  Epoch, sort_transfers, chain_of, or_not_found, completed_ownership_epochs, overlaps, only_overlap,
  former_owner_window,
}
use smart_monitor_back_end.Transfer.Archive.Chain.{InTime, chain-InTime, Among, Apart, Among-Apart}

-- The overlap `o` of the period with the window of `e`, an epoch of the account.
abbrev pub Reads : ℕ → ℕ → ℕ → Epoch → ℕ × ℕ × Option ℕ → Type 0
Reads user_id period_from period_to e o =
    (e.transfer.previous_owner_user_id ≡ user_id)
    × (period_from ≤ o.0)
    × (e.window_start ≤ o.0)
    × (o.0 < o.1)
    × (o.1 ≤ period_to)
    × (o.1 ≤ e.window_end)
    × (o.2 ≡ e.epoch_transfer_id)

Reads-first :
    (user_id period_from period_to : ℕ) (e : Epoch)
    → (e.transfer.previous_owner_user_id == user_id
        && ltb (max period_from e.window_start) (min period_to e.window_end))
      ≡ true
    → Reads user_id period_from period_to e
        (max period_from e.window_start, min period_to e.window_end, e.epoch_transfer_id)
Reads-first user_id period_from period_to e h = (
  ground (arith, h),
  ground arith,
  ground arith,
  ground (arith, h),
  ground arith,
  ground arith,
  refl,
)

first_or_later :
    {A : Type 0} (c : Bool) (x o : A) (rest os : List A)
    → (if c then x ∷ rest else rest) ≡ o ∷ os
    → ((c ≡ true) × (x ≡ o)) ⊎ (rest ≡ o ∷ os)
first_or_later true x o rest os h = inl (refl, ground (arith, h))
first_or_later false x o rest os h = inr h

overlaps-Reads :
    (user_id period_from period_to : ℕ) (es : List Epoch) (o : ℕ × ℕ × Option ℕ)
    (os : List (ℕ × ℕ × Option ℕ))
    → overlaps user_id period_from period_to es ≡ o ∷ os
    → (e : Epoch) × Among e es × Reads user_id period_from period_to e o
overlaps-Reads user_id period_from period_to [] o os h = cc
overlaps-Reads user_id period_from period_to (e ∷ es) o os h =
    elim (first_or_later _ _ o (overlaps user_id period_from period_to es) os h) [
      | inl at ↦ (
        e,
        inl refl,
        subst (Reads user_id period_from period_to e) at.1
            (Reads-first user_id period_from period_to e at.0),
      )
      | inr later ↦
          let (x, among, reads) = overlaps-Reads user_id period_from period_to es o os later in
          (x, inr among, reads)
    ]

only_overlap-ok :
    (os : List (ℕ × ℕ × Option ℕ)) (o : ℕ × ℕ × Option ℕ) → only_overlap os ≡ ok o → os ≡ o ∷ []
only_overlap-ok [] o h = cc
only_overlap-ok (p ∷ []) o h = ground (arith, ok_injective p o h)
only_overlap-ok (p ∷ q ∷ os) o h = cc

chain_of-InTime :
    (device : Device) (ts : List DeviceTransfer) (es : List Epoch)
    → chain_of device ts ≡ ok es
    → InTime device.created_at es
chain_of-InTime device [] es h = cc
chain_of-InTime device (t ∷ ts) es h =
    chain-InTime t.previous_owner_user_id device.created_at none (t ∷ ts) es h

epochs-InTime :
    (device_id : ℕ) (db : Db) (found : Device × List Epoch)
    → completed_ownership_epochs device_id db ≡ ok found
    → InTime found.0.created_at found.1
unfolding completed_ownership_epochs
epochs-InTime device_id db found h =
    let (device, e1, h1) = >>=-eq-ok (or_not_found (find_device device_id db)) _ h in
    let (epochs, e2, h2) =
      >>=-eq-ok (chain_of device (sort_transfers (keep (completed_of device_id) db.transfers))) _
        h1 in
    subst (λ r. InTime r.0.created_at r.1) (ok_injective (device, epochs) found h2)
      (chain_of-InTime device (sort_transfers (keep (completed_of device_id) db.transfers)) epochs
        e2)

-- When a former owner is given a period of a device to read, the chain of its completed ownership
-- epochs was accepted, and the period is the nonempty part, inside the requested one, of the window
-- of one epoch whose owner the account was; every other epoch of the chain has its window before
-- or after that one, so nothing of another owner's epoch is in the period.
pub former_owner_window-Reads :
    (device_id user_id period_from period_to : ℕ) (db : Db) (o : ℕ × ℕ × Option ℕ)
    → former_owner_window device_id user_id period_from period_to db ≡ ok o
    → (found : Device × List Epoch) × (completed_ownership_epochs device_id db ≡ ok found)
      × (e : Epoch) × Among e found.1
      × Reads user_id period_from period_to e o
      × All (Apart e) found.1
unfolding former_owner_window
former_owner_window-Reads device_id user_id period_from period_to db o h =
    let (found, accepted, h1) = >>=-eq-ok (completed_ownership_epochs device_id db) _ h in
    let (e, among, reads) =
      overlaps-Reads user_id period_from period_to found.1 o []
        (only_overlap-ok (overlaps user_id period_from period_to found.1) o h1) in
    (
      found,
      accepted,
      e,
      among,
      reads,
      Among-Apart found.0.created_at e found.1 (epochs-InTime device_id db found accepted) among,
    )

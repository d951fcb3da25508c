-- ===== src/Transfer/Archive.antt =====
-- app/device_transfer_archive.py: the chain of the completed ownership epochs of a device, and the
-- part of a period that a former owner may read. PostgreSQL sorts a missing `effective_at` last.
pub mod Chain
pub mod Window
use smart_monitor_back_end.Base.{
  ℕ, max, min, Bool, true, false, not, ◌&&◌, ◌||◌, Option, none, some, List, [], ◌∷◌, keep, ltb,
  leb, eqb, if◌then◌else◌, ◌==◌, nat_eq,
}
use smart_monitor_back_end.Base.Http.{Result, ok, err, http_exception, raise_if, ◌>>=◌, ◌>>◌}
use smart_monitor_back_end.Database.{Db, Device, DeviceTransfer, completed_of, find_device}

-- (transfer, window_start, window_end, epoch_transfer_id)
pub record Epoch : Type 0 where
  pub transfer : DeviceTransfer
  pub window_start : ℕ
  pub window_end : ℕ
  pub epoch_transfer_id : Option ℕ

-- order_by(effective_at, id)
abbrev pub time_before : Option ℕ → Option ℕ → Bool
time_before none b = false
time_before (some a) none = true
time_before (some a) (some b) = ltb a b

abbrev pub sorts_before : DeviceTransfer → DeviceTransfer → Bool
sorts_before t u =
    time_before t.effective_at u.effective_at
    || (not (time_before u.effective_at t.effective_at) && ltb t.id u.id)

abbrev pub insert_sorted : DeviceTransfer → List DeviceTransfer → List DeviceTransfer
insert_sorted t [] = t ∷ []
insert_sorted t (u ∷ us) = if sorts_before u t then u ∷ insert_sorted t us else t ∷ u ∷ us

abbrev pub sort_transfers : List DeviceTransfer → List DeviceTransfer
sort_transfers [] = []
sort_transfers (t ∷ ts) = insert_sorted t (sort_transfers ts)

abbrev pub or_inconsistent : Option ℕ → Result ℕ
or_inconsistent none = err (http_exception 409 "Ownership archive inconsistent")
or_inconsistent (some t) = ok t

-- The tests on one transfer of the chain.
abbrev pub broken : ℕ → ℕ → ℕ → DeviceTransfer → Bool
broken expected_owner window_start effective t =
    not (t.previous_owner_user_id == expected_owner)
    || (leb t.requested_at window_start
        || (leb t.not_before t.requested_at || ltb effective t.not_before))

unfoldable pub chain : ℕ → ℕ → Option ℕ → List DeviceTransfer → Result (List Epoch)
chain expected_owner window_start epoch_transfer_id [] = ok []
chain expected_owner window_start epoch_transfer_id (t ∷ ts) = do
  effective ← or_inconsistent t.effective_at
  raise_if (broken expected_owner window_start effective t)
      (http_exception 409 "Ownership archive inconsistent")
  rest ← chain t.next_owner_user_id effective (some t.id) ts
  ok (
      record {
        transfer = t;
        window_start = window_start;
        window_end = t.requested_at;
        epoch_transfer_id = epoch_transfer_id;
      }
      ∷ rest)

abbrev pub or_not_found {ℓ} : {A : Type ℓ} → Option A → Result A
or_not_found none = err (http_exception 404 "Archive not found")
or_not_found (some a) = ok a

-- `if not transfers`, and the chain from the first owner on
abbrev pub chain_of : Device → List DeviceTransfer → Result (List Epoch)
chain_of device [] = err (http_exception 404 "Archive not found")
chain_of device (t ∷ ts) = chain t.previous_owner_user_id device.created_at none (t ∷ ts)

unfoldable pub completed_ownership_epochs : ℕ → Db → Result (Device × List Epoch)
unfolding chain
completed_ownership_epochs device_id db = do
  device ← or_not_found (find_device device_id db)
  epochs ← chain_of device (sort_transfers (keep (completed_of device_id) db.transfers))
  ok (device, epochs)

-- The overlaps of a period with the epochs of one account.
abbrev pub overlaps : ℕ → ℕ → ℕ → List Epoch → List (ℕ × ℕ × Option ℕ)
overlaps user_id period_from period_to [] = []
overlaps user_id period_from period_to (e ∷ es) =
    let rest = overlaps user_id period_from period_to es in
    let start = max period_from e.window_start in
    let end = min period_to e.window_end in
    if e.transfer.previous_owner_user_id == user_id && ltb start end
    then (start, end, e.epoch_transfer_id) ∷ rest
    else rest

-- the only overlap; none and several are both refused
abbrev pub only_overlap : List (ℕ × ℕ × Option ℕ) → Result (ℕ × ℕ × Option ℕ)
only_overlap (o ∷ []) = ok o
only_overlap [] = err (http_exception 404 "Archive not found")
only_overlap (o ∷ p ∷ os) = err (http_exception 404 "Archive not found")

unfoldable pub former_owner_window : ℕ → ℕ → ℕ → ℕ → Db → Result (ℕ × ℕ × Option ℕ)
unfolding completed_ownership_epochs
former_owner_window device_id user_id period_from period_to db = do
  (device, epochs) ← completed_ownership_epochs device_id db
  only_overlap (overlaps user_id period_from period_to epochs)

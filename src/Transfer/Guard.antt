-- ===== src/Transfer/Guard.antt =====
-- app/device_transfer_guard.py: who may act on a device, and which history may be read, around a
-- transfer. `order_by(effective_at.desc(), id.desc())` is PostgreSQL's: a missing value comes first.
pub mod Access
pub mod Latest
pub mod Period
use smart_monitor_back_end.Base.{
  ℕ, Bool, true, false, ◌&&◌, ◌||◌, not, String, Option, none, some, List, [], ◌∷◌, leb, ltb, max,
  min, if◌then◌else◌, is_some, is_none, first, ◌==◌, nat_eq, string_eq,
}
use smart_monitor_back_end.Base.Http.{Result, ok, err, http_exception, raise_if, ◌>>=◌, ◌>>◌}
use smart_monitor_back_end.Database.{Db, DeviceTransfer, pending_of, completed_of}

unfoldable pub pending_transfer : Bool → ℕ → Db → Option DeviceTransfer
pending_transfer enabled device_id db =
    if enabled then first (pending_of device_id) db.transfers else none

abbrev pub later_time : Option ℕ → Option ℕ → Bool
later_time none none = false
later_time none (some b) = true
later_time (some a) none = false
later_time (some a) (some b) = ltb b a

abbrev pub same_time : Option ℕ → Option ℕ → Bool
same_time none none = true
same_time none (some b) = false
same_time (some a) none = false
same_time (some a) (some b) = a == b

-- `t` comes before `u` in the descending order
abbrev pub comes_first : DeviceTransfer → DeviceTransfer → Bool
comes_first t u =
    later_time t.effective_at u.effective_at
    || (same_time t.effective_at u.effective_at && ltb u.id t.id)

abbrev pub pick : DeviceTransfer → Option DeviceTransfer → DeviceTransfer
pick t none = t
pick t (some u) = if comes_first t u then t else u

-- the first row of the ordered query
unfoldable pub latest_of : ℕ → List DeviceTransfer → Option DeviceTransfer
latest_of device_id [] = none
latest_of device_id (t ∷ ts) =
    let rest = latest_of device_id ts in
    if completed_of device_id t then some (pick t rest) else rest

unfoldable pub latest_completed_transfer : Bool → ℕ → Db → Option DeviceTransfer
latest_completed_transfer enabled device_id db =
    if enabled then latest_of device_id db.transfers else none

-- The test on the latest completed transfer, as `active_transfer_access_allowed` writes it.
abbrev pub epoch_allows : Option DeviceTransfer → ℕ → String → Bool
epoch_allows none user_id role = true
epoch_allows (some latest) user_id role =
    is_some latest.effective_at && (role == "owner" && latest.next_owner_user_id == user_id)

unfoldable pub active_transfer_access_allowed : Bool → ℕ → ℕ → String → Db → Bool
unfolding pending_transfer latest_completed_transfer
active_transfer_access_allowed enabled device_id user_id role db =
    if enabled
    then (if is_some (pending_transfer enabled device_id db)
        then false
        else epoch_allows (latest_completed_transfer enabled device_id db) user_id role)
    else true

-- The same test, as `require_active_transfer_access` writes it.
abbrev pub epoch_denies : Option DeviceTransfer → ℕ → String → Bool
epoch_denies none user_id role = false
epoch_denies (some latest) user_id role =
    is_none latest.effective_at
    || (not (role == "owner") || not (latest.next_owner_user_id == user_id))

unfoldable pub require_active_transfer_access : Bool → ℕ → ℕ → String → Db → Result (Unit {0})
unfolding pending_transfer latest_completed_transfer
require_active_transfer_access enabled device_id user_id role db = do
  raise_if (is_some (pending_transfer enabled device_id db))
      (http_exception 409 "Device transfer pending")
  raise_if (epoch_denies (latest_completed_transfer enabled device_id db) user_id role)
      (http_exception 403 "Device access from previous ownership period denied")

-- where the readable history starts
abbrev pub start_after : ℕ → Option ℕ → Result ℕ
start_after period_from none = err (http_exception 409 "Device transfer history unavailable")
start_after period_from (some effective_at) = ok (max period_from effective_at)

unfoldable pub epoch_start : ℕ → String → ℕ → Option DeviceTransfer → Result ℕ
epoch_start user_id role period_from none = ok period_from
epoch_start user_id role period_from (some latest) = do
  raise_if (not (role == "owner") || not (latest.next_owner_user_id == user_id))
      (http_exception 403 "History outside ownership period")
  start_after period_from latest.effective_at

unfoldable pub epoch_end : ℕ → Option DeviceTransfer → ℕ
epoch_end period_to none = period_to
epoch_end period_to (some pending) = min period_to pending.requested_at

unfoldable pub bounded_period :
    ℕ → String → ℕ → ℕ → Option DeviceTransfer → Option DeviceTransfer → Result (ℕ × ℕ)
bounded_period user_id role period_from period_to latest pending = do
  start ← epoch_start user_id role period_from latest
  raise_if (leb (epoch_end period_to pending) start)
      (http_exception 403 "History outside ownership period")
  ok (start, epoch_end period_to pending)

unfoldable pub bounded_history_period : Bool → ℕ → ℕ → String → ℕ → ℕ → Db → Result (ℕ × ℕ)
bounded_history_period enabled device_id user_id role period_from period_to db =
    if enabled
    then bounded_period user_id role period_from period_to
        (latest_completed_transfer enabled device_id db) (pending_transfer enabled device_id db)
    else ok (period_from, period_to)

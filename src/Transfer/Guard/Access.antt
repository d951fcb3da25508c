-- ===== src/Transfer/Guard/Access.antt =====
-- app/device_transfer_guard.py: the two access tests.
use smart_monitor_back_end.Base.{
  ℕ, ◌≡◌, ◌↔◌, refl, Bool, true, false, String, Option, none, some, arith,
}
use smart_monitor_back_end.Base.Http.{ok}
use smart_monitor_back_end.Database.{Db, DeviceTransfer}
use smart_monitor_back_end.Transfer.Guard.{
  latest_of, epoch_allows, epoch_denies, active_transfer_access_allowed,
  require_active_transfer_access,
}

epoch_denies-not_allows :
    (latest : Option DeviceTransfer) (user_id : ℕ) (role : String)
    → (epoch_allows latest user_id role ≡ true) ↔ (epoch_denies latest user_id role ≡ false)
epoch_denies-not_allows none user_id role = ((λ _. refl), (λ _. refl))
epoch_denies-not_allows (some latest) user_id role = (ground arith, ground arith)

-- `require_active_transfer_access` returns exactly when `active_transfer_access_allowed` is true,
-- whether or not transfer staging is enabled.
pub require-eq-allowed :
    (enabled : Bool) (device_id user_id : ℕ) (role : String) (db : Db)
    → (active_transfer_access_allowed enabled device_id user_id role db ≡ true)
      ↔ (require_active_transfer_access enabled device_id user_id role db ≡ ok tt)
unfolding active_transfer_access_allowed require_active_transfer_access
require-eq-allowed true device_id user_id role db =
    let latest = latest_of device_id db.transfers in
    (
      ground (arith, (epoch_denies-not_allows latest user_id role).0),
      ground (arith, (epoch_denies-not_allows latest user_id role).1),
    )
require-eq-allowed false device_id user_id role db = ((λ _. refl), (λ _. refl))

-- ===== src/Devices/Members.antt =====
-- app/devices.py: the owner of a device lets other accounts read it, at most ten of them. E-mail
-- addresses are ASCII for `lower`.
pub mod Limit
use smart_monitor_back_end.Base.{
  ℕ, String, Bool, true, false, not, ◌&&◌, ◌||◌, Option, none, some, List, [], ◌∷◌, first, keep,
  leb, length, is_some, if◌then◌else◌, ◌==◌, nat_eq, string_eq,
}
use smart_monitor_back_end.Base.Http.{
  Result, ok, err, http_exception, integrity_error, raise_if, ◌>>=◌, ◌>>◌,
}
use smart_monitor_back_end.Base.Text.{lower}
use smart_monitor_back_end.Database.{
  Db, User, Device, DeviceMembership, find_device, insert_membership, transact,
}
use smart_monitor_back_end.Authorization.{manage_members, require_device_action}
use smart_monitor_back_end.Transfer.Guard.{require_active_transfer_access}
use smart_monitor_back_end.Devices.{membership_of}

abbrev pub device_member_limit : ℕ
device_member_limit = 10

abbrev pub or_404 {ℓ} : {A : Type ℓ} → Option A → String → Result A
or_404 none detail = err (http_exception 404 detail)
or_404 (some a) detail = ok a

-- _require_owner
unfoldable pub require_owner : Bool → ℕ → ℕ → Db → Result Device
require_owner enabled device_id user_id db = do
  device ← or_404 (find_device device_id db) "Device not found"
  membership ← or_404 (first (membership_of device_id user_id) db.memberships) "Device not found"
  require_device_action membership.role manage_members
  require_active_transfer_access enabled device_id user_id membership.role db
  ok device

abbrev pub member_of : ℕ → DeviceMembership → Bool
member_of device_id m = m.device_id == device_id && m.role == "member"

-- DeviceMemberPublic; its role is always "member"
pub record DeviceMemberPublic : Type 0 where
  pub user_id : ℕ
  pub email : String

-- A user who may be given access: `member_user` of the handler.
abbrev pub available : Option User → Result User
available none = err (http_exception 404 "User not available")
available (some u) =
    raise_if (not u.is_active || not u.email_verified) (http_exception 404 "User not available")
    >> ok u

unfoldable pub add_member_body : Bool → ℕ → String → ℕ → Db → Result (DeviceMemberPublic × Db)
unfolding require_owner lower insert_membership
add_member_body enabled device_id email user_id db = do
  device ← require_owner enabled device_id user_id db
  member_user ← available (first (λ u. u.email == lower email) db.users)
  raise_if (is_some (first (membership_of device_id member_user.id) db.memberships))
      (http_exception 409 "User already has access")
  raise_if (leb device_member_limit (length (keep (member_of device_id) db.memberships)))
      (http_exception 409 "Member limit reached")
  db' ←
      insert_membership
        (record { user_id = member_user.id; device_id = device_id; role = "member" }) db
  ok (record { user_id = member_user.id; email = member_user.email }, db')

-- The arguments: the device, the address, the current user.
unfoldable pub add_device_member : Bool → ℕ → String → ℕ → Db → Result DeviceMemberPublic × Db
unfolding add_member_body
add_device_member enabled device_id email user_id db =
    transact db (add_member_body enabled device_id email user_id db)

abbrev pub removed : ℕ → ℕ → DeviceMembership → Bool
removed device_id user_id m = membership_of device_id user_id m && m.role == "member"

unfoldable pub remove_member_body : Bool → ℕ → ℕ → ℕ → Db → Result (Unit {0} × Db)
unfolding require_owner
remove_member_body enabled device_id user_id current_user_id db = do
  device ← require_owner enabled device_id current_user_id db
  membership ← or_404 (first (removed device_id user_id) db.memberships) "Member not found"
  ok (tt, record db { memberships = keep (λ m. not (removed device_id user_id m)) db.memberships })

-- The arguments: the device, the member, the current user.
unfoldable pub remove_device_member : Bool → ℕ → ℕ → ℕ → Db → Result (Unit {0}) × Db
unfolding remove_member_body
remove_device_member enabled device_id user_id current_user_id db =
    transact db (remove_member_body enabled device_id user_id current_user_id db)

abbrev pub insert_by_id : DeviceMemberPublic → List DeviceMemberPublic → List DeviceMemberPublic
insert_by_id m [] = m ∷ []
insert_by_id m (n ∷ ms) = if leb m.user_id n.user_id then m ∷ n ∷ ms else n ∷ insert_by_id m ms

-- The members of the device among the users, in the order of their ids.
abbrev pub member_rows : ℕ → List DeviceMembership → List User → List DeviceMemberPublic
member_rows device_id memberships [] = []
member_rows device_id memberships (u ∷ us) =
    let rest = member_rows device_id memberships us in
    if is_some (first (removed device_id u.id) memberships)
    then insert_by_id (record { user_id = u.id; email = u.email }) rest
    else rest

unfoldable pub list_device_members : Bool → ℕ → ℕ → Db → Result (List DeviceMemberPublic)
unfolding require_owner
list_device_members enabled device_id user_id db = do
  device ← require_owner enabled device_id user_id db
  ok (member_rows device_id db.memberships db.users)

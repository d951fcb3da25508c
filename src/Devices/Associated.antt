-- ===== src/Devices/Associated.antt =====
-- app/devices.py: the database around the association of a device with an account.
use smart_monitor_back_end.Base.{
  All, ap, ℕ, ◌≡◌, refl, sym, subst, ◌∙◌, String, Bool, true, some, List, first, ◌==◌, nat_eq,
  string_eq, option_eq,
}
use smart_monitor_back_end.Base.Http.{ok, >>=-eq-ok, ok_injective}
use smart_monitor_back_end.Database.{
  Db, Device, DeviceChannel, DeviceMembership, owner_of, find_device_by_uid,
}
use smart_monitor_back_end.Devices.{
  get_device, check_owner, membership_of, promote, default_power_channels, add_channels,
  has_channel, associate,
}
use smart_monitor_back_end.Devices.Claimed.{Owns, promote-Owns, check_owner-MayOwn}
use smart_monitor_back_end.Devices.Found.{Found, other_devices, claimed_row, get_device-Found}
use smart_monitor_back_end.Devices.Channels.{
  Added, other_channels, with_channels, missing_channels, add_channels-Added, add_channels-present,
  add_channels-eq,
}

-- What a claim leaves: the device is stored, with the identifier of the request and the route of the
-- proof and otherwise as it was or as a new device, the account is its owner, and it has the default
-- channels, those it lacked being new rows. Nothing else in the database changes.
pub record Claimed (uid mqtt : String) (user_id now : ℕ) (before : Db) (device : Device)
    (after : Db) : Type 0 where
  pub row : device ≡ claimed_row uid mqtt now before (find_device_by_uid uid before)
  pub same_uid : device.device_uid ≡ uid
  pub same_mqtt : device.mqtt_device_id ≡ some mqtt
  pub stored : find_device_by_uid uid after ≡ some device
  pub same_others : other_devices device.id after.devices ≡ other_devices device.id before.devices
  pub owns : Owns device.id user_id before.memberships after.memberships
  pub channels : All (λ c. has_channel device.id c.0 after.channels ≡ true) default_power_channels
  pub inserted :
      after.channels
      ≡ with_channels device.id before.next_channel_id
          (missing_channels device.id before.channels default_power_channels)
          before.channels
  pub same_channels :
      other_channels device.id after.channels ≡ other_channels device.id before.channels
  pub rest : after ≡ record before {
    devices = after.devices;
    memberships = after.memberships;
    channels = after.channels;
    next_device_id = after.next_device_id;
    next_channel_id = after.next_channel_id;
  }

-- A database that differs from another in these tables differs in nothing else.
same_rest :
    (a b : Db) (ds : List Device) (ms : List DeviceMembership) (cs : List DeviceChannel) (i j : ℕ)
    → a ≡ record b {
      devices = ds;
      memberships = ms;
      channels = cs;
      next_device_id = i;
      next_channel_id = j;
    }
    → a ≡ record b {
      devices = a.devices;
      memberships = a.memberships;
      channels = a.channels;
      next_device_id = a.next_device_id;
      next_channel_id = a.next_channel_id;
    }
same_rest a b ds ms cs i j h =
    subst
      (λ (x : Db). x ≡ record b {
        devices = x.devices;
        memberships = x.memberships;
        channels = x.channels;
        next_device_id = x.next_device_id;
        next_channel_id = x.next_channel_id;
      })
      (sym h) refl

-- The look-up of the device, the promotion of the account and the channels make a claim.
assembled :
    (uid mqtt : String) (u now : ℕ) (db db2 db3 : Db) (r : Device × Db)
    → Found uid mqtt now db r
    → Owns r.0.id u r.1.memberships db2.memberships
    → db2 ≡ record r.1 { memberships = db2.memberships }
    → Added r.0.id db2 db3
    → All (λ c. has_channel r.0.id c.0 db3.channels ≡ true) default_power_channels
    → db3.channels
      ≡ with_channels r.0.id db2.next_channel_id
          (missing_channels r.0.id db2.channels default_power_channels)
          db2.channels
    → Claimed uid mqtt u now db r.0 db3
assembled uid mqtt u now db db2 db3 r f owns kept added present inserted =
    let start = kept ∙ ap (λ (x : Db). record x { memberships = db2.memberships }) f.rest in
    let rows : db3.devices ≡ r.1.devices =
      ap (λ (x : Db). x.devices) added.rest ∙ ap (λ (x : Db). x.devices) kept in
    record {
      row = f.row;
      same_uid = f.same_uid;
      same_mqtt = f.same_mqtt;
      stored = ap (first (λ e. e.device_uid == uid)) rows ∙ f.stored;
      same_others = ap (other_devices r.0.id) rows ∙ f.others;
      owns =
          subst (Owns r.0.id u db.memberships) (sym (ap (λ (x : Db). x.memberships) added.rest)) (
            subst (λ ms. Owns r.0.id u ms db2.memberships) (ap (λ (x : Db). x.memberships) f.rest)
              owns);
      channels = present;
      inserted =
          inserted
          ∙ ap
              (λ (x : Db).
                with_channels r.0.id x.next_channel_id
                  (missing_channels r.0.id x.channels default_power_channels) x.channels)
              start;
      same_channels = added.others ∙ ap (λ (x : Db). other_channels r.0.id x.channels) start;
      rest =
          same_rest db3 db r.1.devices db2.memberships db3.channels r.1.next_device_id
            db3.next_channel_id
            (added.rest
              ∙ ap
                  (λ (x : Db). record x {
                    channels = db3.channels;
                    next_channel_id = db3.next_channel_id;
                  })
                  start);
    }

pub associate-Claimed :
    (enabled : Bool) (uid mqtt : String) (u now : ℕ) (db db' : Db) (d : Device)
    → associate enabled uid mqtt u now db ≡ ok (d, db')
    → Claimed uid mqtt u now db d db'
unfolding associate
associate-Claimed enabled uid mqtt u now db db' d h =
    let (r, e1, h1) =
      >>=-eq-ok (get_device enabled uid mqtt now (find_device_by_uid uid db) db) _ h in
    let (_, e2, h2) =
      >>=-eq-ok (check_owner enabled r.0.id u (first (owner_of r.0.id) r.1.memberships) r.1) _ h1 in
    let (db2, e3, h3) =
      >>=-eq-ok (promote r.0.id u (first (membership_of r.0.id u) r.1.memberships) r.1) _ h2 in
    let may =
      check_owner-MayOwn r.0.id u enabled (first (owner_of r.0.id) r.1.memberships) r.1 e2 in
    let (owns, kept) =
      promote-Owns r.0.id u (first (membership_of r.0.id u) r.1.memberships) r.1 db2 may refl e3 in
    subst (λ (p : Device × Db). Claimed uid mqtt u now db p.0 p.1) (ok_injective _ (d, db') h3)
      (assembled uid mqtt u now db db2 (add_channels r.0.id db2.channels default_power_channels db2)
        r (get_device-Found enabled uid mqtt now (find_device_by_uid uid db) db r refl e1) owns kept
        (add_channels-Added r.0.id db2.channels default_power_channels db2)
        (add_channels-present r.0.id db2.channels default_power_channels db2 (λ k e. e))
        (add_channels-eq r.0.id db2.channels default_power_channels db2))

-- ===== src/Devices/Channels.antt =====
-- app/devices.py: the default channels of the device of a claim.
use smart_monitor_back_end.Base.{
  suc, All, keep, Bool-cases, ap, beq_self, ℕ, ◌≡◌, inl, inr, refl, ◌∙◌, String, Bool, true, false,
  not, some, List, [], ◌∷◌, arith, ◌==◌, nat_eq, string_eq, option_eq,
}
use smart_monitor_back_end.Database.{Db, DeviceChannel}
use smart_monitor_back_end.Devices.{add_channels, has_channel}

-- The channels of the other devices.
abbrev pub other_channels : ℕ → List DeviceChannel → List DeviceChannel
other_channels k cs = keep (λ c. not (c.device_id == k)) cs

-- What the loop over the default channels leaves: it only adds channels of the device.
pub record Added (d : ℕ) (before after : Db) : Type 0 where
  pub rest :
      after ≡ record before { channels = after.channels; next_channel_id = after.next_channel_id }
  pub others : other_channels d after.channels ≡ other_channels d before.channels
  pub kept :
      (key : String)
      → has_channel d key before.channels ≡ true
      → has_channel d key after.channels ≡ true

Added-trans : (d : ℕ) (a b c : Db) → Added d a b → Added d b c → Added d a c
Added-trans d a b c p q = record {
  rest =
      q.rest
      ∙ ap (λ (x : Db). record x { channels = c.channels; next_channel_id = c.next_channel_id })
          p.rest;
  others = q.others ∙ p.others;
  kept = λ key h. q.kept key (p.kept key h);
}

-- One round of the loop.
abbrev add_channel : ℕ → List DeviceChannel → String × String × Bool → Db → Db
add_channel d existing (key, name, enabled) db =
    add_channels d existing ((key, name, enabled) ∷ []) db

add_channel-Added :
    (d : ℕ) (existing : List DeviceChannel) (key name : String) (enabled : Bool) (db : Db)
    → Added d db (add_channel d existing (key, name, enabled) db)
add_channel-Added d existing key name enabled db = elim (Bool-cases (has_channel d key existing)) [
  | inl e ↦ rw e (record { rest = refl; others = refl; kept = λ k h. h })
  | inr e ↦ rw e (record { rest = refl; others = rw (beq_self d); kept = λ k h. ground (arith, h) })
]

pub add_channels-Added :
    (d : ℕ) (existing : List DeviceChannel) (channels : List (String × String × Bool)) (db : Db)
    → Added d db (add_channels d existing channels db)
add_channels-Added d existing [] db = record { rest = refl; others = refl; kept = λ k h. h }
add_channels-Added d existing ((key, name, enabled) ∷ channels) db =
    let db' = add_channel d existing (key, name, enabled) db in
    Added-trans d db db' (add_channels d existing channels db')
      (add_channel-Added d existing key name enabled db)
      (add_channels-Added d existing channels db')

-- Every channel of the list is there afterwards.
pub add_channels-present :
    (d : ℕ) (existing : List DeviceChannel) (channels : List (String × String × Bool)) (db : Db)
    → ((key : String) → has_channel d key existing ≡ true → has_channel d key db.channels ≡ true)
    → All (λ c. has_channel d c.0 (add_channels d existing channels db).channels ≡ true) channels
add_channels-present d existing [] db h = tt
add_channels-present d existing ((key, name, enabled) ∷ channels) db h =
    let db' = add_channel d existing (key, name, enabled) db in
    (
      (add_channels-Added d existing channels db').kept key
          (here (has_channel d key existing) refl),
      add_channels-present d existing channels db'
          (λ k e. (add_channel-Added d existing key name enabled db).kept k (h k e)),
    )
  where
    here :
        (b : Bool)
        → has_channel d key existing ≡ b
        → has_channel d key (add_channel d existing (key, name, enabled) db).channels ≡ true
    here true e = rw e (h key e)
    here false e = rw (e, beq_self d, beq_self key)

-- The table `cs` with a channel of the device for each line of the list, numbered from `i`.
abbrev pub with_channels :
    ℕ → ℕ → List (String × String × Bool) → List DeviceChannel → List DeviceChannel
with_channels d i [] cs = cs
with_channels d i ((key, name, enabled) ∷ lines) cs = with_channels d (suc i) lines (
    record { id = i; device_id = d; channel_key = key; name = some name; is_enabled = enabled }
    ∷ cs)

-- The lines whose channel the device does not have.
abbrev pub missing_channels :
    ℕ → List DeviceChannel → List (String × String × Bool) → List (String × String × Bool)
missing_channels d cs lines = keep (λ c. not (has_channel d c.0 cs)) lines

pub add_channels-eq :
    (d : ℕ) (existing : List DeviceChannel) (lines : List (String × String × Bool)) (db : Db)
    → (add_channels d existing lines db).channels
      ≡ with_channels d db.next_channel_id (missing_channels d existing lines) db.channels
add_channels-eq d existing [] db = refl
add_channels-eq d existing ((key, name, enabled) ∷ lines) db =
    add_channels-eq d existing lines db' ∙ round
  where
    db' : Db
    db' = add_channel d existing (key, name, enabled) db

    round :
        with_channels d db'.next_channel_id (missing_channels d existing lines) db'.channels
        ≡ with_channels d db.next_channel_id
            (missing_channels d existing ((key, name, enabled) ∷ lines))
            db.channels
    round = elim (Bool-cases (has_channel d key existing)) [ inl e ↦ rw e refl | inr e ↦ rw e refl ]

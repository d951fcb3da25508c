-- ===== src/LiveState/Slots.antt =====
-- app/device_live_state.py: `_retain_recent_values` fills each value of a snapshot by itself.
use smart_monitor_back_end.Base.{
  ℕ, ◌≡◌, ◌∙◌, refl, sym, ap, subst, inl, inr, String, Bool, true, false, ◌&&◌, Bool-cases, Option,
  none, some, List, [], ◌∷◌, arith, all, is_none, if◌then◌else◌, ◌==◌, string_eq, pair_eq, eq_iff,
}
use smart_monitor_back_end.Base.Dict
use smart_monitor_back_end.Base.Dict.{Dict}
use smart_monitor_back_end.Base.Json.{Number}
use smart_monitor_back_end.LiveState.Blocks.{power_channel_keys, energy_value_fields, EnergyBlock}
use smart_monitor_back_end.LiveState.Snapshot.{
  Snapshot, sensor_fields, block_or_empty, channels_or_none,
}
use smart_monitor_back_end.LiveState.Store.{
  LastValues, retain_entry, retain_fields, retain_channels, channels_of, retain_recent_values,
}
use smart_monitor_back_end.LiveState.Fields.{has, fields_own, fields_other_prefix}
use smart_monitor_back_end.LiveState.Retained.{value_in, channels_own, channels_other}

-- A value of a snapshot: of the sensor, or of a channel.
pub data Slot : Type 0 where
  sensor : String → Slot
  energy : String → String → Slot

abbrev pub is_slot : Slot → Bool
is_slot (sensor f) = has f sensor_fields
is_slot (energy c f) = has c power_channel_keys && has f energy_value_fields

abbrev pub key_of : Slot → String × String
key_of (sensor f) = ("sensor", f)
key_of (energy c f) = (c, f)

abbrev pub value_at : Slot → Snapshot → Option Number
value_at (sensor f) s = s.sensor_values f
value_at (energy c f) s = value_in c f (channels_of s.energy_channels)

-- Leaving out an empty dictionary of channels hides no value.
channels_or_none-lem :
    (c f : String) (channels : Dict String EnergyBlock)
    → has c power_channel_keys ≡ true
    → value_in c f (channels_of (channels_or_none channels)) ≡ value_in c f channels
channels_or_none-lem c f channels h =
    elim (Bool-cases (all (λ key. is_none (Dict.get channels key)) power_channel_keys)) [
      | inl e ↦
          hidden true e
          ∙ ap (λ b. (block_or_empty b).values f) (sym (absent power_channel_keys e h))
      | inr e ↦ hidden false e
    ]
  where
    hidden :
        (t : Bool)
        → all (λ key. is_none (Dict.get channels key)) power_channel_keys ≡ t
        → value_in c f (channels_of (channels_or_none channels))
          ≡ value_in c f (channels_of (if t then none else some channels))
    hidden t e = ap (λ (t : Bool). value_in c f (channels_of (if t then none else some channels))) e

    gone : (o : Option EnergyBlock) → is_none o ≡ true → o ≡ none
    gone none k = refl
    gone (some b) k = cc

    absent :
        (keys : List String)
        → all (λ key. is_none (Dict.get channels key)) keys ≡ true
        → has c keys ≡ true
        → channels c ≡ none
    absent [] e h = cc
    absent (k ∷ ks) e h = elim (Bool-cases (k == c)) [
      | inl q ↦
          subst (λ j. channels j ≡ none) ((eq_iff k c).0 q) (gone (channels k) (ground (arith, e)))
      | inr q ↦ absent ks (ground (arith, e)) (ground (arith, q, h))
    ]

not_sensor : (c : String) → has c power_channel_keys ≡ true → ("sensor" == c) ≡ false
not_sensor c h = elim (Bool-cases ("sensor" == c)) [
  | inl e ↦
      absurd
        (clash (subst (λ j. has j power_channel_keys ≡ true) (sym ((eq_iff "sensor" c).0 e)) h))
  | inr e ↦ e
]
  where
    clash : has "sensor" power_channel_keys ≡ true → ⊥
    clash k = cc

-- Each slot of a snapshot is filled by itself.
pub retain_recent_values-own :
    (now : ℕ) (slot : Slot) (s : Snapshot) (cached : LastValues)
    → is_slot slot ≡ true
    → let r = retain_recent_values now s cached in
      let own = retain_entry now (value_at slot s) (cached (key_of slot)) in
      (value_at slot r.0 ≡ own.value) × (r.1 (key_of slot) ≡ own.entry)
unfolding retain_recent_values
retain_recent_values-own now (sensor f) s cached h =
    let (v, e) = fields_own now "sensor" sensor_fields s.sensor_values cached f refl h in
    let filled = retain_fields now "sensor" sensor_fields s.sensor_values cached in
    let (_, e') =
      channels_other now power_channel_keys (channels_of s.energy_channels) filled.cached "sensor" f
        refl in
    (v, e' ∙ e)
retain_recent_values-own now (energy c f) s cached h =
    let is_channel : has c power_channel_keys ≡ true = ground (arith, h) in
    let is_field : has f energy_value_fields ≡ true = ground (arith, h) in
    let filled = retain_fields now "sensor" sensor_fields s.sensor_values cached in
    let same =
      fields_other_prefix now "sensor" sensor_fields s.sensor_values cached (c, f)
        (not_sensor c is_channel) in
    let channels = channels_of s.energy_channels in
    let (v, e) =
      channels_own now power_channel_keys channels filled.cached c f refl is_channel is_field in
    (
      channels_or_none-lem c f (retain_channels now power_channel_keys channels filled.cached).0
            is_channel
          ∙ v
          ∙ ap (λ x. (retain_entry now (value_in c f channels) x).value) same,
      e ∙ ap (λ x. (retain_entry now (value_in c f channels) x).entry) same,
    )

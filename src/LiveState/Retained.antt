-- ===== src/LiveState/Retained.antt =====
-- app/device_live_state.py: the values of a snapshot after `_retain_recent_values`, field by field.
use smart_monitor_back_end.Base.{
  ℕ, ◌≡◌, ◌∙◌, refl, sym, ap, ap₂, subst, inl, inr, String, Bool, true, false, Bool-cases, Option,
  none, some, List, [], ◌∷◌, arith, any, is_some, if◌then◌else◌, ◌==◌, string_eq, pair_eq, beq_self,
  eq_iff,
}
use smart_monitor_back_end.Base.Dict
use smart_monitor_back_end.Base.Dict.{Dict}
use smart_monitor_back_end.Base.Json.{Number}
use smart_monitor_back_end.LiveState.Blocks.{energy_value_fields, EnergyBlock}
use smart_monitor_back_end.LiveState.Snapshot.{block_or_empty, channel_of}
use smart_monitor_back_end.LiveState.Store.{
  Entry, LastValues, retain_entry, Filled, retain_fields, has_value, filled_block, put_channel,
  retain_channels,
}
use smart_monitor_back_end.LiveState.Fields.{has, distinct, fields_own, fields_other_prefix}

abbrev pub value_in : String → String → Dict String EnergyBlock → Option Number
value_in c f channels = (channel_of c channels).values f

retain_entry-none :
    (now : ℕ) (v : Option Number) (e : Option Entry)
    → (retain_entry now v e).value ≡ none
    → v ≡ none
unfolding retain_entry
retain_entry-none now none e h = refl
retain_entry-none now (some v) e h = cc

has_value-none :
    (values : Dict String Number) (f : String)
    → has_value values ≡ false
    → has f energy_value_fields ≡ true
    → values f ≡ none
has_value-none values f h m = go energy_value_fields h m
  where
    go :
        (names : List String)
        → any (λ n. is_some (values n)) names ≡ false
        → has f names ≡ true
        → values f ≡ none
    go [] h m = cc
    go (n ∷ ns) h m = elim (Bool-cases (n == f)) [
      | inl e ↦
          subst (λ g. values g ≡ none) ((eq_iff n f).0 e) (missing (values n) (ground (arith, h)))
      | inr e ↦ go ns (ground (arith, h)) (ground (arith, e, m))
    ]
      where
        missing : (o : Option Number) → is_some o ≡ false → o ≡ none
        missing none k = refl
        missing (some v) k = cc

insert_own :
    (c f : String) (b : EnergyBlock) (channels : Dict String EnergyBlock)
    → value_in c f (Dict.insert c b channels) ≡ b.values f
insert_own c f b channels =
    ap (λ (t : Bool). (block_or_empty (if t then some b else channels c)).values f) (beq_self c)

insert_other :
    (k c f : String) (b : EnergyBlock) (channels : Dict String EnergyBlock)
    → (k == c) ≡ false
    → value_in c f (Dict.insert k b channels) ≡ value_in c f channels
insert_other k c f b channels h =
    ap (λ (t : Bool). (block_or_empty (if t then some b else channels c)).values f) h

module _ (now : ℕ) where
  put_channel-other :
      (key c f : String) (filled : Filled) (block : EnergyBlock)
      (channels : Dict String EnergyBlock)
      → (key == c) ≡ false
      → value_in c f (put_channel key block filled channels) ≡ value_in c f channels
  put_channel-other key c f filled block channels h = elim (Bool-cases (has_value filled.values)) [
    | inl e ↦
        ap
          (λ (t : Bool).
            value_in c f
              (if t then Dict.insert key (filled_block block filled) channels else channels))
          e
        ∙ insert_other key c f (filled_block block filled) channels h
    | inr e ↦
        ap
          (λ (t : Bool).
            value_in c f
              (if t then Dict.insert key (filled_block block filled) channels else channels))
          e
  ]

  put_channel-own :
      (c f : String) (channels : Dict String EnergyBlock) (cached : LastValues)
      → has f energy_value_fields ≡ true
      → let filled =
          retain_fields now c energy_value_fields (channel_of c channels).values cached in
        let r = retain_entry now (value_in c f channels) (cached (c, f)) in
        (value_in c f (put_channel c (channel_of c channels) filled channels) ≡ r.value)
        × (filled.cached (c, f) ≡ r.entry)
  put_channel-own c f channels cached m =
      let block = channel_of c channels in
      let filled = retain_fields now c energy_value_fields block.values cached in
      let (v, entry) = fields_own now c energy_value_fields block.values cached f refl m in
      let put : (t : Bool)
          → has_value filled.values ≡ t
          → value_in c f (put_channel c block filled channels)
            ≡ value_in c f
                (if t then Dict.insert c (filled_block block filled) channels else channels) =
        λ t e.
          ap
            (λ (t : Bool).
              value_in c f
                (if t then Dict.insert c (filled_block block filled) channels else channels))
            e in
      (
        elim (Bool-cases (has_value filled.values)) [
          | inl e ↦ put true e ∙ insert_own c f (filled_block block filled) channels ∙ v
          | inr e ↦
              let hidden = sym v ∙ has_value-none filled.values f e m in
              put false e
              ∙ retain_entry-none now (value_in c f channels) (cached (c, f)) hidden
              ∙ sym hidden
        ],
        entry,
      )

  pub channels_other :
      (keys : List String) (channels : Dict String EnergyBlock) (cached : LastValues) (c f : String)
      → has c keys ≡ false
      → let r = retain_channels now keys channels cached in
        (value_in c f r.0 ≡ value_in c f channels) × (r.1 (c, f) ≡ cached (c, f))
  unfolding retain_channels
  channels_other [] channels cached c f h = (refl, refl)
  channels_other (k ∷ ks) channels cached c f h =
      let other : (k == c) ≡ false = ground (arith, h) in
      let block = channel_of k channels in
      let filled = retain_fields now k energy_value_fields block.values cached in
      let (v, e) =
        channels_other ks (put_channel k block filled channels) filled.cached c f
          (ground (arith, h)) in
      (
        v ∙ put_channel-other k c f filled block channels other,
        e ∙ fields_other_prefix now k energy_value_fields block.values cached (c, f) other,
      )

  pub channels_own :
      (keys : List String) (channels : Dict String EnergyBlock) (cached : LastValues) (c f : String)
      → distinct keys ≡ true
      → has c keys ≡ true
      → has f energy_value_fields ≡ true
      → let r = retain_channels now keys channels cached in
        let own = retain_entry now (value_in c f channels) (cached (c, f)) in
        (value_in c f r.0 ≡ own.value) × (r.1 (c, f) ≡ own.entry)
  unfolding retain_channels
  channels_own [] channels cached c f d h m = cc
  channels_own (k ∷ ks) channels cached c f d h m =
      let block = channel_of k channels in
      let filled = retain_fields now k energy_value_fields block.values cached in
      let channels' = put_channel k block filled channels in
      elim (Bool-cases (k == c)) [
        | inl e ↦
            subst
              (λ j.
                let r = retain_channels now (k ∷ ks) channels cached in
                let own = retain_entry now (value_in j f channels) (cached (j, f)) in
                (value_in j f r.0 ≡ own.value) × (r.1 (j, f) ≡ own.entry))
              ((eq_iff k c).0 e)
              (let (v, entry) = channels_other ks channels' filled.cached k f (ground (arith, d)) in
                let (v', entry') = put_channel-own k f channels cached m in
                (v ∙ v', entry ∙ entry'))
        | inr e ↦
            let (v, entry) =
              channels_own ks channels' filled.cached c f (ground (arith, d)) (ground (arith, e, h))
                m in
            let same_value = put_channel-other k c f filled block channels e in
            let same_entry =
              fields_other_prefix now k energy_value_fields block.values cached (c, f) e in
            (
              v ∙ ap₂ (λ x y. (retain_entry now x y).value) same_value same_entry,
              entry ∙ ap₂ (λ x y. (retain_entry now x y).entry) same_value same_entry,
            )
      ]

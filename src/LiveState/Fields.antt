-- ===== src/LiveState/Fields.antt =====
-- app/device_live_state.py, `_retain_recent_values`: one loop over the fields of a block.
use smart_monitor_back_end.Base.{
  ℕ, ◌≡◌, ◌∙◌, refl, ap₂, subst, inl, inr, String, Bool, true, false, Bool-cases, List, [], ◌∷◌,
  arith, any, if◌then◌else◌, ◌==◌, string_eq, pair_eq, beq_self, eq_iff,
}
use smart_monitor_back_end.Base.Dict.{Dict}
use smart_monitor_back_end.Base.Json.{Number}
use smart_monitor_back_end.LiveState.Blocks.{set}
use smart_monitor_back_end.LiveState.Store.{
  LastValues, retain_entry, set_entry, Filled, retain_fields,
}

abbrev pub has : String → List String → Bool
has name names = any (λ n. n == name) names

-- No name occurs twice.
abbrev pub distinct : List String → Bool
distinct [] = true
distinct (n ∷ ns) = if has n ns then false else distinct ns

module _ (now : ℕ) (prefix : String) where
  abbrev fill : List String → Dict String Number → LastValues → Filled
  fill = retain_fields now prefix

  pub fields_other :
      (names : List String) (values : Dict String Number) (cached : LastValues) (f : String)
      → has f names ≡ false
      → ((fill names values cached).values f ≡ values f)
        × ((fill names values cached).cached (prefix, f) ≡ cached (prefix, f))
  unfolding retain_fields
  fields_other [] values cached f h = (refl, refl)
  fields_other (n ∷ ns) values cached f h = elim (Bool-cases (n == f)) [
    | inl e ↦ absurd (ground (arith, e, h))
    | inr e ↦
        let r = retain_entry now (values n) (cached (prefix, n)) in
        let rest : has f ns ≡ false = ground (arith, e, h) in
        let (v, c) =
          fields_other ns (set n r.value values) (set_entry (prefix, n) r.entry cached) f rest in
        (v ∙ rw e, c ∙ rw (e, beq_self prefix))
  ]

  pub fields_other_prefix :
      (names : List String) (values : Dict String Number) (cached : LastValues)
      (key : String × String)
      → (prefix == key.0) ≡ false
      → (fill names values cached).cached key ≡ cached key
  unfolding retain_fields
  fields_other_prefix [] values cached key h = refl
  fields_other_prefix (n ∷ ns) values cached key h =
      let r = retain_entry now (values n) (cached (prefix, n)) in
      fields_other_prefix ns (set n r.value values) (set_entry (prefix, n) r.entry cached) key h
      ∙ rw h

  -- The field of a loop: what `retain` gives for it alone.
  pub fields_own :
      (names : List String) (values : Dict String Number) (cached : LastValues) (f : String)
      → distinct names ≡ true
      → has f names ≡ true
      → let r = retain_entry now (values f) (cached (prefix, f)) in
        ((fill names values cached).values f ≡ r.value)
        × ((fill names values cached).cached (prefix, f) ≡ r.entry)
  unfolding retain_fields
  fields_own [] values cached f d h = cc
  fields_own (n ∷ ns) values cached f d h =
      let r = retain_entry now (values n) (cached (prefix, n)) in
      let values' = set n r.value values in
      let cached' = set_entry (prefix, n) r.entry cached in
      elim (Bool-cases (n == f)) [
        | inl e ↦
            let same : n ≡ f = (eq_iff n f).0 e in
            subst
              (λ g.
                let r = retain_entry now (values g) (cached (prefix, g)) in
                ((fill (n ∷ ns) values cached).values g ≡ r.value)
                × ((fill (n ∷ ns) values cached).cached (prefix, g) ≡ r.entry))
              same
              (let (v, c) = fields_other ns values' cached' n (ground (arith, d)) in
                (v ∙ rw (beq_self n), c ∙ rw (beq_self prefix, beq_self n)))
        | inr e ↦
            let (v, c) =
              fields_own ns values' cached' f (ground (arith, d)) (ground (arith, e, h)) in
            let same_value : values' f ≡ values f = rw e in
            let same_entry : cached' (prefix, f) ≡ cached (prefix, f) = rw (e, beq_self prefix) in
            (
              v ∙ ap₂ (λ x y. (retain_entry now x y).value) same_value same_entry,
              c ∙ ap₂ (λ x y. (retain_entry now x y).entry) same_value same_entry,
            )
      ]

-- ===== src/LiveState/Follows.antt =====
-- app/device_live_state.py: how an entry of the cache follows the reports of one value.
use smart_monitor_back_end.Base.{
  ℕ, ◌-◌, ◌≤◌, ◌≡◌, ◌∙◌, refl, inl, inr, ◌||◌, Bool-cases, Option, none, some, arith, ltb,
  if◌then◌else◌, string_eq, pair_eq,
}
use smart_monitor_back_end.Base.Json.{Number}
use smart_monitor_back_end.LiveState.Store.{live_value_hold, Entry, retain_entry}

-- A report that is at most 15 seconds old.
abbrev pub shown : ℕ → Option Entry → Option Number
shown t none = none
shown t (some (value, at)) = if ltb t at || ltb live_value_hold (t - at) then none else some value

abbrev pub latest : ℕ → Option Number → Option Entry → Option Entry
latest t none before = before
latest t (some value) before = some (value, t)

abbrev pub Past : ℕ → Option Entry → Type 0
Past t none = Unit
Past t (some (value, at)) = at ≤ t

-- From `t` on, the entry of the cache shows what the last report shows.
pub record Follows (t : ℕ) (entry last : Option Entry) : Type 0 where
  pub past : Past t entry
  pub same : (t' : ℕ) → t ≤ t' → shown t' entry ≡ shown t' last

Past-later : (t t' : ℕ) (e : Option Entry) → t ≤ t' → Past t e → Past t' e
Past-later t t' none h p = tt
Past-later t t' (some (v, at)) h p = omega (arith, h, p)

pub Follows-later : (t t' : ℕ) (e l : Option Entry) → t ≤ t' → Follows t e l → Follows t' e l
Follows-later t t' e l h r = record {
  past = Past-later t t' e h r.past;
  same = λ t'' k. r.same t'' (omega (arith, h, k));
}

-- An entry that is dropped shows nothing later.
kept-Follows :
    (now : ℕ) (e : Option Entry)
    → Past now e
    → let r = retain_entry now none e in
      (r.value ≡ shown now e) × Past now r.entry × ((t : ℕ) → now ≤ t → shown t r.entry ≡ shown t e)
unfolding retain_entry
kept-Follows now none p = (refl, tt, λ t h. refl)
kept-Follows now (some (v, at)) p =
    elim (Bool-cases (ltb now at || ltb live_value_hold (now - at))) [
      | inl old ↦ rw old (refl, tt, λ t h. ground (arith, old, h, p))
      | inr young ↦ rw young (refl, p, λ t h. refl)
    ]

pub retain_entry-Follows :
    (t now : ℕ) (v : Option Number) (e l : Option Entry)
    → t ≤ now
    → Follows t e l
    → let r = retain_entry now v e in
      (r.value ≡ shown now (latest now v l)) × Follows now r.entry (latest now v l)
unfolding retain_entry
retain_entry-Follows t now (some v) e l h f =
    (ground arith, record { past = omega arith; same = λ t' k. refl })
retain_entry-Follows t now none e l h f =
    let (v, past, same) = kept-Follows now e (Past-later t now e h f.past) in
    (
      v ∙ f.same now h,
      record { past = past; same = λ t' k. same t' k ∙ f.same t' (omega (arith, h, k)) },
    )

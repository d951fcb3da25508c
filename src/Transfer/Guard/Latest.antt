-- ===== src/Transfer/Guard/Latest.antt =====
-- app/device_transfer_guard.py: `latest_completed_transfer` among all transfers of the device.
use smart_monitor_back_end.Base.{
  ℕ, ◌≤◌, ◌≡◌, refl, Bool, true, false, Option, none, some, List, [], ◌∷◌, arith, All, Bool-cases,
  Option-cases, inl, inr, ◌||◌, ◌&&◌, ltb,
}
use smart_monitor_back_end.Database.{DeviceTransfer, completed_of}
use smart_monitor_back_end.Transfer.Guard.{latest_of, pick, comes_first, later_time, same_time}

-- `t` is effective no later than `at`
abbrev pub EffectiveBy : ℕ → Option ℕ → Type 0
EffectiveBy at none = ⊥
EffectiveBy at (some e) = e ≤ at

-- Every completed transfer of the device is effective by `at`.
abbrev pub AllEffectiveBy : ℕ → ℕ → List DeviceTransfer → Type 0
AllEffectiveBy device_id at =
    All (λ t. completed_of device_id t ≡ true → EffectiveBy at t.effective_at)

EffectiveBy-mono : (a b : ℕ) (e : Option ℕ) → a ≤ b → EffectiveBy a e → EffectiveBy b e
EffectiveBy-mono a b none h v = v
EffectiveBy-mono a b (some e) h v = omega arith

pub AllEffectiveBy-mono :
    (device_id a b : ℕ) (ts : List DeviceTransfer)
    → a ≤ b
    → AllEffectiveBy device_id a ts
    → AllEffectiveBy device_id b ts
AllEffectiveBy-mono device_id a b [] h v = tt
AllEffectiveBy-mono device_id a b (t ∷ ts) h v = (
  (λ c. EffectiveBy-mono a b t.effective_at h (v.0 c)),
  AllEffectiveBy-mono device_id a b ts h v.1,
)

pub latest_of-none :
    (device_id at : ℕ) (ts : List DeviceTransfer)
    → latest_of device_id ts ≡ none
    → AllEffectiveBy device_id at ts
unfolding latest_of
latest_of-none device_id at [] h = tt
latest_of-none device_id at (t ∷ ts) h = elim (Bool-cases (completed_of device_id t)) [
  | inl e ↦ absurd (ground arith)
  | inr e ↦ ((λ c. cc), latest_of-none device_id at ts (ground arith))
]

first_bounds :
    (a b : Option ℕ) (i : Bool) (at : ℕ)
    → (later_time a b || (same_time a b && i)) ≡ true
    → a ≡ some at
    → EffectiveBy at b
first_bounds none b i at h e = cc
first_bounds (some a) none i at h e = cc
first_bounds (some a) (some b) i at h e = ground arith

second_bounds :
    (a b : Option ℕ) (i : Bool) (at : ℕ)
    → (later_time a b || (same_time a b && i)) ≡ false
    → b ≡ some at
    → EffectiveBy at a
second_bounds a none i at h e = cc
second_bounds none (some b) i at h e = cc
second_bounds (some a) (some b) i at h e = ground arith

EffectiveBy-self : (at : ℕ) (e : Option ℕ) → e ≡ some at → EffectiveBy at e
EffectiveBy-self at none h = cc
EffectiveBy-self at (some e) h = ground arith

EffectiveBy-some : (at : ℕ) (e : Option ℕ) → EffectiveBy at e → (b : ℕ) × (e ≡ some b) × (b ≤ at)
EffectiveBy-some at none v = absurd v
EffectiveBy-some at (some b) v = (b, refl, v)

pick-bounds :
    (at : ℕ) (t w u : DeviceTransfer)
    → pick t (some w) ≡ u
    → u.effective_at ≡ some at
    → EffectiveBy at t.effective_at × EffectiveBy at w.effective_at
pick-bounds at t w u h e = elim (Bool-cases (comes_first t w)) [
  | inl c ↦
      let t_at : t.effective_at ≡ some at = ground (arith, h, e, c) in
      (
        EffectiveBy-self at t.effective_at t_at,
        first_bounds t.effective_at w.effective_at (ltb w.id t.id) at c t_at,
      )
  | inr c ↦
      let w_at : w.effective_at ≡ some at = ground (arith, h, e, c) in
      (
        second_bounds t.effective_at w.effective_at (ltb w.id t.id) at c w_at,
        EffectiveBy-self at w.effective_at w_at,
      )
]

pub latest_of-bound :
    (device_id at : ℕ) (ts : List DeviceTransfer) (u : DeviceTransfer)
    → latest_of device_id ts ≡ some u
    → u.effective_at ≡ some at
    → AllEffectiveBy device_id at ts
unfolding latest_of
latest_of-bound device_id at [] u h e = tt
latest_of-bound device_id at (t ∷ ts) u h e = elim (Bool-cases (completed_of device_id t)) [
  | inl c ↦ elim (Option-cases (latest_of device_id ts)) [
    | inl empty ↦ (
      (λ _. EffectiveBy-self at t.effective_at (ground (arith, h, e, empty, c))),
      latest_of-none device_id at ts empty,
    )
    | inr (w, rest) ↦
        let bounds = pick-bounds at t w u (ground (arith, h, rest, c)) e in
        let (b, w_at, below) = EffectiveBy-some at w.effective_at bounds.1 in
        (
          (λ _. bounds.0),
          AllEffectiveBy-mono device_id b at ts below (latest_of-bound device_id b ts w rest w_at),
        )
  ]
  | inr c ↦ ((λ d. cc), latest_of-bound device_id at ts u (ground arith) e)
]

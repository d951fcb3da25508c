-- ===== src/Base/Dict.antt =====
-- A Python `dict` whose order of entries the program never depends on: a finite-support function.
-- A comprehension over `items()` acts on each entry by itself.
use mathlib.Core.Bool.{Bool}
use mathlib.Core.Option.{Option, none, some}
use smart_monitor_back_end.Base.Tests.{if◌then◌else◌}
use smart_monitor_back_end.Base.Keys.{Eq, ◌==◌}

abbrev pub Dict {ℓ κ} : Type ℓ → Type κ → Type (ℓ ⊔ κ)
Dict K V = K → Option V

abbrev pub keep_if {ℓ} : {V : Type ℓ} → (V → Bool) → Option V → Option V
keep_if p none = none
keep_if p (some v) = if p v then some v else none

module _ {ℓ κ} {K : Type ℓ} {V : Type κ} where
  abbrev pub empty : Dict K V
  empty k = none

  -- d.get(k)
  abbrev pub get : Dict K V → K → Option V
  get d k = d k

  -- deletes every entry whose value fails the test
  abbrev pub retain : (V → Bool) → Dict K V → Dict K V
  retain p d k = keep_if p (d k)

module _ {ℓ κ} {K : Type ℓ} {V : Type κ} ⦃e : Eq K⦄ where
  -- d[k] = v
  abbrev pub insert : K → V → Dict K V → Dict K V
  insert k v d j = if k == j then some v else d j

  -- d.pop(k, None)
  abbrev pub erase : K → Dict K V → Dict K V
  erase k d j = if k == j then none else d j

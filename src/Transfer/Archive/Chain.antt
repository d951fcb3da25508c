-- ===== src/Transfer/Archive/Chain.antt =====
-- app/device_transfer_archive.py: the windows of a chain of epochs, in time.
use smart_monitor_back_end.Base.{
  ℕ, ◌≡◌, ◌≤◌, ◌<◌, ◌⊎◌, refl, subst, Bool, true, false, Option, some, List, [], ◌∷◌, arith, All,
  inl, inr,
}
use smart_monitor_back_end.Base.Http.{Error, ok, http_exception, raise_if, >>=-eq-ok, ok_injective}
use smart_monitor_back_end.Database.{DeviceTransfer}
use smart_monitor_back_end.Transfer.Archive.{Epoch, or_inconsistent, broken, chain}

-- Each window is nonempty and begins no earlier than `from` and the end of the one before.
abbrev pub InTime : ℕ → List Epoch → Type 0
InTime from [] = Unit
InTime from (e ∷ es) =
    (from ≤ e.window_start) × (e.window_start < e.window_end) × InTime e.window_end es

InTime-earlier : (a b : ℕ) (es : List Epoch) → a ≤ b → InTime b es → InTime a es
InTime-earlier a b [] h v = v
InTime-earlier a b (e ∷ es) h v = (omega (arith, v.0), v.1, v.2)

pub raise_if-false : (b : Bool) (e : Error) {u : Unit {0}} → raise_if b e ≡ ok u → b ≡ false
raise_if-false true e h = cc
raise_if-false false e h = refl

window_in_time :
    (owner from effective : ℕ) (t : DeviceTransfer)
    → broken owner from effective t ≡ false
    → (from < t.requested_at) × (t.requested_at ≤ effective)
window_in_time owner from effective t h = ground (arith, h)

pub chain-InTime :
    (owner from : ℕ) (id : Option ℕ) (ts : List DeviceTransfer) (es : List Epoch)
    → chain owner from id ts ≡ ok es
    → InTime from es
unfolding chain
chain-InTime owner from id [] es h = subst (InTime from) (ok_injective [] es h) tt
chain-InTime owner from id (t ∷ ts) es h =
    let (effective, e1, h1) = >>=-eq-ok (or_inconsistent t.effective_at) _ h in
    let (_, e2, h2) =
      >>=-eq-ok
        (raise_if (broken owner from effective t)
          (http_exception 409 "Ownership archive inconsistent"))
        _ h1 in
    let (rest, e3, h3) = >>=-eq-ok (chain t.next_owner_user_id effective (some t.id) ts) _ h2 in
    let (early, late) = window_in_time owner from effective t (raise_if-false _ _ e2) in
    subst (InTime from) (ok_injective _ es h3) (
      omega arith,
      early,
      InTime-earlier t.requested_at effective rest late
          (chain-InTime t.next_owner_user_id effective (some t.id) ts rest e3),
    )

-- `e` is one of the epochs
abbrev pub Among : Epoch → List Epoch → Type 0
Among e [] = ⊥
Among e (x ∷ xs) = (x ≡ e) ⊎ Among e xs

Among-later :
    (from : ℕ) (e : Epoch) (es : List Epoch) → InTime from es → Among e es → from ≤ e.window_start
Among-later from e [] v h = absurd h
Among-later from e (x ∷ xs) v (inl same) = subst (λ y. from ≤ y.window_start) same v.0
Among-later from e (x ∷ xs) v (inr there) =
    omega (arith, v.0, v.1, Among-later x.window_end e xs v.2 there)

-- `x` is `e`, or its window ends before that of `e`, or begins after it
abbrev pub Apart : Epoch → Epoch → Type 0
Apart e x = (x ≡ e) ⊎ ((x.window_end ≤ e.window_start) ⊎ (e.window_end ≤ x.window_start))

All-later :
    (from : ℕ) (e : Epoch) (es : List Epoch)
    → InTime from es
    → e.window_end ≤ from
    → All (Apart e) es
All-later from e [] v h = tt
All-later from e (x ∷ xs) v h =
    (inr (inr (omega (arith, v.0))), All-later x.window_end e xs v.2 (omega (arith, v.0, v.1)))

pub Among-Apart :
    (from : ℕ) (e : Epoch) (es : List Epoch) → InTime from es → Among e es → All (Apart e) es
Among-Apart from e [] v h = tt
Among-Apart from e (x ∷ xs) v (inl same) = (
  inl same,
  All-later x.window_end e xs v.2 (subst (λ y. y.window_end ≤ x.window_end) same (omega arith)),
)
Among-Apart from e (x ∷ xs) v (inr there) =
    (inr (inl (Among-later x.window_end e xs v.2 there)), Among-Apart x.window_end e xs v.2 there)

-- ===== src/Base/Rows.antt =====
-- Laws of the queries and updates on the rows of a table.
use Prim.Native.Nat.{◌≤◌}
use mathlib.Core.Path.{◌≡◌, refl}
use mathlib.Core.Logic.{◌⊎◌, inl, inr}
use mathlib.Core.Bool.{Bool, true, false, not}
use mathlib.Core.Option.{none, some}
use mathlib.Core.List.{List, [], ◌∷◌}
use native.Mathlib.Omega.{arith}
use smart_monitor_back_end.Base.Tests.{if◌then◌else◌, Bool-cases}
use smart_monitor_back_end.Base.Lists.{length, keep, first, any, update_where}

module _ {ℓ} {A : Type ℓ} where
  pub first-holds : (p : A → Bool) (xs : List A) (a : A) → first p xs ≡ some a → p a ≡ true
  first-holds p [] a h = cc
  first-holds p (x ∷ xs) a h = ground (arith, first-holds p xs a)

  pub keep-keep-not : (p : A → Bool) (xs : List A) → keep p (keep (λ x. not (p x)) xs) ≡ []
  keep-keep-not p [] = refl
  keep-keep-not p (x ∷ xs) = elim (Bool-cases (p x)) [
    | inl e ↦ rw e (keep-keep-not p xs)
    | inr e ↦ rw (e, e) (keep-keep-not p xs)
  ]

  -- A query that never selects a removed row does not see the removal.
  pub keep-keep_disjoint :
      (p q : A → Bool) (xs : List A)
      → ((x : A) → q x ≡ true → p x ≡ false)
      → keep q (keep (λ x. not (p x)) xs) ≡ keep q xs
  keep-keep_disjoint p q [] h = refl
  keep-keep_disjoint p q (x ∷ xs) h = ground (arith, h x, keep-keep_disjoint p q xs h)

  -- An update that leaves the row's key alone.
  pub first-update_where :
      (p q : A → Bool) (f : A → A) (xs : List A) (a : A)
      → ((x : A) → p (f x) ≡ p x)
      → first p xs ≡ some a
      → first p (update_where q f xs) ≡ some (if q a then f a else a)
  first-update_where p q f [] a h e = cc
  first-update_where p q f (x ∷ xs) a h e =
      ground (arith, h x, h a, first-update_where p q f xs a h)

  pub first-update_where-none :
      (p q : A → Bool) (f : A → A) (xs : List A)
      → ((x : A) → p (f x) ≡ p x)
      → first p xs ≡ none
      → first p (update_where q f xs) ≡ none
  first-update_where-none p q f [] h e = refl
  first-update_where-none p q f (x ∷ xs) h e =
      ground (arith, h x, first-update_where-none p q f xs h)

  -- A query whose test the update does not change on the rows that it touches.
  pub keep-update_where_disjoint :
      (p q : A → Bool) (f : A → A) (xs : List A)
      → ((x : A) → q x ≡ true → p x ≡ false)
      → ((x : A) → q x ≡ true → p (f x) ≡ false)
      → keep p (update_where q f xs) ≡ keep p xs
  keep-update_where_disjoint p q f [] h k = refl
  keep-update_where_disjoint p q f (x ∷ xs) h k =
      ground (arith, h x, k x, keep-update_where_disjoint p q f xs h k)

  -- A row found after an update is an old row, updated or not.
  pub first-of_updated :
      (p q : A → Bool) (f : A → A) (xs : List A) (c : A)
      → first p (update_where q f xs) ≡ some c
      → ((x : A) × (c ≡ f x)) ⊎ (q c ≡ false)
  first-of_updated p q f [] c h = cc
  first-of_updated p q f (x ∷ xs) c h = elim (Bool-cases (q x)) [
    | inl e ↦ elim (Bool-cases (p (f x))) [
      | inl e' ↦ inl (x, ground arith)
      | inr e' ↦ first-of_updated p q f xs c (ground arith)
    ]
    | inr e ↦ elim (Bool-cases (p x)) [
      | inl e' ↦ inr (ground arith)
      | inr e' ↦ first-of_updated p q f xs c (ground arith)
    ]
  ]

  pub keep-none : (p : A → Bool) (xs : List A) → first p xs ≡ none → keep p xs ≡ []
  keep-none p [] h = refl
  keep-none p (x ∷ xs) h = ground (arith, keep-none p xs)

  pub any-none : (p : A → Bool) (xs : List A) → any p xs ≡ false → keep p xs ≡ []
  any-none p [] h = refl
  any-none p (x ∷ xs) h = ground (arith, any-none p xs)

  -- Rows that an update can only take out of a query.
  pub length-keep-update_where :
      (p q : A → Bool) (f : A → A) (xs : List A)
      → ((x : A) → p (f x) ≡ true → p x ≡ true)
      → length (keep p (update_where q f xs)) ≤ length (keep p xs)
  length-keep-update_where p q f [] h = omega arith
  length-keep-update_where p q f (x ∷ xs) h =
      ground (arith, h x, length-keep-update_where p q f xs h)

  pub length-keep-keep :
      (p q : A → Bool) (xs : List A) → length (keep p (keep q xs)) ≤ length (keep p xs)
  length-keep-keep p q [] = omega arith
  length-keep-keep p q (x ∷ xs) = ground (arith, length-keep-keep p q xs)

  -- Removing all rows of a wider query empties a narrower one.
  pub keep-keep_implied :
      (p q : A → Bool) (xs : List A)
      → ((x : A) → p x ≡ true → q x ≡ true)
      → keep p (keep (λ x. not (q x)) xs) ≡ []
  keep-keep_implied p q [] h = refl
  keep-keep_implied p q (x ∷ xs) h = ground (arith, h x, keep-keep_implied p q xs h)

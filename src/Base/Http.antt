-- ===== src/Base/Http.antt =====
-- The errors that handlers raise, and the result of code that may raise.
use Prim.Native.Nat.{ℕ}
use Prim.Native.String.{String}
use mathlib.Core.Bool.{Bool, true, false}
use mathlib.Core.Option.{Option, none, some}
use mathlib.Core.Path.{◌≡◌, refl}
use native.Mathlib.Omega.{arith}

-- `HTTPException(status_code, detail)`, and the other exceptions by class and message.
pub data Error : Type 0 where
  http_exception : ℕ → String → Error
  value_error : String → Error
  permission_error : String → Error
  type_error : String → Error
  index_error : Error
  overflow_error : Error
  runtime_error : String → Error
  -- a value that a column of the database cannot hold
  data_error : Error
  -- `HistoryRecoveryError` of app/local_history_recovery.py
  history_recovery_error : String → Error
  -- `TransferRejected` of app/device_transfer_store.py
  transfer_rejected : String → Error
  -- `MeasurementOwnerUnavailable` of app/measurement_ownership.py
  owner_unavailable : String → Error
  -- SQLAlchemy's `IntegrityError`, when a constraint of the schema fails
  integrity_error : Error

-- What a call gives: a value, or the exception that it raised.
pub data Result {ℓ} (Value : Type ℓ) : Type ℓ where
  err : Error → Result Value
  ok : Value → Result Value

-- `if b: raise e`
abbrev pub raise_if : Bool → Error → Result (Unit {0})
raise_if false e = ok tt
raise_if true e = err e

infixl 5 ◌>>=◌ ◌>>◌
abbrev pub ◌>>=◌ {κ ℓ} : {B : Type κ} {A : Type ℓ} → Result B → (B → Result A) → Result A
err raised >>= rest = err raised
ok value >>= rest = rest value

abbrev pub ◌>>◌ {ℓ} : {A : Type ℓ} → Result (Unit {0}) → Result A → Result A
check >> rest = check >>= λ _. rest

-- `if b: raise TransferRejected(message)`, and the same for a row that is missing
abbrev pub reject_if : Bool → String → Result (Unit {0})
reject_if b message = raise_if b (transfer_rejected message)

abbrev pub or_reject {ℓ} : {A : Type ℓ} → Option A → String → Result A
or_reject none message = err (transfer_rejected message)
or_reject (some a) message = ok a

-- `except IntegrityError as error: raise TransferRejected(message) from error`
abbrev pub on_integrity {ℓ} : {A : Type ℓ} → String → Result A → Result A
on_integrity message (ok a) = ok a
on_integrity message (err integrity_error) = err (transfer_rejected message)
on_integrity message (err e) = err e

-- A block that returns has returned at its first step.
pub >>=-eq-ok {ℓ κ} :
    {B : Type ℓ} {A : Type κ} (step : Result B) (rest : B → Result A) {a : A}
    → (step >>= rest) ≡ ok a
    → (b : B) × (step ≡ ok b) × (rest b ≡ ok a)
>>=-eq-ok (err raised) rest h = cc
>>=-eq-ok (ok value) rest h = (value, refl, h)

pub on_integrity-ok {ℓ} :
    {A : Type ℓ} (message : String) (r : Result A) {a : A}
    → on_integrity message r ≡ ok a
    → r ≡ ok a
on_integrity-ok message (ok b) h = h
on_integrity-ok message (err integrity_error) h = cc
on_integrity-ok message (err (http_exception _ _)) h = cc
on_integrity-ok message (err _) h = cc

pub reject_if-ok :
    (b : Bool) (message : String) {u : Unit {0}} → reject_if b message ≡ ok u → b ≡ false
reject_if-ok true message h = cc
reject_if-ok false message h = refl

pub or_reject-ok {ℓ} :
    {A : Type ℓ} (o : Option A) (message : String) {a : A} → or_reject o message ≡ ok a → o ≡ some a
or_reject-ok none message h = cc
or_reject-ok (some b) message h = cc

pub ok_injective {ℓ} : {A : Type ℓ} (x y : A) → ok x ≡ ok y → x ≡ y
ok_injective x y h = ground (arith, h)

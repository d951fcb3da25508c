-- ===== src/Transfer/Notice.antt =====
-- app/device_transfer_notice.py: the French wording of the in-app notices.
-- `astimezone(ZoneInfo("Europe/Paris"))` rests on the time-zone database, which is a parameter.
use Prim.Native.String.{◌++◌ as str_append}
use smart_monitor_back_end.Base.{
  ℕ, ◌-◌, String, ◌||◌, Option, none, some, List, [], ◌∷◌, if◌then◌else◌,
}
use smart_monitor_back_end.Base.Http.{Result, ok, err, value_error, ◌>>=◌}
use smart_monitor_back_end.Base.Text.{str_ℕ, pad_two, strip, is_empty, has_code}

-- the fields of the local time that the notices print
pub record LocalTime : Type 0 where
  pub year : ℕ
  pub month : ℕ
  pub day : ℕ
  pub hour : ℕ
  pub minute : ℕ

-- timedelta(minutes=1), in microseconds
abbrev pub transfer_delay : ℕ
transfer_delay = 60000000

abbrev pub transfer_cause : String
transfer_cause = "physical_factory_reset_reassociation"

abbrev months : List String
months =
    "janvier" ∷ "février" ∷ "mars" ∷ "avril" ∷ "mai" ∷ "juin" ∷ "juillet" ∷ "août" ∷ "septembre"
    ∷ "octobre" ∷ "novembre" ∷ "décembre" ∷ []

abbrev get_or : List String → ℕ → String → String
get_or [] i d = d
get_or (x ∷ xs) ℕ.zero d = x
get_or (x ∷ xs) (ℕ.suc i) d = get_or xs i d

abbrev join : List String → String
join [] = ""
join (s ∷ ss) = str_append s (join ss)

unfoldable pub local_effective_date : (ℕ → LocalTime) → ℕ → String
unfolding str_ℕ pad_two
local_effective_date paris effective_at =
    let local = paris effective_at in
    join (
      str_ℕ local.day
      ∷ " "
      ∷ get_or months (local.month - 1) ""
      ∷ " "
      ∷ str_ℕ local.year
      ∷ " à "
      ∷ pad_two local.hour
      ∷ "h"
      ∷ pad_two local.minute
      ∷ [])

unfoldable pub device_label : String → Result String
unfolding strip has_code
device_label label =
    let clean = strip label in
    if is_empty clean || (has_code 13 clean || has_code 10 clean)
    then err (value_error "device label must be a nonempty single line")
    else ok clean

module _ (paris : ℕ → LocalTime) where
  unfoldable pub pending_transfer_notice : String → ℕ → Result String
  unfolding device_label local_effective_date
  pending_transfer_notice label expected_at = do
    clean ← device_label label
    ok (
        join (
          "Une action physique sur l'appareil "
          ∷ clean
          ∷ " a déclenché une demande de réassociation. Le délai minimal d'une minute expire le "
          ∷ local_effective_date paris expected_at
          ∷ ". Le retrait de votre compte dépend aussi des contrôles de sécurité. Ce n'est pas une anomalie logicielle."
          ∷ []))

  unfoldable pub completed_transfer_notice : String → ℕ → Result String
  unfolding device_label local_effective_date
  completed_transfer_notice label effective_at = do
    clean ← device_label label
    ok (
        join (
          "Le retrait de l'appareil "
          ∷ clean
          ∷ " de votre compte a été déclenché par une action physique sur cet appareil.\n\nDate d'effet : "
          ∷ local_effective_date paris effective_at
          ∷ "."
          ∷ []))

  unfoldable pub new_owner_transfer_notice : String → ℕ → Result String
  unfolding device_label local_effective_date
  new_owner_transfer_notice device_uid effective_at = do
    clean ← device_label device_uid
    ok (
        join (
          "L'appareil "
          ∷ clean
          ∷ " a été associé à votre compte le "
          ∷ local_effective_date paris effective_at
          ∷ " après une action physique sur l'appareil."
          ∷ []))

-- `x or y` on texts: a missing or empty name gives way to the identifier
abbrev or_text : Option String → String → String
or_text none d = d
or_text (some s) d = if is_empty s then d else s

-- The label of app/device_transfer_store.py and app/device_transfer_finalizer.py: the device's name,
-- or its identifier where there is no name or it is blank or of several lines.
unfoldable pub notice_label : Option String → String → String
unfolding strip has_code
notice_label name device_uid =
    let label = or_text name device_uid in
    if is_empty (strip label) || (has_code 13 label || has_code 10 label) then device_uid else label

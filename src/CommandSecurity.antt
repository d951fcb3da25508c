-- ===== src/CommandSecurity.antt =====
-- app/command_security.py: which commands an owner or a service may send to a device. The signing of
-- an authorized command is not part of this module.
pub mod Owners
pub mod Services
mod Tests
use Prim.Native.String.{◌++◌ as str_append}
use smart_monitor_back_end.Base.{
  String, Bool, true, false, not, ◌&&◌, Option, none, some, List, [], ◌∷◌, any, all, leb,
  if◌then◌else◌, ◌==◌, string_eq,
}
use smart_monitor_back_end.Base.Text.{codes}
use smart_monitor_back_end.Base.Hex.{is_uid}
use smart_monitor_back_end.Base.Http.{
  Error, Result, ok, err, http_exception, value_error, permission_error, type_error, raise_if,
  ◌>>=◌, ◌>>◌,
}
use smart_monitor_back_end.Authorization.{
  DeviceAction, send_diagnostic_command, change_configuration, run_maintenance,
  require_device_action,
}

pub data CommandRisk : Type 0 where
  low medium high critical : CommandRisk

pub record CommandPolicy : Type 0 where
  pub action : DeviceAction
  pub risk : CommandRisk
  pub cryptographic_protection : Bool
  pub confirmation_required : Bool

pub record AuthorizedDeviceCommand : Type 0 where
  pub device_uid : String
  pub command : String
  pub policy : CommandPolicy

abbrev pub policy : DeviceAction → CommandRisk → Bool → Bool → CommandPolicy
policy action risk protection confirmation = record {
  action = action;
  risk = risk;
  cryptographic_protection = protection;
  confirmation_required = confirmation;
}

-- `COMMAND_POLICIES`, in the order of the source
unfoldable pub command_policies : List (String × CommandPolicy)
command_policies =
    ("ping", policy send_diagnostic_command low false false)
    ∷ ("get_status", policy send_diagnostic_command medium true false)
    ∷ ("get_config", policy send_diagnostic_command medium true false)
    ∷ ("get_history", policy send_diagnostic_command medium true false)
    ∷ ("get_daily_energy", policy send_diagnostic_command medium true false)
    ∷ ("get_alarm_rules", policy send_diagnostic_command medium true false)
    ∷ ("ack_history", policy run_maintenance high true false)
    ∷ ("set_energy_tariff", policy change_configuration high true false)
    ∷ ("set_alarm_rule", policy change_configuration high true false)
    ∷ ("set_config", policy change_configuration critical true true)
    ∷ ("reset_alarm_rules", policy change_configuration critical true true)
    ∷ ("ota_update", policy run_maintenance critical true true)
    ∷ ("ota_activate", policy run_maintenance critical true true)
    ∷ ("restart", policy run_maintenance critical true true)
    ∷ ("factory_reset", policy run_maintenance critical true true)
    ∷ []

-- d.get(key) on a table of pairs
abbrev pub lookup {ℓ} : {A : Type ℓ} → String → List (String × A) → Option A
lookup key [] = none
lookup key ((k, a) ∷ rows) = if k == key then some a else lookup key rows

unfoldable pub policy_of : String → Option CommandPolicy
unfolding command_policies
policy_of command = lookup command command_policies

-- `SERVICE_COMMAND_ALLOWLIST`
abbrev pub service_command_allowlist : List (String × List String)
service_command_allowlist =
    ("local_history_recovery", "get_history" ∷ "ack_history" ∷ [])
    ∷ ("alarm_rule_recovery", "get_alarm_rules" ∷ "set_alarm_rule" ∷ [])
    ∷ []

abbrev pub expected_confirmation : String → String → String
expected_confirmation command device_uid = str_append command (str_append ":" device_uid)

abbrev pub or_raise {ℓ} : {A : Type ℓ} → Option A → Error → Result A
or_raise none e = err e
or_raise (some a) e = ok a

-- confirmation or ""
abbrev pub or_empty : Option String → String
or_empty none = ""
or_empty (some s) = s

abbrev pub is_ascii : String → Bool
is_ascii s = all (λ c. leb c 127) (codes s)

-- hmac.compare_digest on texts
abbrev pub compare_text : String → String → Result Bool
compare_text a b =
    if is_ascii a && is_ascii b
    then ok (a == b)
    else err (type_error "comparing strings with non-ASCII characters is not supported")

-- whether no confirmation is missing
abbrev pub is_confirmed : CommandPolicy → String → Option String → Result Bool
is_confirmed p expected confirmation =
    let compared = compare_text (or_empty confirmation) expected in
    if p.confirmation_required then compared else ok true

unfoldable pub authorize_device_command :
    String → String → String → Option String → Result AuthorizedDeviceCommand
unfolding policy_of require_device_action
authorize_device_command role device_uid command confirmation = do
  raise_if (not (is_uid device_uid))
      (http_exception 409 "Device hardware identity is not configured")
  p ← or_raise (policy_of command) (http_exception 400 "Unsupported device command")
  require_device_action role p.action
  confirmed ← is_confirmed p (expected_confirmation command device_uid) confirmation
  raise_if (not confirmed) (http_exception 428 "Sensitive command confirmation required")
  ok (record { device_uid = device_uid; command = command; policy = p })

-- allowed_commands is None or command not in allowed_commands
abbrev pub in_allowlist : Option (List String) → String → Bool
in_allowlist none command = false
in_allowlist (some commands) command = any (λ c. c == command) commands

unfoldable pub authorize_service_device_command :
    String → String → String → Result AuthorizedDeviceCommand
unfolding policy_of
authorize_service_device_command service device_uid command = do
  raise_if (not (is_uid device_uid)) (value_error "Device hardware identity is not configured")
  raise_if (not (in_allowlist (lookup service service_command_allowlist) command))
      (permission_error "Service is not authorized for this device command")
  p ← or_raise (policy_of command) (value_error "Unsupported device command")
  ok (record { device_uid = device_uid; command = command; policy = p })

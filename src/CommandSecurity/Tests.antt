-- ===== src/CommandSecurity/Tests.antt =====
-- Commands of an owner, of a member and of a service.
use smart_monitor_back_end.Base.{◌≡◌, ◌≢◌, refl, String, none, some, true, false}
use smart_monitor_back_end.Base.Hex.{is_uid}
use smart_monitor_back_end.Base.Http.{ok, err, http_exception, permission_error, type_error}
use smart_monitor_back_end.Authorization.{run_maintenance, send_diagnostic_command}
use smart_monitor_back_end.CommandSecurity.{
  AuthorizedDeviceCommand, policy, critical, medium, lookup, policy_of, in_allowlist,
  service_command_allowlist, authorize_device_command, authorize_service_device_command,
}
use smart_monitor_back_end.CommandSecurity.Owners.{Authorized, authorize_device_command-Authorized}
use smart_monitor_back_end.CommandSecurity.Services.{authorize_service_device_command-unattended}

abbrev uid : String
uid = "SM-0123456789AB"

abbrev reset : AuthorizedDeviceCommand
reset = record {
  device_uid = uid;
  command = "factory_reset";
  policy = policy run_maintenance critical true true;
}

resetting :
    authorize_device_command "owner" uid "factory_reset" (some "factory_reset:SM-0123456789AB")
    ≡ ok reset
unfolding authorize_device_command is_uid
resetting = refl

member_denied :
    authorize_device_command "member" uid "ping" none
    ≡ err (http_exception 403 "Owner access required")
unfolding authorize_device_command is_uid
member_denied = refl

unconfirmed_denied :
    authorize_device_command "owner" uid "restart" (some "restart")
    ≡ err (http_exception 428 "Sensitive command confirmation required")
unfolding authorize_device_command is_uid
unconfirmed_denied = refl

-- A confirmation with an accent is no answer but a TypeError.
accent_crashes :
    authorize_device_command "owner" uid "restart" (some "é")
    ≡ err (type_error "comparing strings with non-ASCII characters is not supported")
unfolding authorize_device_command is_uid
accent_crashes = refl

abbrev page : AuthorizedDeviceCommand
page = record {
  device_uid = uid;
  command = "get_history";
  policy = policy send_diagnostic_command medium true false;
}

recovering : authorize_service_device_command "local_history_recovery" uid "get_history" ≡ ok page
unfolding authorize_service_device_command is_uid
recovering = refl

service_denied :
    authorize_service_device_command "local_history_recovery" uid "set_alarm_rule"
    ≡ err (permission_error "Service is not authorized for this device command")
unfolding authorize_service_device_command is_uid
service_denied = refl

authorize_device_command-Authorized_example :
    Authorized "owner" uid "factory_reset" (some "factory_reset:SM-0123456789AB") reset
authorize_device_command-Authorized_example =
    authorize_device_command-Authorized "owner" uid "factory_reset"
      (some "factory_reset:SM-0123456789AB") reset resetting

authorize_service_device_command-unattended_example :
    (is_uid uid ≡ true)
    × (in_allowlist (lookup "local_history_recovery" service_command_allowlist) "get_history"
        ≡ true)
    × (policy_of "get_history" ≡ some page.policy)
    × (page.policy.cryptographic_protection ≡ true)
    × (page.policy.risk ≢ critical)
    × (page.policy.confirmation_required ≡ false)
authorize_service_device_command-unattended_example =
    authorize_service_device_command-unattended "local_history_recovery" uid "get_history" page
      recovering

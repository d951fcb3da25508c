-- ===== src/Authorization.antt =====
-- app/device_authorization.py: which actions a member of a device may take.
use smart_monitor_back_end.Base.{
  String, Bool, true, false, not, ◌&&◌, if◌then◌else◌, ◌==◌, string_eq,
}
use smart_monitor_back_end.Base.Http.{Result, ok, err, http_exception}

pub data DeviceAction : Type 0 where
  read_device read_history read_alarms acknowledge_alarm read_events send_diagnostic_command
        change_configuration run_maintenance manage_members :
      DeviceAction

abbrev pub in_member_actions : DeviceAction → Bool
in_member_actions read_device = true
in_member_actions read_history = true
in_member_actions read_alarms = true
in_member_actions acknowledge_alarm = true
in_member_actions read_events = true
in_member_actions send_diagnostic_command = false
in_member_actions change_configuration = false
in_member_actions run_maintenance = false
in_member_actions manage_members = false

-- _OWNER_ACTIONS is the set of all actions
abbrev pub in_owner_actions : DeviceAction → Bool
in_owner_actions action = true

abbrev pub in_owner_only_actions : DeviceAction → Bool
in_owner_only_actions action = in_owner_actions action && not (in_member_actions action)

-- action in _ACTIONS_BY_ROLE.get(role, frozenset())
unfoldable pub is_device_action_allowed : String → DeviceAction → Bool
is_device_action_allowed role action =
    if role == "owner"
    then in_owner_actions action
    else if role == "member"
    then in_member_actions action
    else false

unfoldable pub require_device_action : String → DeviceAction → Result (Unit {0})
unfolding is_device_action_allowed
require_device_action role action =
    if is_device_action_allowed role action
    then ok tt
    else err (
        http_exception 403 (
          if in_owner_only_actions action then "Owner access required" else "Device access denied"))

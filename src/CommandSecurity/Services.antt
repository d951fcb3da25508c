-- ===== src/CommandSecurity/Services.antt =====
-- app/command_security.py: `authorize_service_device_command` and its table.
use smart_monitor_back_end.Base.{
  ◌≡◌, ◌≢◌, refl, ap, subst, String, Bool, true, false, not, ◌&&◌, Option, none, some, List, [],
  ◌∷◌, arith, Bool-cases, inl, inr, all, any, ◌==◌, string_eq,
}
use smart_monitor_back_end.Base.Hex.{is_uid}
use smart_monitor_back_end.Base.Http.{
  ok, value_error, permission_error, raise_if, >>=-eq-ok, ok_injective,
}
use smart_monitor_back_end.CommandSecurity.{
  CommandRisk, critical, CommandPolicy, AuthorizedDeviceCommand, lookup, policy_of, or_raise,
  service_command_allowlist, in_allowlist, authorize_service_device_command,
}
use smart_monitor_back_end.CommandSecurity.Owners.{lookup-all, or_raise-ok, raise_if-ok}

abbrev is_critical : CommandRisk → Bool
is_critical critical = true
is_critical _ = false

not_critical : (r : CommandRisk) → is_critical r ≡ false → r ≢ critical
not_critical r h e = cc (ap is_critical e)

-- A command that is protected, is not critical, and needs nobody to confirm it.
abbrev pub unattended : Option CommandPolicy → Bool
unattended none = true
unattended (some p) =
    p.cryptographic_protection && (not (is_critical p.risk) && not p.confirmation_required)

allowed-all :
    (q : String → Bool) (commands : List String) (command : String)
    → all q commands ≡ true
    → any (λ c. c == command) commands ≡ true
    → q command ≡ true
allowed-all q [] command h found = absurd (ground (arith, found))
allowed-all q (c ∷ cs) command h found = elim (Bool-cases (c == command)) [
  | inl e ↦ subst (λ x. q x ≡ true) ((string_eq.beq_iff c command).0 e) (ground (arith, h))
  | inr e ↦ allowed-all q cs command (ground (arith, h)) (ground (arith, found, e))
]

allowlist_unattended :
    all (λ r. all (λ c. unattended (policy_of c)) r.1) service_command_allowlist ≡ true
unfolding policy_of
allowlist_unattended = refl

allowed_unattended :
    (o : Option (List String)) (service command : String)
    → lookup service service_command_allowlist ≡ o
    → in_allowlist o command ≡ true
    → unattended (policy_of command) ≡ true
allowed_unattended none service command found h = absurd (ground (arith, h))
allowed_unattended (some commands) service command found h =
    allowed-all (λ c. unattended (policy_of c)) commands command
      (lookup-all (λ cs. all (λ c. unattended (policy_of c)) cs) service service_command_allowlist
        commands allowlist_unattended found)
      h

-- A service is authorized only for a command of its own list, on a device with a canonical hardware
-- id, and such a command is protected cryptographically, has no critical risk, and is none that a
-- person has to confirm.
pub authorize_service_device_command-unattended :
    (service uid command : String) (a : AuthorizedDeviceCommand)
    → authorize_service_device_command service uid command ≡ ok a
    → (is_uid uid ≡ true)
      × (in_allowlist (lookup service service_command_allowlist) command ≡ true)
      × (policy_of command ≡ some a.policy)
      × (a.policy.cryptographic_protection ≡ true)
      × (a.policy.risk ≢ critical)
      × (a.policy.confirmation_required ≡ false)
unfolding authorize_service_device_command
authorize_service_device_command-unattended service uid command a h =
    let (_, e1, h1) =
      >>=-eq-ok
        (raise_if (not (is_uid uid)) (value_error "Device hardware identity is not configured")) _
        h in
    let (_, e2, h2) =
      >>=-eq-ok
        (raise_if (not (in_allowlist (lookup service service_command_allowlist) command))
          (permission_error "Service is not authorized for this device command"))
        _ h1 in
    let (p, e3, h3) =
      >>=-eq-ok (or_raise (policy_of command) (value_error "Unsupported device command")) _ h2 in
    let found : policy_of command ≡ some p = or_raise-ok (policy_of command) _ p e3 in
    let listed : in_allowlist (lookup service service_command_allowlist) command ≡ true =
      ground (arith, raise_if-ok _ _ e2) in
    let same_policy : p ≡ a.policy =
      ap (λ (x : AuthorizedDeviceCommand). x.policy)
        (ok_injective (record { device_uid = uid; command = command; policy = p }) a h3) in
    let safe : unattended (some a.policy) ≡ true =
      subst (λ x. unattended (some x) ≡ true) same_policy
        (subst (λ o. unattended o ≡ true) found
          (allowed_unattended (lookup service service_command_allowlist) service command refl
            listed)) in
    (
      ground (arith, raise_if-ok _ _ e1),
      listed,
      subst (λ x. policy_of command ≡ some x) same_policy found,
      ground (arith, safe),
      not_critical a.policy.risk (ground (arith, safe)),
      ground (arith, safe),
    )

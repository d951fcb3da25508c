-- ===== src/CommandSecurity/Owners.antt =====
-- app/command_security.py: `authorize_device_command` and the table of policies.
use smart_monitor_back_end.Base.{
  ◌≡◌, ◌⊎◌, refl, sym, ◌∙◌, ap, subst, String, Bool, true, false, not, ◌&&◌, Option, none, some,
  List, [], ◌∷◌, arith, Bool-cases, inl, inr, all, if◌then◌else◌, ◌==◌, string_eq,
}
use smart_monitor_back_end.Base.Hex.{is_uid}
use smart_monitor_back_end.Base.Http.{
  Error, ok, err, http_exception, raise_if, >>=-eq-ok, ok_injective,
}
use smart_monitor_back_end.Authorization.{
  DeviceAction, in_owner_only_actions, is_device_action_allowed, require_device_action,
}
use smart_monitor_back_end.CommandSecurity.{
  CommandRisk, low, critical, CommandPolicy, AuthorizedDeviceCommand, command_policies, lookup,
  policy_of, or_raise, or_empty, is_confirmed, compare_text, is_ascii, expected_confirmation,
  authorize_device_command,
}

-- An entry of a table has what every entry of it has.
pub lookup-all {ℓ} :
    {A : Type ℓ} (q : A → Bool) (key : String) (rows : List (String × A)) (a : A)
    → all (λ r. q r.1) rows ≡ true
    → lookup key rows ≡ some a
    → q a ≡ true
lookup-all q key [] a h found = absurd (ground (arith, found))
lookup-all q key ((k, b) ∷ rows) a h found = ground (arith, h, found, lookup-all q key rows a)

-- What the table of policies promises of a policy: an action of owners, and, for every risk above the
-- lowest, a cryptographic protection; a critical command has to be confirmed, and no other one.
abbrev is_critical : CommandRisk → Bool
is_critical critical = true
is_critical _ = false

abbrev is_low : CommandRisk → Bool
is_low low = true
is_low _ = false

abbrev same : Bool → Bool → Bool
same true b = b
same false b = not b

abbrev pub sound : CommandPolicy → Bool
sound p =
    in_owner_only_actions p.action
    && (same (not (is_low p.risk)) p.cryptographic_protection
        && same (is_critical p.risk) p.confirmation_required)

sound-action : (p : CommandPolicy) → sound p ≡ true → in_owner_only_actions p.action ≡ true
sound-action p h = ground (arith, h)

policies_sound : all (λ r. sound r.1) command_policies ≡ true
unfolding command_policies
policies_sound = refl

pub policy_of-sound :
    (command : String) (p : CommandPolicy) → policy_of command ≡ some p → sound p ≡ true
policy_of-sound command p h =
    lookup-all sound command command_policies p policies_sound (unfold policy_of in h)

pub or_raise-ok {ℓ} :
    {A : Type ℓ} (o : Option A) (e : Error) (a : A) → or_raise o e ≡ ok a → o ≡ some a
or_raise-ok none e a h = absurd (ground (arith, h))
or_raise-ok (some b) e a h = ground (arith, h)

pub raise_if-ok : (b : Bool) (e : Error) {u : Unit {0}} → raise_if b e ≡ ok u → b ≡ false
raise_if-ok true e h = cc
raise_if-ok false e h = refl

-- Only an owner passes the test on an action that members may not take.
owner_passes :
    (role : String) (action : DeviceAction) {u : Unit {0}}
    → in_owner_only_actions action ≡ true
    → require_device_action role action ≡ ok u
    → (role == "owner") ≡ true
unfolding require_device_action is_device_action_allowed
owner_passes role action own h = elim (Bool-cases (role == "owner")) [
  | inl e ↦ e
  | inr e ↦ absurd (ground (arith, h, own, e))
]

-- What an authorized command has passed.
pub record Authorized (role uid command : String) (confirmation : Option String)
    (a : AuthorizedDeviceCommand) : Type 0 where
  pub owner : role ≡ "owner"
  pub is_canonical : is_uid uid ≡ true
  pub known_policy : policy_of command ≡ some a.policy
  pub names_device : a.device_uid ≡ uid
  pub names_command : a.command ≡ command
  pub is_sound : sound a.policy ≡ true
  pub confirmed :
      (a.policy.confirmation_required ≡ false)
      ⊎ (or_empty confirmation ≡ expected_confirmation command uid)

not-false : (b : Bool) → not b ≡ false → b ≡ true
not-false true h = refl
not-false false h = cc

compare_branch : (b c : Bool) (e : Error) → (if b then ok c else err e) ≡ ok true → c ≡ true
compare_branch true c e h = ok_injective c true h
compare_branch false c e h = absurd (ground (arith, h))

compare_text-ok : (a b : String) → compare_text a b ≡ ok true → a ≡ b
compare_text-ok a b h =
    (string_eq.beq_iff a b).0 (compare_branch (is_ascii a && is_ascii b) (a == b) _ h)

confirmation_cases :
    (p : CommandPolicy) (expected : String) (confirmation : Option String)
    → is_confirmed p expected confirmation ≡ ok true
    → (p.confirmation_required ≡ false) ⊎ (or_empty confirmation ≡ expected)
confirmation_cases p expected confirmation h = elim (Bool-cases p.confirmation_required) [
  | inl e ↦ inr (compare_text-ok (or_empty confirmation) expected (sym (rw e refl) ∙ h))
  | inr e ↦ inl e
]

-- A user's command is authorized only for the owner of the device (no member can send any command),
-- for a device with a canonical hardware id, and for a command of the table. Every command above the
-- lowest risk is protected cryptographically, and a critical one has been confirmed with the text
-- that names both the command and the device.
pub authorize_device_command-Authorized :
    (role uid command : String) (confirmation : Option String) (a : AuthorizedDeviceCommand)
    → authorize_device_command role uid command confirmation ≡ ok a
    → Authorized role uid command confirmation a
unfolding authorize_device_command
authorize_device_command-Authorized role uid command confirmation a h =
    let (_, e1, h1) =
      >>=-eq-ok
        (raise_if (not (is_uid uid))
          (http_exception 409 "Device hardware identity is not configured"))
        _ h in
    let (p, e2, h2) =
      >>=-eq-ok (or_raise (policy_of command) (http_exception 400 "Unsupported device command")) _
        h1 in
    let (_, e3, h3) = >>=-eq-ok (require_device_action role p.action) _ h2 in
    let (confirmed, e4, h4) =
      >>=-eq-ok (is_confirmed p (expected_confirmation command uid) confirmation) _ h3 in
    let (_, e5, h5) =
      >>=-eq-ok
        (raise_if (not confirmed) (http_exception 428 "Sensitive command confirmation required")) _
        h4 in
    let given : confirmed ≡ true = not-false confirmed (raise_if-ok _ _ e5) in
    let found : policy_of command ≡ some p = or_raise-ok (policy_of command) _ p e2 in
    let well : sound p ≡ true = policy_of-sound command p found in
    let built : record { device_uid = uid; command = command; policy = p } ≡ a =
      ok_injective _ a h5 in
    let same_policy : p ≡ a.policy = ap (λ (x : AuthorizedDeviceCommand). x.policy) built in
    record {
      owner =
          (string_eq.beq_iff role "owner").0 (owner_passes role p.action (sound-action p well) e3);
      is_canonical = not-false (is_uid uid) (raise_if-ok _ _ e1);
      known_policy = subst (λ x. policy_of command ≡ some x) same_policy found;
      names_device = sym (ap (λ (x : AuthorizedDeviceCommand). x.device_uid) built);
      names_command = sym (ap (λ (x : AuthorizedDeviceCommand). x.command) built);
      is_sound = subst (λ x. sound x ≡ true) same_policy well;
      confirmed =
          subst
            (λ x.
              (x.confirmation_required ≡ false)
              ⊎ (or_empty confirmation ≡ expected_confirmation command uid))
            same_policy
            (confirmation_cases p (expected_confirmation command uid) confirmation
              (e4 ∙ ap ok given));
    }

-- ===== src/Firewall/Plans.antt =====
-- firewall_manager.cpp: `FirewallManager`. Its state is the active plan, `active_plan_`.
use open_autosar.Base.{
  ℕ, ◌+◌, ◌==◌, ltb, Bool, true, false, not, ◌&&◌, String, has_text, text_less, concat, List, [],
  ◌∷◌, ◌++◌, is_nil, length, Option, none, some, sort_by, if◌then◌else◌, Result, from_value,
  from_error,
}
use open_autosar.Access.{Principal, Operation, ResourceKind, AuthorizationRequest, SecurityPolicy}
use open_autosar.Access.Policy.{authorize, allowed}
use open_autosar.Firewall.{
  Direction, is_ingress, Protocol, RuleAction, is_allow, EnforcementBackend, EndpointSelector,
  FirewallRule, FirewallPolicy, CompiledFirewallRule, FirewallPlan, FirewallInstallReceipt,
}
use open_autosar.Firewall.Validation.{make_error, validate_rule}
use open_autosar.Firewall.Expressions.{compile_expression}

abbrev pub loopback : EndpointSelector
loopback = record { cidr = "127.0.0.0/8"; port = none }

abbrev pub loopback_rule : Direction → FirewallRule
loopback_rule direction = record {
  rule_id = if is_ingress direction then "openautosar-loopback-in" else "openautosar-loopback-out";
  direction = direction;
  action = RuleAction.allow;
  protocol = Protocol.any;
  interface_name = "lo";
  source = loopback;
  destination = loopback;
  service_instance = "platform-loopback";
  priority = 0;
  enabled = true;
  audit = false;
}

abbrev pub anywhere : EndpointSelector
anywhere = record { cidr = "0.0.0.0/0"; port = none }

abbrev pub default_rule : Direction → RuleAction → FirewallRule
default_rule direction action = record {
  rule_id =
      if is_ingress direction then "openautosar-default-ingress" else "openautosar-default-egress";
  direction = direction;
  action = action;
  protocol = Protocol.any;
  interface_name = "tap-openautosar0";
  source = anywhere;
  destination = anywhere;
  service_instance = "platform-default";
  priority = 4294967295;
  enabled = true;
  audit = true;
}

abbrev pub compile_rule : FirewallRule → EnforcementBackend → CompiledFirewallRule
compile_rule rule backend = record {
  rule_id = rule.rule_id;
  backend = backend;
  direction = rule.direction;
  action = rule.action;
  protocol = rule.protocol;
  expression = compile_expression rule backend;
  audit_key = if rule.audit then concat ("firewall:" ∷ rule.rule_id ∷ []) else "";
}

-- The first loop of `Compile`.
unfoldable pub enabled_rules : List FirewallRule → List FirewallRule
enabled_rules [] = []
enabled_rules (rule ∷ rules) =
    let rest = enabled_rules rules in if rule.enabled then rule ∷ rest else rest

unfoldable pub disabled_count : List FirewallRule → ℕ
disabled_count [] = 0
disabled_count (rule ∷ rules) =
    let rest = disabled_count rules in if rule.enabled then rest else rest + 1

-- The rules that the platform adds.
abbrev pub platform_rules : FirewallPolicy → List FirewallRule
platform_rules policy =
    (if policy.allow_loopback
      then loopback_rule Direction.ingress ∷ loopback_rule Direction.egress ∷ []
      else [])
    ++ (default_rule Direction.ingress policy.default_ingress
        ∷ default_rule Direction.egress policy.default_egress
        ∷ [])

abbrev pub before : FirewallRule → FirewallRule → Bool
before left right =
    if left.priority == right.priority
    then text_less left.rule_id right.rule_id
    else ltb left.priority right.priority

-- `std::sort` leaves open how rules of one priority and identifier stand; one of them is refused as
-- a duplicate, or an earlier one as invalid.
abbrev pub sorted_rules : FirewallPolicy → List FirewallRule
sorted_rules policy = sort_by before (enabled_rules policy.rules ++ platform_rules policy)

abbrev pub prepend :
    CompiledFirewallRule → Result (List CompiledFirewallRule) → Result (List CompiledFirewallRule)
prepend compiled (from_error e) = from_error e
prepend compiled (from_value rest) = from_value (compiled ∷ rest)

-- The loop over the sorted rules, with `seen_ids`.
unfoldable pub compile_rules :
    FirewallPolicy → List String → List FirewallRule → Result (List CompiledFirewallRule)
compile_rules policy seen_ids [] = from_value []
compile_rules policy seen_ids (rule ∷ rules) =
    let rest = compile_rules policy (seen_ids ++ (rule.rule_id ∷ [])) rules in
    if has_text rule.rule_id seen_ids
    then from_error (make_error "firewall rule id is duplicated")
    else elim (validate_rule rule policy) [
      | from_error e ↦ from_error e
      | from_value _ ↦ prepend (compile_rule rule policy.backend) rest
    ]

abbrev pub denies_by_default : FirewallPolicy → Bool
denies_by_default policy =
    not (is_allow policy.default_ingress) && not (is_allow policy.default_egress)

unfoldable pub compile : FirewallPolicy → Result FirewallPlan
compile policy =
    if policy.max_rules == 0
    then from_error (make_error "firewall rule budget is zero")
    else if policy.require_default_deny && not (denies_by_default policy)
    then from_error (make_error "firewall policy must enforce default deny")
    else if ltb policy.max_rules (length (enabled_rules policy.rules))
    then from_error (make_error "firewall rule budget exceeded")
    else elim (compile_rules policy [] (sorted_rules policy)) [
      | from_error e ↦ from_error e
      | from_value compiled ↦ from_value (record {
        rules = compiled;
        disabled_rule_count = disabled_count policy.rules;
        default_deny_enforced = denies_by_default policy;
      })
    ]

abbrev pub install_request : Principal → AuthorizationRequest
install_request principal = record {
  principal = principal;
  resource = record {
    kind = ResourceKind.firewall;
    identifier = "openautosar-firewall";
    policy_id = "openautosar-firewall";
  };
  operation = Operation.install_firewall_rule;
  action = "install-firewall-plan";
}

unfoldable pub install_plan :
    Option FirewallPlan
    → Principal
    → SecurityPolicy
    → FirewallPlan
    → Option FirewallPlan × Result FirewallInstallReceipt
install_plan active principal access plan =
    let decision = authorize access (install_request principal) in
    if is_nil plan.rules
    then (active, from_error (make_error "firewall plan is empty"))
    else if not (allowed decision)
    then (active, from_error (record { domain = "firewall"; message = decision.reason }))
    else (
      some plan,
      from_value (record {
        installed = true;
        reason = "firewall plan installed in staged model";
        installed_rule_count = length plan.rules;
      }),
    )

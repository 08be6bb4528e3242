-- ===== src/Firewall/Examples.antt =====
-- The theorems on the firewall at concrete inputs.
use mathlib.Core.List.{Mem}
use open_autosar.Base.{
  ◌≡◌, refl, Bool, true, false, List, [], ◌∷◌, All, all_codes, Option, none, some, Result,
  from_value, from_error, map,
}
use open_autosar.Access.{Decision, Principal, SecurityPolicy}
use open_autosar.Firewall.{
  Direction, Protocol, RuleAction, EnforcementBackend, FirewallRule, FirewallPolicy,
  CompiledFirewallRule, FirewallPlan,
}
use open_autosar.Firewall.Plans.{compile_rule, sorted_rules, compile}
use open_autosar.Firewall.Soundness.{Sound, compile-Sound}
use open_autosar.Firewall.Installation.{Call, run, Installs, active_permitted}
use open_autosar.Firewall.Addresses.{is_plain}
use open_autosar.Firewall.Injection.{compile_plain}

abbrev rule : FirewallRule
rule = record {
  rule_id = "allow-someip";
  direction = Direction.ingress;
  action = RuleAction.allow;
  protocol = Protocol.udp;
  interface_name = "eth0";
  source = record { cidr = "10.0.0.0/24"; port = none };
  destination = record { cidr = "10.0.0.1/32"; port = some 30509 };
  service_instance = "";
  priority = 10;
  enabled = true;
  audit = true;
}

abbrev policy : FirewallPolicy
policy = record {
  backend = EnforcementBackend.nftables;
  default_ingress = RuleAction.deny;
  default_egress = RuleAction.deny;
  allow_loopback = true;
  require_default_deny = true;
  max_rules = 4;
  allowed_interfaces = [];
  rules = record rule { rule_id = "off"; enabled = false } ∷ rule ∷ [];
}

abbrev plan : FirewallPlan
plan = record {
  rules = map (λ r. compile_rule r EnforcementBackend.nftables) (sorted_rules policy);
  disabled_rule_count = 1;
  default_deny_enforced = true;
}

compiled : compile policy ≡ from_value plan
unfolding compile open_autosar.Firewall.Plans.enabled_rules
    open_autosar.Firewall.Plans.compile_rules open_autosar.Base.sort_by open_autosar.Base.insert_by
    open_autosar.Firewall.Validation.validate_rule open_autosar.Firewall.Tokens.is_safe_token
    open_autosar.Firewall.Tokens.is_safe_interface open_autosar.Firewall.Cidr.is_valid_codes
    open_autosar.Firewall.Cidr.find_code open_autosar.Firewall.Cidr.parse_number
    open_autosar.Firewall.Cidr.digits_value open_autosar.Firewall.Cidr.read_octets
    open_autosar.Firewall.Plans.disabled_count
compiled = refl

compile-Sound_example : Sound policy plan (sorted_rules policy)
compile-Sound_example = compile-Sound policy plan compiled

compile_plain_example :
    All (λ (c : CompiledFirewallRule). all_codes is_plain c.expression ≡ true) plan.rules
compile_plain_example = compile_plain policy plan compiled

abbrev call : Call
call = record {
  principal = record {
    application_id = "firewall";
    machine_id = "m1";
    security_label = "system";
    roles = [];
    authenticated = true;
    remote = false;
  };
  access = record {
    production_mode = true;
    remote_diagnostics_allowed = false;
    default_decision = Decision.allow;
    rules = [];
  };
  plan = plan;
}

installed : run none (call ∷ []) ≡ some plan
unfolding run open_autosar.Firewall.Plans.install_plan open_autosar.Access.Policy.authorize
    open_autosar.Access.Policy.scan_rules open_autosar.Access.Policy.is_diagnostic_operation
    open_autosar.Base.sort_by open_autosar.Base.insert_by open_autosar.Firewall.Plans.enabled_rules
installed = refl

active_permitted_example : (c : Call) × Mem c (call ∷ []) × Installs plan c
active_permitted_example = active_permitted (call ∷ []) plan installed

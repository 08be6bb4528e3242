-- ===== src/Access/Examples.antt =====
-- The theorems on access, trust and security events at concrete inputs.
use open_autosar.Base.{String, ◌+◌, ◌≤◌, ◌≡◌, refl, true, false, [], ◌∷◌, length, arith, from_value}
use open_autosar.Access.{
  Decision, allow, deny, ResourceKind, Operation, SecuritySeverity, Principal, AuthorizationRequest,
  AccessRule, SecurityPolicy, SignerTrust, SecurityEvent,
}
use open_autosar.Access.Policy.{authorize}
use open_autosar.Access.Trust.{revoke_signer, is_signer_trusted}
use open_autosar.Access.Events.{SecurityEventCollector, same_aggregation_key, record_event}
use open_autosar.Access.Decisions.{reference, authorize-reference}
use open_autosar.Access.Revocation.{trusts, revokes, run, revoked_untrusted}
use open_autosar.Access.Counting.{total, lost, record_event-counts}

abbrev rule : Decision → AccessRule
rule decision = record {
  decision = decision;
  operations = Operation.install_firewall_rule ∷ [];
  resource_kinds = ResourceKind.firewall ∷ [];
  resource_prefixes = "bridge/" ∷ [];
  principal_ids = [];
  machine_ids = [];
  roles = [];
  require_authenticated = true;
  allow_remote = false;
  reason = "";
}

abbrev policy : SecurityPolicy
policy = record {
  production_mode = true;
  remote_diagnostics_allowed = false;
  default_decision = deny;
  rules = rule allow ∷ rule deny ∷ [];
}

abbrev request : AuthorizationRequest
request = record {
  principal = record {
    application_id = "firewall";
    machine_id = "m1";
    security_label = "system";
    roles = [];
    authenticated = true;
    remote = false;
  };
  resource = record { kind = ResourceKind.firewall; identifier = "bridge/br0"; policy_id = "" };
  operation = Operation.install_firewall_rule;
  action = "install";
}

authorize-reference_example : (authorize policy request).decision ≡ reference policy request
authorize-reference_example = authorize-reference policy request

-- The rule that denies stands after the rule that allows, and wins.
denied : (authorize policy request).decision ≡ deny
unfolding authorize open_autosar.Access.Policy.scan_rules open_autosar.Access.Policy.matches_rule
    open_autosar.Access.Policy.matches_any_prefix open_autosar.Access.Policy.has_any_role
denied = refl

abbrev signer : String → SignerTrust
signer id = record {
  signer_id = id;
  key_slot = "slot";
  certificate_id = "c";
  minimum_counter = 2;
  revoked = false;
}

revoked_untrusted_example :
    is_signer_trusted
      (run (revoke_signer (signer "a" ∷ []) "a").0 (trusts (signer "b") ∷ revokes "b" ∷ []))
      "a"
      5
    ≡ false
revoked_untrusted_example =
    revoked_untrusted (signer "a" ∷ []) "a" (trusts (signer "b") ∷ revokes "b" ∷ []) 5
      (refl, (refl, tt))

abbrev event : SecurityEvent
event = record {
  source = "firewall";
  category = "rule-denied";
  severity = SecuritySeverity.warning;
  principal_id = "p";
  resource_id = "r";
  operation = Operation.install_firewall_rule;
  detail = "d";
  count = 0;
  timestamp_ms = 10;
}

abbrev collector : SecurityEventCollector
collector = record {
  policy = record { max_events = 2; aggregation_window_ms = 100 };
  events = record event { detail = "x"; count = 3 } ∷ record event { detail = "y"; count = 2 } ∷ [];
}

recorded : (record_event collector event).1 ≡ from_value true
unfolding record_event
recorded = refl

record_event-counts_example :
    (length (record_event collector event).0.events ≤ 2)
    × (total (record_event collector event).0.events + 3 ≡ total (collector.events) + 1)
unfolding total lost same_aggregation_key
record_event-counts_example =
    record_event-counts collector event (omega arith) (omega arith) (omega arith) recorded

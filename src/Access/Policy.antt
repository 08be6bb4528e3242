-- ===== src/Access/Policy.antt =====
-- identity_access_manager.cpp: `AccessPolicyEngine`. Its state is the policy.
use open_autosar.Base.{
  Bool, true, false, not, ◌&&◌, ◌||◌, String, is_empty, has_text, starts_with, List, [], ◌∷◌, ◌++◌,
  is_nil, any_of, Option, none, some, if◌then◌else◌,
}
use open_autosar.Access.{
  Decision, allow, deny, is_deny, Operation, same_operation, same_kind, SecuritySeverity, info,
  warning, critical, AuthorizationRequest, AuthorizationDecision, AccessRule, SecurityPolicy,
}

unfoldable pub has_any_role : List String → List String → Bool
has_any_role principal_roles rule_roles =
    if is_nil rule_roles then true else any_of (λ role. has_text role rule_roles) principal_roles

unfoldable pub matches_any_prefix : String → List String → Bool
matches_any_prefix value prefixes =
    if is_nil prefixes then true else any_of (λ prefix. starts_with value prefix) prefixes

unfoldable pub matches_rule : AccessRule → AuthorizationRequest → Bool
matches_rule rule request =
    if not (is_nil rule.operations)
      && not (any_of (λ o. same_operation o request.operation) rule.operations)
    then false
    else if not (is_nil rule.resource_kinds)
        && not (any_of (λ k. same_kind k request.resource.kind) rule.resource_kinds)
    then false
    else if not (matches_any_prefix request.resource.identifier rule.resource_prefixes)
        && not (matches_any_prefix request.resource.policy_id rule.resource_prefixes)
    then false
    else if not (is_nil rule.principal_ids)
        && not (has_text request.principal.application_id rule.principal_ids)
    then false
    else if not (is_nil rule.machine_ids)
        && not (has_text request.principal.machine_id rule.machine_ids)
    then false
    else if not (has_any_role request.principal.roles rule.roles)
    then false
    else if rule.require_authenticated && not request.principal.authenticated
    then false
    else rule.allow_remote || not request.principal.remote

unfoldable pub is_diagnostic_operation : Operation → Bool
is_diagnostic_operation o =
    same_operation o Operation.diagnostic_read
    || same_operation o Operation.diagnostic_security_access
    || same_operation o Operation.diagnostic_clear_dtc
    || same_operation o Operation.diagnostic_routine_control

-- `ToString` of a decision.
abbrev pub decision_text : Decision → String
decision_text allow = "Allow"
decision_text deny = "Deny"

abbrev pub decision_severity : Decision → SecuritySeverity
decision_severity allow = info
decision_severity deny = warning

abbrev pub rule_decision : AccessRule → AuthorizationDecision
rule_decision rule = record {
  decision = rule.decision;
  severity = decision_severity rule.decision;
  reason = if is_empty rule.reason then decision_text rule.decision else rule.reason;
}

-- The loop over the rules, with the last matching rule that allows: a matching rule that denies ends
-- it.
unfoldable pub scan_rules :
    List AccessRule
    → AuthorizationRequest
    → Option AuthorizationDecision
    → Option AuthorizationDecision
scan_rules [] request allowed = allowed
scan_rules (rule ∷ rules) request allowed =
    let matched = matches_rule rule request in
    let rest = scan_rules rules request (if matched then some (rule_decision rule) else allowed) in
    if matched && is_deny rule.decision then some (rule_decision rule) else rest

abbrev pub critical_denial : String → AuthorizationDecision
critical_denial reason = record { decision = deny; severity = critical; reason = reason }

abbrev pub default_decision_of : SecurityPolicy → AuthorizationDecision
default_decision_of policy = record {
  decision = policy.default_decision;
  severity = decision_severity policy.default_decision;
  reason = "no matching access rule";
}

abbrev pub decision_or :
    AuthorizationDecision → Option AuthorizationDecision → AuthorizationDecision
decision_or d none = d
decision_or d (some found) = found

unfoldable pub authorize : SecurityPolicy → AuthorizationRequest → AuthorizationDecision
authorize policy request =
    if policy.production_mode && not request.principal.authenticated
    then critical_denial "unauthenticated principal rejected in production mode"
    else if request.principal.remote
        && is_diagnostic_operation request.operation
        && not policy.remote_diagnostics_allowed
    then critical_denial "remote diagnostic access is disabled by policy"
    else decision_or (default_decision_of policy) (scan_rules policy.rules request none)

-- `AuthorizationDecision::Allowed`.
abbrev pub allowed : AuthorizationDecision → Bool
allowed d = not (is_deny d.decision)

unfoldable pub add_rule : SecurityPolicy → AccessRule → SecurityPolicy
add_rule policy rule = record policy { rules = policy.rules ++ (rule ∷ []) }

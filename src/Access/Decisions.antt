-- ===== src/Access/Decisions.antt =====
-- Access decisions against their reference: a rule that denies wins (identity_access_manager.cpp).
use open_autosar.Base.{
  ◌≡◌, refl, Bool, not, ◌&&◌, ◌||◌, List, [], ◌∷◌, any_of, Option, none, some, arith, if◌then◌else◌,
}
use open_autosar.Access.{
  Decision, allow, deny, is_deny, AuthorizationRequest, AuthorizationDecision, AccessRule,
  SecurityPolicy,
}
use open_autosar.Access.Policy.{
  matches_rule, is_diagnostic_operation, rule_decision, scan_rules, decision_or,
  default_decision_of, authorize,
}

abbrev pub denies : AuthorizationRequest → AccessRule → Bool
denies request rule = matches_rule rule request && is_deny rule.decision

abbrev pub allows : AuthorizationRequest → AccessRule → Bool
allows request rule = matches_rule rule request && not (is_deny rule.decision)

-- The checks before the rules.
abbrev pub barred : SecurityPolicy → AuthorizationRequest → Bool
barred policy request =
    (policy.production_mode && not request.principal.authenticated)
    || (request.principal.remote
        && is_diagnostic_operation request.operation
        && not policy.remote_diagnostics_allowed)

-- The reference: which rules match, whatever their order.
unfoldable pub reference : SecurityPolicy → AuthorizationRequest → Decision
reference policy request =
    if barred policy request || any_of (denies request) policy.rules
    then deny
    else if any_of (allows request) policy.rules
    then allow
    else policy.default_decision

abbrev decision_of : Decision → Option AuthorizationDecision → Decision
decision_of d none = d
decision_of d (some found) = found.decision

scan_rules_lem :
    (rules : List AccessRule) (request : AuthorizationRequest)
    (found : Option AuthorizationDecision) (d : Decision)
    → decision_of d (scan_rules rules request found) ≡ (
        if any_of (denies request) rules
        then deny
        else if any_of (allows request) rules
        then allow
        else decision_of d found)
unfolding scan_rules
scan_rules_lem [] request found d = refl
scan_rules_lem (rule ∷ rules) request found d = ground (
  arith,
  scan_rules_lem rules request found d,
  scan_rules_lem rules request (some (rule_decision rule)) d,
)

decision_or_lem :
    (policy : SecurityPolicy) (o : Option AuthorizationDecision)
    → (decision_or (default_decision_of policy) o).decision ≡ decision_of policy.default_decision o
decision_or_lem policy none = refl
decision_or_lem policy (some found) = refl

-- The decision is that of the reference: after the checks of authentication and of remote
-- diagnostics, a matching rule that denies wins over every rule that allows, wherever the rules
-- stand, and the default is taken only if no rule matches.
pub authorize-reference :
    (policy : SecurityPolicy) (request : AuthorizationRequest)
    → (authorize policy request).decision ≡ reference policy request
unfolding authorize reference
authorize-reference policy request = ground (
  arith,
  decision_or_lem policy (scan_rules policy.rules request none),
  scan_rules_lem policy.rules request none policy.default_decision,
)

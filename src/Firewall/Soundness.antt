-- ===== src/Firewall/Soundness.antt =====
-- What a plan that `Compile` returns is (firewall_manager.cpp).
use mathlib.Core.List.{Perm}
use open_autosar.Base.{
  ◌≤◌, ◌≡◌, refl, ap, ◌∙◌, Bool, true, false, not, ◌||◌, String, has_text, text_less-asym, IsUnique,
  AreNew, AreNew-init, List, [], ◌∷◌, ◌++◌, map, All, length, sort_by-Perm, sort_by-IsSorted,
  IsSorted, Result, from_value, from_error, Result-cases, Bool-cases, inl, inr, arith,
}
use open_autosar.Firewall.{FirewallRule, FirewallPolicy, CompiledFirewallRule, FirewallPlan}
use open_autosar.Firewall.Validation.{validate_rule}
use open_autosar.Firewall.Plans.{
  compile_rule, enabled_rules, platform_rules, before, sorted_rules, prepend, compile_rules,
  denies_by_default, compile,
}

abbrev pub rule_ids : List FirewallRule → List String
rule_ids rules = map (λ r. r.rule_id) rules

-- Which rules the loop over the sorted rules accepts.
pub record Accepted (policy : FirewallPolicy) (rules : List FirewallRule)
    (compiled : List CompiledFirewallRule) : Type 0 where
  pub valid : All (λ r. validate_rule r policy ≡ from_value true) rules
  pub unique : IsUnique (rule_ids rules)
  pub results : compiled ≡ map (λ r. compile_rule r policy.backend) rules

validate_rule-true :
    (r : FirewallRule) (policy : FirewallPolicy) (b : Bool)
    → validate_rule r policy ≡ from_value b
    → validate_rule r policy ≡ from_value true
unfolding validate_rule
validate_rule-true r policy b h = ground (arith, h)

prepend_inv :
    (c : CompiledFirewallRule) (r : Result (List CompiledFirewallRule))
    (cs : List CompiledFirewallRule)
    → prepend c r ≡ from_value cs
    → (rest : List CompiledFirewallRule) × (r ≡ from_value rest) × (cs ≡ c ∷ rest)
prepend_inv c (from_error e) cs h = absurd (ground (arith, h))
prepend_inv c (from_value rest) cs h = (rest, refl, ground (arith, h))

compile_rules-Accepted :
    (policy : FirewallPolicy) (seen : List String) (rules : List FirewallRule)
    (compiled : List CompiledFirewallRule)
    → compile_rules policy seen rules ≡ from_value compiled
    → AreNew seen (rule_ids rules) × Accepted policy rules compiled
unfolding compile_rules
compile_rules-Accepted policy seen [] compiled h =
    (tt, record { valid = tt; unique = tt; results = ground (arith, h) })
compile_rules-Accepted policy seen (r ∷ rules) compiled h =
    elim (Bool-cases (has_text r.rule_id seen)) [
      | inl t ↦ absurd (ground (arith, h, t))
      | inr f ↦ elim (Result-cases (validate_rule r policy)) [
        | inr (e, ve) ↦ absurd (ground (arith, h, f, ve))
        | inl (b, vb) ↦
            let (rest, found, split) =
              prepend_inv (compile_rule r policy.backend)
                (compile_rules policy (seen ++ (r.rule_id ∷ [])) rules) compiled
                (rw (f, vb) at h) in
            let (news, accepted) =
              compile_rules-Accepted policy (seen ++ (r.rule_id ∷ [])) rules rest found in
            let (older, absent) = AreNew-init seen r.rule_id (rule_ids rules) news in
            (
              (f, older),
              record {
                valid = (validate_rule-true r policy b vb, accepted.valid);
                unique = (absent, accepted.unique);
                results = split ∙ ap (λ l. compile_rule r policy.backend ∷ l) accepted.results;
              },
            )
      ]
    ]

before-asym : (r s : FirewallRule) → before r s ≡ true → before s r ≡ false
before-asym r s h = ground (arith, h, text_less-asym r.rule_id s.rule_id)

-- A plan and the policy that it was compiled from, with the plan's rules before compilation.
pub record Sound (policy : FirewallPolicy) (plan : FirewallPlan) (rules : List FirewallRule)
    : Type 0 where
  -- They are the enabled rules of the policy and the platform's rules, each as often as there.
  complete : Perm rules (enabled_rules policy.rules ++ platform_rules policy)
  -- They stand in the order of priority and identifier.
  sorted : IsSorted before rules
  -- Each is valid, their identifiers are distinct, and the plan has their compiled form.
  pub accepted : Accepted policy rules plan.rules
  -- The enabled rules are within the budget.
  bounded : length (enabled_rules policy.rules) ≤ policy.max_rules
  -- A required default deny is there, and is that of the policy.
  denying : (not policy.require_default_deny || plan.default_deny_enforced) ≡ true
  enforced : plan.default_deny_enforced ≡ denies_by_default policy

compile_inv :
    (policy : FirewallPolicy) (plan : FirewallPlan)
    → compile policy ≡ from_value plan
    → (compile_rules policy [] (sorted_rules policy) ≡ from_value plan.rules)
      × (length (enabled_rules policy.rules) ≤ policy.max_rules)
      × ((not policy.require_default_deny || plan.default_deny_enforced) ≡ true)
      × (plan.default_deny_enforced ≡ denies_by_default policy)
unfolding compile
compile_inv policy plan h = elim (Result-cases (compile_rules policy [] (sorted_rules policy))) [
  | inr (e, err) ↦ absurd (ground (arith, h, err))
  | inl (compiled, ok) ↦
      (ground (arith, h, ok), ground (arith, h, ok), ground (arith, h, ok), ground (arith, h, ok))
]

-- A plan that a policy compiles to has, in the order of priority and identifier, exactly the enabled
-- rules of the policy and those of the platform; each of them is valid, no identifier occurs twice,
-- the enabled rules are within the budget, and a required default deny is enforced.
pub compile-Sound :
    (policy : FirewallPolicy) (plan : FirewallPlan)
    → compile policy ≡ from_value plan
    → Sound policy plan (sorted_rules policy)
compile-Sound policy plan h =
    let (ok, bound, denies, same) = compile_inv policy plan h in
    record {
      complete = sort_by-Perm before (enabled_rules policy.rules ++ platform_rules policy);
      sorted =
          sort_by-IsSorted before before-asym (enabled_rules policy.rules ++ platform_rules policy);
      accepted = (compile_rules-Accepted policy [] (sorted_rules policy) plan.rules ok).1;
      bounded = bound;
      denying = denies;
      enforced = same;
    }

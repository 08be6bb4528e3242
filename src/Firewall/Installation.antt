-- ===== src/Firewall/Installation.antt =====
-- Whose plan is active (firewall_manager.cpp with identity_access_manager.cpp).
use mathlib.Core.List.{Mem, mem-cons_self, mem-cons_of_mem}
use open_autosar.Base.{
  ◌≡◌, refl, ◌∙◌, sym, true, false, not, List, [], ◌∷◌, is_nil, Option, none, some, Bool-cases, inl,
  inr, arith, subst, ◌⊎◌,
}
use open_autosar.Access.{Decision, allow, deny, is_deny, Principal, SecurityPolicy}
use open_autosar.Access.Policy.{authorize, allowed}
use open_autosar.Access.Decisions.{reference, authorize-reference}
use open_autosar.Firewall.{FirewallPlan}
use open_autosar.Firewall.Plans.{install_request, install_plan}

-- A call of `InstallPlan`, with the access policy at that time.
pub record Call : Type 0 where
  pub principal : Principal
  pub access : SecurityPolicy
  pub plan : FirewallPlan

unfoldable pub run : Option FirewallPlan → List Call → Option FirewallPlan
run active [] = active
run active (call ∷ calls) = run (install_plan active call.principal call.access call.plan).0 calls

-- The calls that the access policies allow, for a plan with rules.
pub record Installs (plan : FirewallPlan) (call : Call) : Type 0 where
  plan_eq : call.plan ≡ plan
  has_rules : is_nil plan.rules ≡ false
  permitted : reference call.access (install_request call.principal) ≡ allow

not_deny : (d : Decision) → not (is_deny d) ≡ true → d ≡ allow
not_deny allow h = refl
not_deny deny h = absurd (ground (arith, h))

data Outcome (active : Option FirewallPlan) (call : Call) (after : Option FirewallPlan)
    : Type 0 where
  kept : after ≡ active → Outcome active call after
  replaced : after ≡ some call.plan → Installs call.plan call → Outcome active call after

install_plan-Outcome :
    (active : Option FirewallPlan) (call : Call)
    → Outcome active call (install_plan active call.principal call.access call.plan).0
unfolding install_plan
install_plan-Outcome active call =
    let request = install_request call.principal in
    elim (Bool-cases (is_nil call.plan.rules)) [
      | inl t ↦ kept (ground (arith, t))
      | inr f ↦ elim (Bool-cases (allowed (authorize call.access request))) [
        | inr denied ↦ kept (ground (arith, f, denied))
        | inl may ↦ replaced (ground (arith, f, may)) (record {
          plan_eq = refl;
          has_rules = f;
          permitted =
              sym (authorize-reference call.access request)
              ∙ not_deny (authorize call.access request).decision may;
        })
      ]
    ]

run-Installs :
    (active : Option FirewallPlan) (calls : List Call) (plan : FirewallPlan)
    → run active calls ≡ some plan
    → (active ≡ some plan) ⊎ ((call : Call) × Mem call calls × Installs plan call)
unfolding run
run-Installs active [] plan h = inl h
run-Installs active (call ∷ calls) plan h =
    elim (run-Installs (install_plan active call.principal call.access call.plan).0 calls plan h) [
      | inr (later, m, i) ↦ inr (later, mem-cons_of_mem call m, i)
      | inl same ↦ elim (install_plan-Outcome active call) [
        | kept e ↦ inl (sym e ∙ same)
        | replaced e i ↦
            let eq : call.plan ≡ plan = ground (arith, sym e ∙ same) in
            inr (call, mem-cons_self, subst (λ p. Installs p call) eq i)
      ]
    ]

-- The plan that is active after any sequence of calls of `InstallPlan` was handed over by one of
-- them, has rules, and its principal is one that the access policy's reference decision allows to
-- install firewall rules.
pub active_permitted :
    (calls : List Call) (plan : FirewallPlan)
    → run none calls ≡ some plan
    → (call : Call) × Mem call calls × Installs plan call
active_permitted calls plan h = elim (run-Installs none calls plan h) [
  | inl n ↦ absurd (ground (arith, n))
  | inr found ↦ found
]

-- ===== src/Firewall/Injection.antt =====
-- No rule's data ends its expression (firewall_manager.cpp).
use open_autosar.Base.{
  ℕ, ◌≡◌, refl, sym, ◌∙◌, Bool, true, false, ◌||◌, String, is_empty, codes, all_codes,
  all_codes-concat, all_codes-decimal, concat, decimal, List, [], ◌∷◌, map, all_of, All, Option,
  none, some, if◌then◌else◌, from_value, Bool-cases, inl, inr, arith, subst,
}
use open_autosar.Firewall.{
  Direction, is_ingress, direction_text, Protocol, protocol_text, backend_text, is_nftables, any,
  tcp, udp, icmp, RuleAction, allow, deny, reject, EnforcementBackend, nftables, ebpf,
  application_policy, EndpointSelector, FirewallRule, FirewallPolicy, FirewallPlan,
  CompiledFirewallRule,
}
use open_autosar.Firewall.Tokens.{is_safe_token, is_safe_interface}
use open_autosar.Firewall.Addresses.{is_plain, all_of-token, all_of-interface, is_valid_codes-plain}
use open_autosar.Firewall.Validation.{validate_rule}
use open_autosar.Firewall.Expressions.{
  action_text, is_any, nftables_port, port_text, endpoint_expression, nftables_parts, field_parts,
  compile_expression,
}
use open_autosar.Firewall.Plans.{compile_rule, compile, sorted_rules}
use open_autosar.Firewall.Soundness.{compile-Sound}

-- What a valid rule writes into its expression.
record PlainRule (r : FirewallRule) : Type 0 where
  id : all_codes is_plain r.rule_id ≡ true
  network : all_codes is_plain r.interface_name ≡ true
  from : all_codes is_plain r.source.cidr ≡ true
  to : all_codes is_plain r.destination.cidr ≡ true
  instance_of : (is_empty r.service_instance || all_codes is_plain r.service_instance) ≡ true

validate_rule-PlainRule :
    (r : FirewallRule) (policy : FirewallPolicy)
    → validate_rule r policy ≡ from_value true
    → PlainRule r
unfolding validate_rule is_safe_token is_safe_interface
validate_rule-PlainRule r policy h = record {
  id = ground (arith, h, all_of-token (codes r.rule_id));
  network = ground (arith, h, all_of-interface (codes r.interface_name));
  from = ground (arith, h, is_valid_codes-plain (codes r.source.cidr));
  to = ground (arith, h, is_valid_codes-plain (codes r.destination.cidr));
  instance_of = ground (arith, h, all_of-token (codes r.service_instance));
}

abbrev IsPlain : String → Type 0
IsPlain s = all_codes is_plain s ≡ true

infixr 60 ◌⊕◌
data ArePlain : List String → Type 0 where
  nothing : ArePlain []
  ◌⊕◌ : {s : String} {ss : List String} → IsPlain s → ArePlain ss → ArePlain (s ∷ ss)

concat-IsPlain : (ss : List String) → ArePlain ss → IsPlain (concat ss)
concat-IsPlain ss a = all_codes-concat is_plain ss ∙ plain_parts ss a
  where
    plain_parts : (ss : List String) → ArePlain ss → all_of (all_codes is_plain) ss ≡ true
    plain_parts [] a = refl
    plain_parts (s ∷ ss) (h ⊕ a) = ground (arith, h, plain_parts ss a)

if-IsPlain : (b : Bool) (s t : String) → IsPlain s → IsPlain t → IsPlain (if b then s else t)
if-IsPlain true s t h k = h
if-IsPlain false s t h k = k

protocol_text-IsPlain : (p : Protocol) → IsPlain (protocol_text p)
protocol_text-IsPlain any = refl
protocol_text-IsPlain tcp = refl
protocol_text-IsPlain udp = refl
protocol_text-IsPlain icmp = refl

direction_text-IsPlain : (d : Direction) → IsPlain (direction_text d)
direction_text-IsPlain Direction.ingress = refl
direction_text-IsPlain Direction.egress = refl

action_text-IsPlain : (a : RuleAction) (b : EnforcementBackend) → IsPlain (action_text a b)
action_text-IsPlain allow b = if-IsPlain (is_nftables b) "accept" "allow" refl refl
action_text-IsPlain deny b = if-IsPlain (is_nftables b) "drop" "deny" refl refl
action_text-IsPlain reject b = if-IsPlain (is_nftables b) "reject" "reject" refl refl

backend_text-IsPlain : (b : EnforcementBackend) → IsPlain (backend_text b)
backend_text-IsPlain nftables = refl
backend_text-IsPlain ebpf = refl
backend_text-IsPlain application_policy = refl

decimal-IsPlain : (n : ℕ) → IsPlain (decimal n)
decimal-IsPlain n = all_codes-decimal is_plain refl n

port_text-IsPlain : (port : Option ℕ) → IsPlain (port_text port)
port_text-IsPlain none = refl
port_text-IsPlain (some n) = decimal-IsPlain n

nftables_port-IsPlain :
    (port : Option ℕ) (b : Bool) (p : Protocol) → IsPlain (concat (nftables_port port b p))
nftables_port-IsPlain none b p = concat-IsPlain [] nothing
nftables_port-IsPlain (some n) b p = concat-IsPlain (nftables_port (some n) b p) (
    refl
    ⊕ protocol_text-IsPlain p
    ⊕ refl
    ⊕ if-IsPlain b "sport " "dport " refl refl
    ⊕ decimal-IsPlain n
    ⊕ nothing)

endpoint_expression-IsPlain :
    (e : EndpointSelector) (b : Bool) (p : Protocol) (backend : EnforcementBackend)
    → IsPlain e.cidr
    → IsPlain (endpoint_expression e b p backend)
unfolding endpoint_expression
endpoint_expression-IsPlain e b p backend h =
    let side : String = if b then "src" else "dst" in
    let side_plain = if-IsPlain b "src" "dst" refl refl in
    if-IsPlain (is_nftables backend)
      (concat (" ip " ∷ side ∷ "addr " ∷ e.cidr ∷ concat (nftables_port e.port b p) ∷ []))
      (concat (" " ∷ side ∷ "=" ∷ e.cidr ∷ " " ∷ side ∷ "_port=" ∷ port_text e.port ∷ []))
      (concat-IsPlain (" ip " ∷ side ∷ "addr " ∷ e.cidr ∷ concat (nftables_port e.port b p) ∷ [])
        (refl ⊕ side_plain ⊕ refl ⊕ h ⊕ nftables_port-IsPlain e.port b p ⊕ nothing))
      (concat-IsPlain (" " ∷ side ∷ "=" ∷ e.cidr ∷ " " ∷ side ∷ "_port=" ∷ port_text e.port ∷ []) (
        refl
        ⊕ side_plain
        ⊕ refl
        ⊕ h
        ⊕ refl
        ⊕ side_plain
        ⊕ refl
        ⊕ port_text-IsPlain e.port
        ⊕ nothing))

protocol_part-IsPlain :
    (p : Protocol) → IsPlain (if is_any p then "" else concat (" " ∷ protocol_text p ∷ []))
protocol_part-IsPlain p =
    if-IsPlain (is_any p) "" (concat (" " ∷ protocol_text p ∷ [])) refl
      (concat-IsPlain (" " ∷ protocol_text p ∷ []) (refl ⊕ protocol_text-IsPlain p ⊕ nothing))

service_part-IsPlain :
    (s : String)
    → (is_empty s || all_codes is_plain s) ≡ true
    → IsPlain (if is_empty s then "" else concat (" service=" ∷ s ∷ []))
service_part-IsPlain s h = elim (Bool-cases (is_empty s)) [
  | inl t ↦ rw (t) refl
  | inr f ↦ rw (f) (concat-IsPlain (" service=" ∷ s ∷ []) (refl ⊕ (rw (f) at h) ⊕ nothing))
]

compile_expression-IsPlain :
    (r : FirewallRule) (b : EnforcementBackend) → PlainRule r → IsPlain (compile_expression r b)
unfolding compile_expression
compile_expression-IsPlain r b h =
    let source = endpoint_expression-IsPlain r.source true r.protocol b h.from in
    let destination = endpoint_expression-IsPlain r.destination false r.protocol b h.to in
    if-IsPlain (is_nftables b) (concat (nftables_parts r b)) (concat (field_parts r b))
      (concat-IsPlain (nftables_parts r b) (
        refl
        ⊕ direction_text-IsPlain r.direction
        ⊕ refl
        ⊕ if-IsPlain (is_ingress r.direction) "iifname" "oifname" refl refl
        ⊕ refl
        ⊕ h.network
        ⊕ refl
        ⊕ protocol_part-IsPlain r.protocol
        ⊕ source
        ⊕ destination
        ⊕ refl
        ⊕ action_text-IsPlain r.action b
        ⊕ refl
        ⊕ h.id
        ⊕ refl
        ⊕ nothing))
      (concat-IsPlain (field_parts r b) (
        backend_text-IsPlain b
        ⊕ refl
        ⊕ direction_text-IsPlain r.direction
        ⊕ refl
        ⊕ h.network
        ⊕ refl
        ⊕ protocol_text-IsPlain r.protocol
        ⊕ source
        ⊕ destination
        ⊕ refl
        ⊕ action_text-IsPlain r.action b
        ⊕ service_part-IsPlain r.service_instance h.instance_of
        ⊕ refl
        ⊕ h.id
        ⊕ nothing))

compiled-IsPlain :
    (policy : FirewallPolicy) (rules : List FirewallRule)
    → All (λ r. validate_rule r policy ≡ from_value true) rules
    → All
        (λ (c : CompiledFirewallRule). IsPlain c.expression)
        (map (λ r. compile_rule r policy.backend) rules)
compiled-IsPlain policy [] a = tt
compiled-IsPlain policy (r ∷ rules) a = (
  compile_expression-IsPlain r policy.backend (validate_rule-PlainRule r policy a.0),
  compiled-IsPlain policy rules a.1,
)

-- The expressions of a compiled plan consist of letters, digits, the space and `_-.:/"=*`: no text
-- in a policy can end a rule's expression and start another command.
pub compile_plain :
    (policy : FirewallPolicy) (plan : FirewallPlan)
    → compile policy ≡ from_value plan
    → All (λ (c : CompiledFirewallRule). all_codes is_plain c.expression ≡ true) plan.rules
compile_plain policy plan h =
    let accepted = (compile-Sound policy plan h).accepted in
    subst (All (λ (c : CompiledFirewallRule). all_codes is_plain c.expression ≡ true))
      (sym accepted.results) (compiled-IsPlain policy (sorted_rules policy) accepted.valid)

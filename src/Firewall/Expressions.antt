-- ===== src/Firewall/Expressions.antt =====
-- firewall_manager.cpp: the text of a rule, `CompileExpression`.
use open_autosar.Base.{
  ℕ, Bool, true, false, String, is_empty, concat, decimal, List, [], ◌∷◌, Option, none, some,
  if◌then◌else◌,
}
use open_autosar.Firewall.{
  Direction, is_ingress, direction_text, Protocol, protocol_text, RuleAction, allow, deny, reject,
  rule_action_text, EnforcementBackend, is_nftables, backend_text, EndpointSelector, FirewallRule,
}

abbrev pub verdict_text : RuleAction → String
verdict_text allow = "accept"
verdict_text deny = "drop"
verdict_text reject = "reject"

abbrev pub action_text : RuleAction → EnforcementBackend → String
action_text action backend =
    if is_nftables backend then verdict_text action else rule_action_text action

abbrev pub chain_text : Direction → String
chain_text direction = direction_text direction

abbrev pub is_any : Protocol → Bool
is_any Protocol.any = true
is_any Protocol.tcp = false
is_any Protocol.udp = false
is_any Protocol.icmp = false

abbrev pub nftables_port : Option ℕ → Bool → Protocol → List String
nftables_port none is_source protocol = []
nftables_port (some port) is_source protocol =
    " "
    ∷ protocol_text protocol
    ∷ " "
    ∷ (if is_source then "sport " else "dport ")
    ∷ decimal port
    ∷ []

abbrev pub port_text : Option ℕ → String
port_text none = "*"
port_text (some port) = decimal port

unfoldable pub endpoint_expression :
    EndpointSelector → Bool → Protocol → EnforcementBackend → String
endpoint_expression endpoint is_source protocol backend =
    let side = if is_source then "src" else "dst" in
    if is_nftables backend
    then concat (
        " ip "
        ∷ side
        ∷ "addr "
        ∷ endpoint.cidr
        ∷ concat (nftables_port endpoint.port is_source protocol)
        ∷ [])
    else concat
        (" " ∷ side ∷ "=" ∷ endpoint.cidr ∷ " " ∷ side ∷ "_port=" ∷ port_text endpoint.port ∷ [])

-- The two branches of `CompileExpression`.
abbrev pub nftables_parts : FirewallRule → EnforcementBackend → List String
nftables_parts rule backend =
    "add rule inet openautosar "
    ∷ chain_text rule.direction
    ∷ " "
    ∷ (if is_ingress rule.direction then "iifname" else "oifname")
    ∷ " \""
    ∷ rule.interface_name
    ∷ "\""
    ∷ (if is_any rule.protocol then "" else concat (" " ∷ protocol_text rule.protocol ∷ []))
    ∷ endpoint_expression rule.source true rule.protocol backend
    ∷ endpoint_expression rule.destination false rule.protocol backend
    ∷ " "
    ∷ action_text rule.action backend
    ∷ " comment \""
    ∷ rule.rule_id
    ∷ "\""
    ∷ []

abbrev pub field_parts : FirewallRule → EnforcementBackend → List String
field_parts rule backend =
    backend_text backend
    ∷ " direction="
    ∷ direction_text rule.direction
    ∷ " iface="
    ∷ rule.interface_name
    ∷ " proto="
    ∷ protocol_text rule.protocol
    ∷ endpoint_expression rule.source true rule.protocol backend
    ∷ endpoint_expression rule.destination false rule.protocol backend
    ∷ " action="
    ∷ action_text rule.action backend
    ∷ (if is_empty rule.service_instance
        then ""
        else concat (" service=" ∷ rule.service_instance ∷ []))
    ∷ " id="
    ∷ rule.rule_id
    ∷ []

unfoldable pub compile_expression : FirewallRule → EnforcementBackend → String
compile_expression rule backend =
    if is_nftables backend
    then concat (nftables_parts rule backend)
    else concat (field_parts rule backend)

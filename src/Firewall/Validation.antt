-- ===== src/Firewall/Validation.antt =====
-- firewall_manager.cpp: `ValidateRule`.
use open_autosar.Base.{
  Bool, true, false, not, ◌&&◌, ◌||◌, String, is_empty, has_text, is_nil, Option, none, some,
  if◌then◌else◌, ErrorCode, Result, from_value, from_error, ℕ,
}
use open_autosar.Firewall.{Protocol, FirewallRule, FirewallPolicy}
use open_autosar.Firewall.Tokens.{is_safe_token, is_safe_interface}
use open_autosar.Firewall.Cidr.{is_valid_ipv4_cidr}

abbrev pub make_error : String → ErrorCode
make_error message = record { domain = "firewall"; message = message }

abbrev pub supports_ports : Protocol → Bool
supports_ports Protocol.any = false
supports_ports Protocol.tcp = true
supports_ports Protocol.udp = true
supports_ports Protocol.icmp = false

abbrev pub has_port : Option ℕ → Bool
has_port none = false
has_port (some p) = true

unfoldable pub validate_rule : FirewallRule → FirewallPolicy → Result Bool
validate_rule rule policy =
    if not (is_safe_token rule.rule_id)
    then from_error (make_error "firewall rule id is invalid")
    else if not (is_safe_interface rule.interface_name)
    then from_error (make_error "firewall interface name is invalid")
    else if not (is_nil policy.allowed_interfaces)
        && not (has_text rule.interface_name policy.allowed_interfaces)
    then from_error (make_error "firewall interface is not allowlisted")
    else if not (is_valid_ipv4_cidr rule.source.cidr)
        || not (is_valid_ipv4_cidr rule.destination.cidr)
    then from_error (make_error "firewall rule CIDR is invalid")
    else if (has_port rule.source.port || has_port rule.destination.port)
        && not (supports_ports rule.protocol)
    then from_error (make_error "firewall rule ports require TCP or UDP")
    else if not (is_empty rule.service_instance) && not (is_safe_token rule.service_instance)
    then from_error (make_error "firewall service instance token is invalid")
    else from_value true

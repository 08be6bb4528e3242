-- ===== src/Firewall.antt =====
-- bsw/security/firewall: the data of firewall_manager.h, with the texts of `ToString`.
pub mod Tokens
pub mod Cidr
pub mod Validation
pub mod Expressions
pub mod Plans
pub mod Soundness
pub mod Installation
pub mod Addresses
pub mod Injection
pub mod Examples
use open_autosar.Base.{ℕ, ◌==◌, Bool, String, List, Option}

pub data Direction : Type 0 where
  ingress egress : Direction

abbrev pub is_ingress : Direction → Bool
is_ingress ingress = Bool.true
is_ingress egress = Bool.false

abbrev pub direction_text : Direction → String
direction_text ingress = "ingress"
direction_text egress = "egress"

pub data Protocol : Type 0 where
  any tcp udp icmp : Protocol

abbrev pub protocol_text : Protocol → String
protocol_text any = "any"
protocol_text tcp = "tcp"
protocol_text udp = "udp"
protocol_text icmp = "icmp"

pub data RuleAction : Type 0 where
  allow deny reject : RuleAction

abbrev pub rule_action_text : RuleAction → String
rule_action_text allow = "allow"
rule_action_text deny = "deny"
rule_action_text reject = "reject"

abbrev pub is_allow : RuleAction → Bool
is_allow allow = Bool.true
is_allow deny = Bool.false
is_allow reject = Bool.false

pub data EnforcementBackend : Type 0 where
  nftables ebpf application_policy : EnforcementBackend

abbrev pub backend_text : EnforcementBackend → String
backend_text nftables = "nftables"
backend_text ebpf = "ebpf"
backend_text application_policy = "application-policy"

abbrev pub is_nftables : EnforcementBackend → Bool
is_nftables nftables = Bool.true
is_nftables ebpf = Bool.false
is_nftables application_policy = Bool.false

pub record EndpointSelector : Type 0 where
  pub cidr : String
  pub port : Option ℕ  -- uint16

pub record FirewallRule : Type 0 where
  pub rule_id : String
  pub direction : Direction
  pub action : RuleAction
  pub protocol : Protocol
  pub interface_name : String
  pub source : EndpointSelector
  pub destination : EndpointSelector
  pub service_instance : String
  pub priority : ℕ  -- uint32
  pub enabled : Bool
  pub audit : Bool

pub record FirewallPolicy : Type 0 where
  pub backend : EnforcementBackend
  pub default_ingress : RuleAction
  pub default_egress : RuleAction
  pub allow_loopback : Bool
  pub require_default_deny : Bool
  pub max_rules : ℕ  -- size_t
  pub allowed_interfaces : List String
  pub rules : List FirewallRule

pub record CompiledFirewallRule : Type 0 where
  pub rule_id : String
  pub backend : EnforcementBackend
  pub direction : Direction
  pub action : RuleAction
  pub protocol : Protocol
  pub expression : String
  pub audit_key : String

pub record FirewallPlan : Type 0 where
  pub rules : List CompiledFirewallRule
  pub disabled_rule_count : ℕ  -- size_t
  pub default_deny_enforced : Bool

pub record FirewallInstallReceipt : Type 0 where
  pub installed : Bool
  pub reason : String
  pub installed_rule_count : ℕ  -- size_t
